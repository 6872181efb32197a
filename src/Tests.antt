-- ===== src/Tests.antt =====
-- Concrete parameters, and every theorem with premises at an input that meets them.
pub mod Fixed
mod Rca
mod Filter
mod Nrt
mod Cache
mod Flow
mod Store
mod Vectors
mod Calls
