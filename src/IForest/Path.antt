-- ===== src/IForest/Path.antt =====
-- The array of nodes against the tree that it stands for.
use nrt_aggragator.Prelude.{
  ℕ, zero, suc, ◌≤◌, ◌≡◌, refl, ap, true, false, List, some, arith, if◌then◌else◌,
}
use nrt_aggragator.Prelude.Int.{ℤ, pos}
use nrt_aggragator.Prelude.Float.{Float, of_ℕ}
use nrt_aggragator.IForest.{
  Node, Tree, at_index, ends_walk, feature_value, walk, path_length, max_depth,
}

-- An isolation tree: a split on a feature, with what lies below and above the threshold.
pub data IsolationTree {ℓ} (F : Type ℓ) : Type ℓ where
  leaf : IsolationTree F
  split : (feature : ℤ) (threshold : F) → IsolationTree F → IsolationTree F → IsolationTree F

module _ {ℓ} {F : Type ℓ} where
  abbrev height : IsolationTree F → ℕ
  height leaf = 0
  height (split i t low high) = suc (Prim.Native.Nat.max (height low) (height high))

module _ {ℓ} {F : Type ℓ} ⦃f : Float F⦄ where
  -- the number of splits from the root to the leaf where the features fall
  abbrev depth_of : List F → IsolationTree F → ℕ
  depth_of x leaf = 0
  depth_of x (split j t low high) =
      let low_depth = depth_of x low in
      let high_depth = depth_of x high in
      suc (if f.le (feature_value x j) t then low_depth else high_depth)

  -- The nodes that are reached from index `i` are the tree.
  abbrev Encodes : List (Node F) → ℤ → IsolationTree F → Type ℓ
  Encodes nodes i leaf = (n : Node F) × (at_index nodes i ≡ some n) × (ends_walk n ≡ true)
  Encodes nodes i (split j t low high) =
      (n : Node F) × (at_index nodes i ≡ some n)
      × (ends_walk n ≡ false)
      × (n.feature ≡ j)
      × (n.threshold ≡ t)
      × Encodes nodes n.left low
      × Encodes nodes n.right high

  walk-Encodes :
      (nodes : List (Node F)) (x : List F) (steps : ℕ) (i : ℤ) (t : IsolationTree F)
      → Encodes nodes i t
      → height t ≤ steps
      → walk nodes x steps i ≡ depth_of x t
  unfolding walk
  walk-Encodes nodes x zero i leaf e h = refl
  walk-Encodes nodes x zero i (split j t low high) e h = absurd (ground arith)
  walk-Encodes nodes x (suc steps) i leaf (n, here, ends) h = ground (arith, here, ends)
  walk-Encodes nodes x (suc steps) i (split j t low high) (n, here, on, fe, th, l, r) h = ground (
    arith,
    here,
    on,
    fe,
    th,
    walk-Encodes nodes x steps n.left low l (ground arith),
    walk-Encodes nodes x steps n.right high r (ground arith),
  )

  -- If the nodes from the first one on are an isolation tree of height 64 at most, the path length
  -- is the number of splits from its root to the leaf where the features fall.
  pub path_length-Encodes :
      (tree : Tree F) (x : List F) (t : IsolationTree F)
      → Encodes tree.nodes (pos 0) t
      → height t ≤ max_depth
      → path_length tree x ≡ of_ℕ (depth_of x t)
  unfolding path_length
  path_length-Encodes tree x t e h = ap of_ℕ (walk-Encodes tree.nodes x max_depth (pos 0) t e h)
