-- ===== src/LogSum.antt =====
-- mirador-nrt-aggregator-main/internal/processors/logsum/logsum.go: JSON logs counted in windows
-- per service. JSON, the numbers that it prints and reads, the order of a range and the clock are
-- parameters. A counter of 64 bits wraps around; a panic is `none`.
pub mod Stream
pub mod Counts
pub mod Window
pub mod Top
use Prim.Native.String.{◌++◌ as join}
use text.Mathlib.Text.{◌==◌ as str_eq}
use nrt_aggragator.Prelude.{
  ℕ, zero, suc, ◌+◌, ◌-◌, ◌%◌, Bool, true, false, not, ◌&&◌, List, [], ◌∷◌, ◌++◌, map, String,
  if◌then◌else◌, Option, none, some, ltb, leb, length, take, set, get_or, any, is_nil,
}
use nrt_aggragator.Prelude.Int.{ℤ, pos, negsuc, pos_part}
use nrt_aggragator.Prelude.Text.{Strings, to_lower, is_empty, has_prefix}
use nrt_aggragator.Prelude.Sort.{sort}
use nrt_aggragator.Prelude.Dict.{Dict, get, put}
use nrt_aggragator.Prelude.Float.{Float, nought, unit, of_ℕ, ge}
use nrt_aggragator.Config.{ProcessorCfg, Value, int, float, str, list, texts_in, extra_string}
use nrt_aggragator.Telemetry.{Bytes, Aggregate, kind_json_logs, Item, envelope, aggregate}
use nrt_aggragator.Summarizer.{plus_64, trunc}

-- What `json.Unmarshal` makes of a value: a text, a float64, or something else.
pub data Json {ℓ} (F : Type ℓ) : Type ℓ where
  string_value : String → Json F
  float64 : F → Json F
  other_json : Json F

abbrev pub Entry {ℓ} : Type ℓ → Type ℓ
Entry F = Dict (Json F)

-- the third-party parts
pub record Decoders {ℓ} (F : Type ℓ) : Type ℓ where
  -- `none` where the text is no JSON object
  pub decode : Bytes → Option (Entry F)
  -- `strconv.FormatFloat(f, 'f', -1, 64)`
  pub shortest : F → String
  pub parse_float : String → Option F
  -- the order in which a range visits the keys of a map
  pub range : List String → List String

-- `users` is the set of users seen, nil where it is empty.
pub record WState {ℓ} (F : Type ℓ) : Type ℓ where
  pub start : ℕ
  pub end_time : ℕ
  pub total : ℕ
  pub errs : ℕ
  pub users : List String
  pub top : Dict (Dict ℕ)
  pub res : List F

pub record Processor {ℓ} (F : Type ℓ) : Type ℓ where
  pub win_sec : ℕ
  pub svc_key : String
  pub lvl_key : String
  pub err_levels : List String
  pub user_keys : List String
  pub quant_field : String
  -- the last index of the reservoir, whose capacity is one more: New makes it positive
  pub reservoir_last : ℕ
  pub top_keys : List String
  pub top_limit : ℤ
  pub state : Dict (WState F)

-- `m[key]` of a map of counts
abbrev pub count_at : Dict ℕ → String → ℕ
count_at m key = elim (get m key) [ none ↦ 0 | some n ↦ n ]

-- `m[key]` of a map of maps, where nil is the empty map
abbrev pub counts_at : Dict (Dict ℕ) → String → Dict ℕ
counts_at m key = elim (get m key) [ none ↦ [] | some counts ↦ counts ]

-- `m[val]++`
unfoldable increment : Dict ℕ → String → Dict ℕ
increment m val = put m val (plus_64 (count_at m val) 1)

unfoldable add_user : List String → String → List String
add_user users uid =
    if is_empty uid then users else if any (str_eq uid) users then users else users ++ (uid ∷ [])

module _ {ℓ} {F : Type ℓ} where
  -- A full reservoir has the entry replaced that the clock picks, which is one of those below the
  -- capacity.
  unfoldable pub add_sample : ℕ → ℕ → Option F → List F → List F
  add_sample cap_size nanos none res = res
  add_sample cap_size nanos (some x) res =
      if ltb (length res) cap_size then res ++ (x ∷ []) else set res (nanos % cap_size) x

  abbrev pub or_new : ℕ → Option (WState F) → WState F
  or_new win_start (some st) = st
  or_new win_start none = record {
    start = win_start;
    end_time = win_start;
    total = 0;
    errs = 0;
    users = [];
    top = [];
    res = [];
  }

  unfoldable pub ensure : Dict (WState F) → String → ℕ → WState F
  ensure state svc win_start = or_new win_start (get state svc)

module _ {ℓ} {F : Type ℓ} (d : Decoders F) where
  abbrev text_of : Option (Json F) → Option String
  text_of (some (string_value s)) = some s
  text_of (some (float64 x)) = some (d.shortest x)
  text_of _ = none

  -- the first key that holds a text, an empty one included, or a number
  unfoldable get_str : Entry F → List String → String
  get_str obj [] = ""
  get_str obj (k ∷ ks) = elim (text_of (get obj k)) [ none ↦ get_str obj ks | some s ↦ s ]

  unfoldable get_float : Entry F → String → Option F
  get_float obj key = elim (get obj key) [
    | some (float64 x) ↦ some x
    | some (string_value s) ↦ d.parse_float s
    | _ ↦ none
  ]

  unfoldable first_of : Entry F → List String → String
  unfolding get_str
  first_of obj [] = ""
  first_of obj (k ∷ ks) =
      let rest = first_of obj ks in
      if is_empty (get_str obj (k ∷ [])) then rest else get_str obj (k ∷ [])

  unfoldable pub service_of : Processor F → Entry F → String
  unfolding get_str
  service_of p obj =
      let svc = get_str obj (p.svc_key ∷ "service.name" ∷ "svc" ∷ "app" ∷ "application" ∷ []) in
      if is_empty svc then "unknown" else svc

  unfoldable pub is_error : ⦃s : Strings⦄ → Processor F → Entry F → Bool
  unfolding get_str
  is_error p obj = any (str_eq (to_lower (get_str obj (p.lvl_key ∷ [])))) p.err_levels

  unfoldable count_tops : Entry F → List String → Dict (Dict ℕ) → Dict (Dict ℕ)
  unfolding get_str increment
  count_tops obj [] top = top
  count_tops obj (k ∷ ks) top =
      let val = get_str obj (k ∷ []) in
      count_tops obj ks (if is_empty val then top else put top k (increment (counts_at top k) val))

  unfoldable pub sample_of : Processor F → Entry F → Option F
  unfolding get_float
  sample_of p obj = if is_empty p.quant_field then none else get_float obj p.quant_field

  module _ ⦃s : Strings⦄ where
    unfoldable pub count_entry : Processor F → ℕ → Entry F → WState F → WState F
    unfolding is_error add_user first_of count_tops sample_of add_sample
    count_entry p nanos obj st = record st {
      errs = if is_error p obj then plus_64 st.errs 1 else st.errs;
      total = plus_64 st.total 1;
      users = add_user st.users (first_of obj p.user_keys);
      top = count_tops obj p.top_keys st.top;
      res = add_sample (suc p.reservoir_last) nanos (sample_of p obj) st.res;
    }

    unfoldable pub consume_entry : Processor F → ℕ → ℕ → Option (Entry F) → Dict (WState F)
    unfolding service_of ensure count_entry
    consume_entry p nanos win_start none = p.state
    consume_entry p nanos win_start (some obj) =
        let svc = service_of p obj in
        put p.state svc (count_entry p nanos obj (ensure p.state svc win_start))

    -- the state after a log, read at `nanos`
    unfoldable pub consume : Processor F → ℕ → ℕ → Bytes → Dict (WState F)
    unfolding consume_entry
    consume p nanos win_start raw = consume_entry p nanos win_start (d.decode raw)
