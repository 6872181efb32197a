-- ===== src/Config.antt =====
-- mirador-nrt-aggregator-main/internal/config/config.go: the configuration of a processor, its
-- typed extras, and the names that the keys of the YAML file give.
use Prim.Native.Char.{Char}
use Prim.Native.String.{String}
use mathlib.Core.Path.{◌≡◌, refl}
use text.Mathlib.Text.{◌==◌ as str_eq}
use nrt_aggragator.Prelude.{
  Bool, false, ◌||◌, arith, List, [], ◌∷◌, if◌then◌else◌, Option, none, some,
}
use nrt_aggragator.Prelude.Int.{ℤ}
use nrt_aggragator.Prelude.Text.{is_empty}
use nrt_aggragator.Prelude.Dict.{Dict, get}

-- A decoded YAML value. What no modelled code reads, such as null, is `other_value`.
mutual
  pub data Value {ℓ} (F : Type ℓ) : Type ℓ where
    int : ℤ → Value F
    float : F → Value F
    str : String → Value F
    flag : Bool → Value F
    list : Values F → Value F
    mapping : Entries F → Value F
    other_value : Value F

  pub data Values {ℓ} (F : Type ℓ) : Type ℓ where
    nil : Values F
    cons : Value F → Values F → Values F

  pub data Entries {ℓ} (F : Type ℓ) : Type ℓ where
    no_entries : Entries F
    entry : String → Value F → Entries F → Entries F

module _ {ℓ} {F : Type ℓ} where
  -- the floats of a list
  unfoldable pub floats_in : Values F → List F
  floats_in nil = []
  floats_in (cons (float x) rest) = x ∷ floats_in rest
  floats_in (cons _ rest) = floats_in rest

  -- the texts of a list that are not empty
  unfoldable pub texts_in : Values F → List String
  texts_in nil = []
  texts_in (cons (str s) rest) =
      let others = texts_in rest in if is_empty s then others else s ∷ others
  texts_in (cons _ rest) = texts_in rest

pub record ProcessorCfg {ℓ} (F : Type ℓ) : Type ℓ where
  pub name : String
  pub type_name : String
  pub window_seconds : ℤ
  pub quantiles : List F
  pub features : List String
  pub n_trees : ℤ
  pub threshold : F
  pub extra : Dict (Value F)

abbrev is_slash : Char → Bool
is_slash c = str_eq (String.◌∷◌ c "") "/"

abbrev has_slash : String → Bool
has_slash String.[] = false
has_slash (String.◌∷◌ c s) = is_slash c || has_slash s

-- strings.SplitN(k, "/", 2): what stands before the first slash, and after it if there is one
unfoldable split_slash : String → String × Option String
split_slash String.[] = (String.[], none)
split_slash (String.◌∷◌ c s) =
    let rest = split_slash s in
    if is_slash c then (String.[], some s) else (String.◌∷◌ c rest.0, rest.1)

unfoldable split_key : String → String × String
unfolding split_slash
split_key String.[] = ("", "")
split_key (String.◌∷◌ c k) = elim (split_slash (String.◌∷◌ c k)).1 [
  | none ↦ ((split_slash (String.◌∷◌ c k)).0, (split_slash (String.◌∷◌ c k)).0)
  | some name ↦ ((split_slash (String.◌∷◌ c k)).0, name)
]

module _ {ℓ} {F : Type ℓ} where
  unfoldable pub extra_string : ProcessorCfg F → String → String → String
  extra_string pc key def = elim (get pc.extra key) [ some (str s) ↦ s | _ ↦ def ]

  unfoldable pub extra_bool : ProcessorCfg F → String → Bool → Bool
  extra_bool pc key def = elim (get pc.extra key) [ some (flag b) ↦ b | _ ↦ def ]

  -- The body of the loop of `Load` over the processors: the key fills in what is not named. An
  -- absent map of extras reads as the empty one.
  unfoldable pub normalize : String → ProcessorCfg F → ProcessorCfg F
  unfolding split_key
  normalize k v = record v {
    type_name = if is_empty v.type_name then (split_key k).0 else v.type_name;
    name = if is_empty v.name then (split_key k).1 else v.name;
  }

  unfoldable normalize_all : Dict (ProcessorCfg F) → Dict (ProcessorCfg F)
  unfolding normalize
  normalize_all [] = []
  normalize_all ((k, v) ∷ rest) = (k, normalize k v) ∷ normalize_all rest

-- the text "type/name"
abbrev slashed : String → String → String
slashed String.[] name = String.◌∷◌ "/" name
slashed (String.◌∷◌ c typ) name = String.◌∷◌ c (slashed typ name)

split_slash-slashed :
    (typ name : String) → has_slash typ ≡ false → split_slash (slashed typ name) ≡ (typ, some name)
unfolding split_slash
split_slash-slashed String.[] name h = refl
split_slash-slashed (String.◌∷◌ c typ) name h =
    ground (arith, split_slash-slashed typ name (ground arith))

-- A key that is a type without a slash, a slash and a name is split into the two.
split_key-slashed :
    (typ name : String) → has_slash typ ≡ false → split_key (slashed typ name) ≡ (typ, name)
unfolding split_key
split_key-slashed String.[] name h = refl
split_key-slashed (String.◌∷◌ c typ) name h =
    ground (arith, split_slash-slashed (String.◌∷◌ c typ) name h)
