-- ===== src/Vectorizer/Settings.antt =====
-- `New` of vectorizer.go, its PCA file, and its helpers for nested settings. Files and JSON are
-- parameters.
use text.Mathlib.Text.{◌==◌ as str_eq}
use nrt_aggragator.Prelude.{
  ℕ, suc, ◌*◌, Bool, true, false, List, [], ◌∷◌, map, String, if◌then◌else◌, Option, none, some,
  leb, ◌==◌, length,
}
use nrt_aggragator.Prelude.Int.{ℤ, pos}
use nrt_aggragator.Prelude.Text.{Strings, to_lower, is_empty}
use nrt_aggragator.Prelude.Dict.{Dict, get}
use nrt_aggragator.Prelude.Float.{Float, nought}
use nrt_aggragator.Config.{
  ProcessorCfg, Value, int, float, str, flag, list, mapping, Entries, no_entries, entry, texts_in,
  extra_string, extra_bool,
}
use nrt_aggragator.Telemetry.{Bytes}
use nrt_aggragator.Vectorizer.{PcaModel, Processor}

-- the decoded file of a projection
pub record PcaFile {ℓ} (F : Type ℓ) : Type ℓ where
  pub rows : ℤ
  pub cols : ℤ
  pub data_of : List F
  pub mean : List F
  pub std : List F

pub record Reading {ℓ} (F : Type ℓ) : Type ℓ where
  pub atoi : String → Option ℤ
  pub parse_float : String → Option F
  -- a file that is there, and JSON that is decoded
  pub read_file : String → Option Bytes
  pub bytes_of : String → Bytes
  pub decode_pca : Bytes → Option (PcaFile F)
  -- `strings.TrimSuffix(s, "/")`
  pub trim_slash : String → String

-- a matrix of its size, with a row at least and two columns at least
unfoldable pca_from_file {ℓ} : {F : Type ℓ} → PcaFile F → Option (PcaModel F)
pca_from_file {F = F} pf = sized pf.rows pf.cols
  where
    sized : ℤ → ℤ → Option (PcaModel F)
    sized (pos (suc rows)) (pos (suc (suc cols))) =
        if length pf.data_of == suc rows * suc (suc cols)
        then some (record {
          rows = suc rows;
          cols = suc (suc cols);
          mat = pf.data_of;
          mean = pf.mean;
          std = pf.std;
        })
        else none
    sized _ _ = none

abbrev or_texts : List String → Option (List String) → List String
or_texts def none = def
or_texts def (some texts) = texts

-- a list that is not empty
abbrev or_some_texts : List String → Option (List String) → List String
or_some_texts def (some (x ∷ xs)) = x ∷ xs
or_some_texts def _ = def

abbrev positive_or : ℕ → Option ℤ → ℕ
positive_or def (some (pos (suc n))) = suc n
positive_or def _ = def

module _ {ℓ} {F : Type ℓ} where
  unfoldable value_in : Entries F → String → Option (Value F)
  value_in no_entries key = none
  value_in (entry k v rest) key =
      let others = value_in rest key in if str_eq key k then some v else others

  abbrev entries_of : Option (Value F) → Entries F
  entries_of (some (mapping m)) = m
  entries_of _ = no_entries

  -- `extra[k1][k2]`, where what is no map has no entries
  unfoldable pub nested : Dict (Value F) → String → String → Option (Value F)
  unfolding value_in
  nested extra k1 k2 = value_in (entries_of (get extra k1)) k2

  abbrev pub nested_string_slice : Dict (Value F) → String → String → Option (List String)
  unfolding nested texts_in
  nested_string_slice extra k1 k2 = elim (nested extra k1 k2) [
    | some (list vs) ↦ some (texts_in vs)
    | _ ↦ none
  ]

  abbrev nested_bool : Dict (Value F) → String → String → Bool → Bool
  unfolding nested
  nested_bool extra k1 k2 def = elim (nested extra k1 k2) [ some (flag v) ↦ v | _ ↦ def ]

  abbrev nested_bool_default : Dict (Value F) → Bool → String → String → String → Bool
  unfolding nested value_in
  nested_bool_default extra def k1 k2 k3 = elim (value_in (entries_of (nested extra k1 k2)) k3) [
    | some (flag v) ↦ v
    | _ ↦ def
  ]

  abbrev positive_int : ℕ → Option (Value F) → ℕ
  positive_int def (some (int (pos (suc n)))) = suc n
  positive_int def _ = def

  -- 1, 2 or 3
  abbrev ngrams_of : Option (Value F) → ℕ
  ngrams_of (some (int (pos (suc n)))) = if leb (suc n) 3 then suc n else 2
  ngrams_of _ = 2

  abbrev retries_of : Option (Value F) → ℤ
  retries_of (some (int n)) = n
  retries_of _ = pos 2

abbrev common_words : List String
common_words = "the" ∷ "a" ∷ "an" ∷ "and" ∷ "or" ∷ "to" ∷ "of" ∷ "in" ∷ "on" ∷ "for" ∷ "with" ∷ []

module _ {ℓ} {F : Type ℓ} ⦃s : Strings⦄ where
  abbrev pub stopwords_of : Bool → Option (Value F) → List String
  unfolding texts_in
  stopwords_of lower (some (list vs)) = if lower then map to_lower (texts_in vs) else texts_in vs
  stopwords_of lower _ = common_words

module _ {ℓ} {F : Type ℓ} ⦃f : Float F⦄ (io : Reading F) where
  abbrev number_of : Option (Value F) → F
  number_of (some (float x)) = x
  number_of (some (int n)) = f.of_int n
  number_of (some (str v)) = elim (io.parse_float v) [ none ↦ nought | some x ↦ x ]
  number_of _ = nought

  abbrev integer_of : Option (Value F) → Option ℤ
  integer_of (some (int n)) = some n
  integer_of (some (float x)) = some (f.to_int x)
  integer_of (some (str v)) = io.atoi v
  integer_of _ = none

  abbrev decoded : Option Bytes → Option (PcaModel F)
  unfolding pca_from_file
  decoded none = none
  decoded (some raw) = elim (io.decode_pca raw) [ none ↦ none | some pf ↦ pca_from_file pf ]

  abbrev from_path : Option (Value F) → Option (PcaModel F)
  unfolding pca_from_file
  from_path (some (str path)) = if is_empty path then none else decoded (io.read_file path)
  from_path _ = none

  -- the matrix in the settings, or the one in a file
  unfoldable load_pca : Dict (Value F) → Option (PcaModel F)
  unfolding nested value_in pca_from_file
  load_pca extra =
      let node = entries_of (nested extra "metrics" "pca") in
      elim (value_in node "matrix_inline") [
        | some (str v) ↦
            if is_empty v
            then from_path (value_in node "matrix_path")
            else decoded (some (io.bytes_of v))
        | _ ↦ from_path (value_in node "matrix_path")
      ]

  module _ ⦃s : Strings⦄ where
    unfoldable pub new : ProcessorCfg F → Processor F
    unfolding extra_string extra_bool load_pca nested to_lower
    new cfg =
        let extra = cfg.extra in
        let lower = extra_bool cfg "lowercase" true in
        record {
          mode = to_lower (extra_string cfg "mode" "ollama");
          allow_fallback = extra_bool cfg "allow_fallback" true;
          ollama_endpoint = io.trim_slash (extra_string cfg "endpoint" "http://localhost:11434");
          ollama_model = extra_string cfg "model" "nomic-embed-text";
          timeout_ms = positive_int 5000 (get extra "timeout_ms");
          retries = retries_of (get extra "retries");
          hash_dim = positive_int 384 (get extra "hash_dim");
          hash_ngrams = ngrams_of (get extra "hash_ngrams");
          lowercase = lower;
          stopwords = stopwords_of lower (get extra "stopwords");
          logs_include =
              or_texts ("org_id" ∷ "success" ∷ "error_code" ∷ [])
                (nested_string_slice extra "logs" "include_fields");
          p90_approx = nested_bool extra "metrics" "p90_approx" true;
          ema_alpha = number_of (nested extra "metrics" "ema_alpha");
          pca =
              if nested_bool_default extra false "metrics" "pca" "enabled"
              then load_pca extra
              else none;
          ema = [];
          trace_attrs =
              or_some_texts ("http.method" ∷ "http.route" ∷ "status.code" ∷ "span.kind" ∷ [])
                (nested_string_slice extra "traces" "include_span_attrs");
          trace_max = positive_or 6 (integer_of (nested extra "traces" "max_attrs"));
        }
