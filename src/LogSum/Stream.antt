-- ===== src/LogSum/Stream.antt =====
-- The rest of logsum.go: the end of a window, and the loop of Start.
use Prim.Native.String.{◌++◌ as join}
use text.Mathlib.Text.{◌==◌ as str_eq}
use nrt_aggragator.Prelude.{
  ℕ, suc, ◌+◌, Bool, not, List, [], ◌∷◌, ◌++◌, map, String, if◌then◌else◌, Option, none, some, ltb,
  leb, length, take, get_elem?, is_nil,
}
use nrt_aggragator.Prelude.Int.{ℤ, pos, negsuc}
use nrt_aggragator.Prelude.Text.{Strings, to_lower, is_empty, has_prefix}
use nrt_aggragator.Prelude.Sort.{sort}
use nrt_aggragator.Prelude.Dict.{Dict, get, put}
use nrt_aggragator.Prelude.Float.{Float, nought, unit, of_ℕ, ge}
use nrt_aggragator.Config.{ProcessorCfg, Value, int, float, str, list, texts_in, extra_string}
use nrt_aggragator.Telemetry.{Aggregate, kind_json_logs, Item, envelope, aggregate}
use nrt_aggragator.Summarizer.{trunc}
use nrt_aggragator.LogSum.{Decoders, WState, Processor, count_at, counts_at, consume}

-- `strings.Join(parts, ",")`
unfoldable join_parts : List String → String
join_parts [] = ""
join_parts (x ∷ []) = x
join_parts (x ∷ y ∷ ys) = join x (join "," (join_parts (y ∷ ys)))

abbrev pub more : String × ℕ → String × ℕ → Bool
more a b = ltb b.1 a.1

-- the values with their counts, the most frequent first
unfoldable pub ranked : (List String → List String) → Dict ℕ → List (String × ℕ)
ranked range m = sort more (map (λ v. (v, count_at m v)) (range (map (λ e. e.0) m)))

-- `make` panics on a negative limit.
unfoldable pub top_values : (List String → List String) → ℤ → Dict ℕ → Option (List (String × ℕ))
unfolding ranked
top_values range (negsuc n) m = none
top_values range (pos n) m =
    let buf = ranked range m in some (take (if ltb (length buf) n then length buf else n) buf)

module _ ⦃s : Strings⦄ where
  abbrev part_of : String × ℕ → String
  part_of e = join e.0 (join ":" (s.itoa (pos e.1)))

  abbrev put_top : String → List (String × ℕ) → Dict String → Dict String
  put_top k [] labels = labels
  put_top k (e ∷ es) labels = put labels (join "top_" k) (join_parts (map part_of (e ∷ es)))

  -- one key of `topKeys`; a key without values is passed over
  unfoldable pub add_top :
      (List String → List String) → ℤ → String → Dict ℕ → Dict String → Option (Dict String)
  unfolding top_values join_parts
  add_top range limit k [] labels = some labels
  add_top range limit k (e ∷ m) labels = elim (top_values range limit (e ∷ m)) [
    | none ↦ none
    | some es ↦ some (put_top k es labels)
  ]

  unfoldable pub top_labels :
      (List String → List String)
      → ℤ
      → Dict (Dict ℕ)
      → List String
      → Dict String
      → Option (Dict String)
  unfolding add_top
  top_labels range limit top [] labels = some labels
  top_labels range limit top (k ∷ ks) labels =
      elim (add_top range limit k (counts_at top k) labels) [
        | none ↦ none
        | some more_labels ↦ top_labels range limit top ks more_labels
      ]

  -- the first label with the prefix in the order of the range, which is any order
  unfoldable first_top : Dict String → List String → String
  first_top labels [] = ""
  first_top labels (k ∷ ks) =
      let rest = first_top labels ks in
      if has_prefix k "top_"
      then join " " (join k (join "=" (elim (get labels k) [ none ↦ "" | some v ↦ v ])))
      else rest

module _ {ℓ} {F : Type ℓ} where
  abbrev pub prepend : Option (Aggregate F) → Option (List (Item F)) → Option (List (Item F))
  prepend (some a) (some rest) = some (aggregate a ∷ rest)
  prepend _ _ = none

  abbrev pub append : Option (List (Item F)) → Option (List (Item F)) → Option (List (Item F))
  append (some sent) (some rest) = some (sent ++ rest)
  append _ _ = none

module _ {ℓ} {F : Type ℓ} ⦃f : Float F⦄ where
  -- the value at a place between two neighbours of a sorted list
  abbrev pub mixed : F → ℤ → Option F → Option F → Option F
  mixed place l (some a) (some b) =
      let fr = f.sub place (f.of_int l) in some (f.add (f.mul a (f.sub unit fr)) (f.mul b fr))
  mixed place l _ _ = none

  -- An index out of range panics, and a negative one is.
  abbrev pub between : List F → F → ℤ → Option F
  between sorted place (negsuc l) = none
  between sorted place (pos l) =
      if leb (length sorted) (suc l)
      then get_elem? sorted l
      else mixed place (pos l) (get_elem? sorted l) (get_elem? sorted (suc l))

  -- `none` is a panic.
  unfoldable pub percentile : List F → F → Option F
  percentile [] q = some nought
  percentile (x ∷ xs) q =
      if f.le q nought
      then some x
      else if ge q unit
      then get_elem? (x ∷ xs) (length xs)
      else (let place = f.mul q (of_ℕ (length xs)) in between (x ∷ xs) place (f.to_int place))

  abbrev pub all_three : Option F → Option F → Option F → Option (F × F × F)
  all_three (some a) (some b) (some c) = some (a, b, c)
  all_three _ _ _ = none

  -- p50, p95 and p99
  unfoldable pub percentiles : List F → Option (F × F × F)
  unfolding percentile
  percentiles sorted =
      all_three (percentile sorted (f.decimal 50 2)) (percentile sorted (f.decimal 95 2))
        (percentile sorted (f.decimal 99 2))

  abbrev pub error_rate : WState F → F
  error_rate st = if ltb 0 st.total then f.div (of_ℕ st.errs) (of_ℕ st.total) else nought

  module _ ⦃s : Strings⦄ (d : Decoders F) where
    unfoldable pub build_summary_text : String → ℕ → F → Dict String → String
    unfolding first_top
    build_summary_text svc total err_rate labels = join "logs summary: service=" (
        join svc (
          join " total=" (
            join (s.itoa (pos total)) (
              join " error_rate=" (
                join (f.format 4 err_rate) (first_top labels (d.range (map (λ e. e.0) labels))))))))

    abbrev pub summary_of :
        ℕ → ℕ → String → WState F → Dict String → F × F × F → Option (Aggregate F)
    summary_of win_sec win_start svc st labels (p50, p95, p99) = some (record {
      service = svc;
      window_start = pos win_start;
      window_end = pos (win_start + win_sec);
      labels = labels;
      locator = "{}";
      count = st.total;
      rps = f.div (of_ℕ st.total) (of_ℕ win_sec);
      error_rate = error_rate st;
      p50 = p50;
      p95 = p95;
      p99 = p99;
      anomaly_score = nought;
      summary_text = build_summary_text svc st.total (error_rate st) labels;
      vector = [];
    })

    -- the labels with the number of users
    abbrev pub labels_of : WState F → Dict String → Dict String
    labels_of st tops =
        put tops "unique_users" (if is_nil st.users then "0" else s.itoa (pos (length st.users)))

    unfoldable pub summarize : ℕ → ℕ → String → WState F → Dict String → Option (Aggregate F)
    unfolding percentiles build_summary_text
    summarize win_sec win_start svc st tops = elim (percentiles (sort f.lt st.res)) [
      | none ↦ none
      | some qs ↦ summary_of win_sec win_start svc st (labels_of st tops) qs
    ]

    -- the aggregate of a service
    unfoldable pub close_window : Processor F → ℕ → String → WState F → Option (Aggregate F)
    unfolding top_labels summarize
    close_window p win_start svc st = elim (top_labels d.range p.top_limit st.top p.top_keys []) [
      | none ↦ none
      | some tops ↦ summarize p.win_sec win_start svc st tops
    ]

    unfoldable pub add_summary :
        Processor F
        → ℕ
        → String
        → Option (WState F)
        → Option (List (Item F))
        → Option (List (Item F))
    unfolding close_window
    add_summary p win_start svc none rest = rest
    add_summary p win_start svc (some st) rest = prepend (close_window p win_start svc st) rest

    unfoldable pub summaries : Processor F → ℕ → List String → Option (List (Item F))
    unfolding add_summary
    summaries p win_start [] = some []
    summaries p win_start (svc ∷ svcs) =
        add_summary p win_start svc (get p.state svc) (summaries p win_start svcs)

    -- what is sent at the end of a window
    unfoldable pub flush : Processor F → ℕ → Option (List (Item F))
    unfolding summaries
    flush p win_start = summaries p win_start (d.range (map (λ e. e.0) p.state))

-- An item with the clock's nanoseconds, or a tick at a time in seconds.
pub data Input {ℓ} (F : Type ℓ) : Type ℓ where
  arrived : ℕ → Item F → Input F
  ticked : ℕ → Input F

pub record Loop {ℓ} (F : Type ℓ) : Type ℓ where
  pub processor : Processor F
  pub win_start : ℕ

module _ {ℓ} {F : Type ℓ} ⦃f : Float F⦄ ⦃s : Strings⦄ (d : Decoders F) where
  -- the state after a tick at the end of the window
  abbrev pub next_window : Loop F → ℕ → Loop F
  next_window l now = record {
    processor = record l.processor { state = [] };
    win_start = trunc now l.processor.win_sec;
  }

  unfoldable pub log_arrived : Loop F → ℕ → Item F → Loop F × List (Item F)
  unfolding consume
  log_arrived l nanos (envelope env) =
      if not (str_eq env.kind kind_json_logs) then (l, envelope env ∷ []) else (
        record l {
          processor = record l.processor {
            state = consume d l.processor nanos l.win_start env.bytes;
          };
        },
        [],
      )
  log_arrived l nanos item = (l, item ∷ [])

  -- One round of the loop: the new state, and what is sent; `none` is a panic.
  unfoldable pub step : Loop F → Input F → Loop F × Option (List (Item F))
  unfolding flush log_arrived
  step l (arrived nanos item) = ((log_arrived l nanos item).0, some (log_arrived l nanos item).1)
  step l (ticked now) =
      if leb (l.win_start + l.processor.win_sec) now
      then (next_window l now, flush d l.processor l.win_start)
      else (l, some [])

  -- what is sent until the channel or the context ends
  unfoldable pub run : Loop F → List (Input F) → Option (List (Item F))
  unfolding step
  run l [] = some []
  run l (i ∷ is) = append (step l i).1 (run (step l i).0 is)

abbrev win_sec_of : ℤ → ℕ
win_sec_of (pos (suc n)) = suc n
win_sec_of _ = 60

-- `pick`
abbrev pick {ℓ} : {F : Type ℓ} → ProcessorCfg F → String → String → String
pick c key def = elim (get c.extra key) [ some (str v) ↦ if is_empty v then def else v | _ ↦ def ]

module _ {ℓ} {F : Type ℓ} ⦃f : Float F⦄ ⦃s : Strings⦄ (atoi : String → Option ℤ) where
  abbrev top_limit_of : Option (Value F) → ℤ
  top_limit_of (some (int n)) = n
  top_limit_of (some (float x)) = f.to_int x
  top_limit_of (some (str v)) = elim (atoi v) [ none ↦ pos 5 | some n ↦ n ]
  top_limit_of _ = pos 5

  abbrev texts_or : List String → Option (Value F) → List String
  texts_or def (some (list vs)) = texts_in vs
  texts_or def _ = def

  abbrev err_levels_of : Option (Value F) → List String
  err_levels_of (some (list vs)) = map to_lower (texts_in vs)
  err_levels_of _ = "error" ∷ "fatal" ∷ []

  -- the capacity that is given, if it is positive, or 256, less one
  abbrev reservoir_last_of : Option (Value F) → ℕ
  reservoir_last_of (some (int (pos (suc n)))) = n
  reservoir_last_of _ = 255

  unfoldable pub new : ProcessorCfg F → Processor F
  unfolding extra_string texts_in
  new cfg = record {
    win_sec = win_sec_of cfg.window_seconds;
    svc_key = pick cfg "service_field" "service";
    lvl_key = pick cfg "level_field" "level";
    err_levels = err_levels_of (get cfg.extra "error_levels");
    user_keys =
        texts_or ("user_id" ∷ "uid" ∷ "user" ∷ "customer_id" ∷ "account_id" ∷ [])
          (get cfg.extra "user_id_fields");
    quant_field = extra_string cfg "quantile_field" "";
    reservoir_last = reservoir_last_of (get cfg.extra "reservoir_cap");
    top_keys = texts_or [] (get cfg.extra "topk_fields");
    top_limit = top_limit_of (get cfg.extra "topk_limit");
    state = [];
  }
