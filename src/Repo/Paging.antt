-- ===== src/Repo/Paging.antt =====
-- The pages of the list of correlations.
use mathlib.Core.Path.{subst}
use nrt_aggragator.Prelude.{
  ℕ, zero, suc, ◌+◌, ◌≤◌, ◌<◌, ◌≡◌, refl, sym, ap, ◌∙◌, true, false, List, [], ◌∷◌, ◌++◌, String,
  Option, some, arith, Bool-cases, inl, inr, length, take, drop, length-take, take-append-drop,
  take_all, length-append, ◌==◌,
}
use nrt_aggragator.Prelude.Int.{ℤ, pos, negsuc}
use nrt_aggragator.Prelude.Text.{Strings, is_empty}
use nrt_aggragator.Prelude.Result.{Result, ok}
use nrt_aggragator.Prelude.Float.{Float}
use nrt_aggragator.Telemetry.{Bytes}
use nrt_aggragator.Models.{CorrelationResult}
use nrt_aggragator.Repo.{Times}
use nrt_aggragator.Repo.Queries.{
  ListCorrelationsRequest, ListCorrelationsResponse, correlations_query,
}
use nrt_aggragator.Repo.Client.{Backend, WeaviateRepo, post_query}
use nrt_aggragator.Repo.Reads.{page_limit, page_offset, page_of, correlations_in, list_correlations}

page_limit_positive : (n : ℤ) → 1 ≤ page_limit n
unfolding page_limit
page_limit_positive (negsuc n) = omega arith
page_limit_positive (pos zero) = omega arith
page_limit_positive (pos (suc n)) = ground arith

drop-nil {ℓ} : {A : Type ℓ} (n : ℕ) → ◌≡◌ {A = List A} (drop n []) []
drop-nil zero = refl
drop-nil (suc n) = refl

drop-drop {ℓ} : {A : Type ℓ} (o l : ℕ) (xs : List A) → drop (o + l) xs ≡ drop l (drop o xs)
drop-drop zero l xs = ap (λ n. drop n xs) (omega arith)
drop-drop (suc o) l [] = drop-nil (suc o + l) ∙ sym (drop-nil l)
drop-drop (suc o) l (x ∷ xs) =
    let e : suc o + l ≡ suc (o + l) = omega arith in ap (λ n. drop n (x ∷ xs)) e ∙ drop-drop o l xs

module _ {ℓ} {F W : Type ℓ} ⦃f : Float F⦄ ⦃t : Times⦄ ⦃s : Strings⦄ (b : Backend F W)
    (atoi : String → Option ℤ) (r : WeaviateRepo) (req : ListCorrelationsRequest) where
  -- the answer for a page, whose token is the only thing that changes
  abbrev list_page : String → W → Result (ListCorrelationsResponse F) × W
  list_page token = list_correlations b atoi (some r) (record req { page_token = token })

  -- Following the tokens from one on, up to the empty one, gives these correlations.
  pub data Follows : String → W → List (CorrelationResult F) → Type ℓ where
    last :
        (token : String) (w : W) (resp : ListCorrelationsResponse F) (after : W)
        → list_page token w ≡ (ok resp, after)
        → is_empty resp.next_page_token ≡ true
        → Follows token w resp.correlations
    more :
        (token : String) (w : W) (resp : ListCorrelationsResponse F) (after : W)
        (rest : List (CorrelationResult F))
        → list_page token w ≡ (ok resp, after)
        → is_empty resp.next_page_token ≡ false
        → Follows resp.next_page_token after rest
        → Follows token w (resp.correlations ++ rest)

  -- The server has these records: it answers each query with the page from the offset on.
  abbrev pub IsServer : List (CorrelationResult F) → Type ℓ
  IsServer all =
      (w : W) (offset : ℕ)
      → offset ≤ length all
      → (body : Bytes) × (after : W) × (post_query b r
            (correlations_query req (page_limit req.page_size) offset) w
          ≡ (ok (some body), after))
        × (correlations_in b body ≡ some (take (page_limit req.page_size) (drop offset all)))

  -- An offset is printed as a text that is not empty, and read back.
  abbrev pub IsPrinted : List (CorrelationResult F) → Type 0
  IsPrinted all =
      (n : ℕ)
      → n ≤ length all
      → (is_empty (s.itoa (pos n)) ≡ false) × (atoi (s.itoa (pos n)) ≡ some (pos n))

  abbrev limit : ℕ
  limit = page_limit req.page_size

  list_page-page :
      (all : List (CorrelationResult F)) (token : String) (o : ℕ) (w : W)
      → IsServer all
      → is_empty r.endpoint ≡ false
      → page_offset atoi token ≡ o
      → o ≤ length all
      → (after : W) × (list_page token w ≡ (ok (page_of limit o (take limit (drop o all))), after))
  unfolding list_correlations
  list_page-page all token o w server there at small =
      let (body, after, sent, found) = server w o small in (after, rw (there, at, sent, found) refl)

  next_token-full :
      (o : ℕ) (now : List (CorrelationResult F))
      → (length now == limit) ≡ true
      → (page_of limit o now).next_page_token ≡ s.itoa (pos (o + length now))
  unfolding page_of
  next_token-full o now full = rw full refl

  next_token-short :
      (o : ℕ) (now : List (CorrelationResult F))
      → (length now == limit) ≡ false
      → (page_of limit o now).next_page_token ≡ ""
  unfolding page_of
  next_token-short o now short = rw short refl

  page_offset-itoa :
      (n : ℕ) (token : String)
      → token ≡ s.itoa (pos n)
      → is_empty (s.itoa (pos n)) ≡ false
      → atoi (s.itoa (pos n)) ≡ some (pos n)
      → page_offset atoi token ≡ n
  unfolding page_offset
  page_offset-itoa n token e filled back = rw (e, filled, back) refl

  follow :
      (all : List (CorrelationResult F)) (fuel o : ℕ) (token : String) (w : W)
      → IsServer all
      → IsPrinted all
      → is_empty r.endpoint ≡ false
      → length (drop o all) < fuel
      → page_offset atoi token ≡ o
      → o + length (drop o all) ≡ length all
      → Follows token w (drop o all)
  unfolding page_of
  follow all zero o token w server printed there h at total = absurd (omega arith)
  follow all (suc fuel) o token w server printed there h at total =
      let xs = drop o all in
      let now = take limit xs in
      let m = o + length now in
      let (after, page) = list_page-page all token o w server there at (omega (arith, total)) in
      elim (Bool-cases (length now == limit)) [
        | inl full ↦
            let size : length now ≡ limit = ground (arith, full) in
            let fits : m ≤ length all = omega (arith, total, length-take limit xs) in
            let split : now ++ drop m all ≡ xs =
              ap (λ n. now ++ drop (o + n) all) size
              ∙ ap (λ ys. now ++ ys) (drop-drop o limit all)
              ∙ take-append-drop limit xs in
            subst (Follows token w) split (
              more token w (page_of limit o now) after (drop m all) page
                (rw (next_token-full o now full) (printed m fits).0)
                (follow all fuel m (page_of limit o now).next_page_token after server printed there
                  (omega (
                    arith,
                    size,
                    h,
                    page_limit_positive req.page_size,
                    ap length split,
                    length-append now (drop m all),
                  ))
                  (page_offset-itoa m (page_of limit o now).next_page_token
                    (next_token-full o now full) (printed m fits).0 (printed m fits).1)
                  (omega (arith, total, ap length split, length-append now (drop m all)))))
        | inr short ↦
            let whole : now ≡ xs =
              take_all limit xs (ground (arith, short, length-take limit xs)) in
            subst (Follows token w) whole (
              last token w (page_of limit o now) after page
                (rw (next_token-short o now short) (unfold page_of in refl)))
      ]

  -- If the server answers each query with the page of its records from the offset on, and offsets
  -- are printed as texts that are read back, then following the tokens of the pages from the empty
  -- one ends, and gives every record once, in the order of the server.
  pub list_correlations-Follows :
      (all : List (CorrelationResult F)) (w : W)
      → IsServer all
      → IsPrinted all
      → is_empty r.endpoint ≡ false
      → Follows "" w all
  list_correlations-Follows all w server printed there =
      follow all (suc (length all)) 0 "" w server printed there (omega arith)
        (unfold page_offset in refl) (omega arith)
