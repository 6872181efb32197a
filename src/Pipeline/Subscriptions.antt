-- ===== src/Pipeline/Subscriptions.antt =====
-- Which pipelines a receiver serves.
use text.Mathlib.Text.{◌==◌ as str_eq}
use mathlib.Core.List.{append-nil, append_assoc}
use text.Mathlib.TextEquality.{eq_iff}
use nrt_aggragator.Prelude.{
  ◌≡◌, refl, sym, ap, ◌∙◌, List, [], ◌∷◌, ◌++◌, String, arith, Bool-cases, inl, inr, if◌then◌else◌,
}
use nrt_aggragator.Prelude.Dict.{Dict, get, put, get-put}
use nrt_aggragator.Pipeline.{PipelineCfg, subscribers_at, subscribe, subscribe_all}

-- the name, once for each time that the key occurs
abbrev repeated : String → String → List String → List String
repeated key pname [] = []
repeated key pname (rkey ∷ rkeys) =
    let rest = repeated key pname rkeys in if str_eq key rkey then pname ∷ rest else rest

-- the pipelines that name the receiver, each as often as it does
abbrev pub subscriptions : String → Dict PipelineCfg → List String
subscriptions key [] = []
subscriptions key ((pname, p) ∷ rest) = repeated key pname p.receivers ++ subscriptions key rest

subscribers_at-put :
    (subs : Dict (List String)) (rkey key : String) (names : List String)
    → subscribers_at (put subs rkey names) key
      ≡ (if str_eq key rkey then names else subscribers_at subs key)
subscribers_at-put subs rkey key names = ground (arith, get-put subs rkey key names)

subscribe-repeated :
    (key pname : String) (rkeys : List String) (subs : Dict (List String))
    → subscribers_at (subscribe pname rkeys subs) key
      ≡ subscribers_at subs key ++ repeated key pname rkeys
unfolding subscribe
subscribe-repeated key pname [] subs = sym (append-nil (subscribers_at subs key))
subscribe-repeated key pname (rkey ∷ rkeys) subs =
    let names = subscribers_at subs rkey ++ (pname ∷ []) in
    elim (Bool-cases (str_eq key rkey)) [
      | inl same ↦
          subscribe-repeated key pname rkeys (put subs rkey names)
          ∙ rw (subscribers_at-put subs rkey key names, same)
              (ap (λ k. subscribers_at subs k ++ (pname ∷ []) ++ repeated key pname rkeys)
                  (sym ((eq_iff key rkey).0 same))
                ∙ append_assoc (subscribers_at subs key) (pname ∷ []) (repeated key pname rkeys))
      | inr apart ↦
          subscribe-repeated key pname rkeys (put subs rkey names)
          ∙ rw (subscribers_at-put subs rkey key names, apart) refl
    ]

subscribe_all-subscriptions :
    (key : String) (pls : Dict PipelineCfg) (subs : Dict (List String))
    → subscribers_at (subscribe_all pls subs) key ≡ subscribers_at subs key ++ subscriptions key pls
unfolding subscribe_all
subscribe_all-subscriptions key [] subs = sym (append-nil (subscribers_at subs key))
subscribe_all-subscriptions key ((pname, p) ∷ rest) subs =
    subscribe_all-subscriptions key rest (subscribe pname p.receivers subs)
    ∙ rw (subscribe-repeated key pname p.receivers subs) (
        append_assoc (subscribers_at subs key) (repeated key pname p.receivers)
          (subscriptions key rest))

-- The subscribers of a receiver are the pipelines that name it, in their order, each as often as it
-- names it.
pub subscribe_all_exact :
    (key : String) (pls : Dict PipelineCfg)
    → subscribers_at (subscribe_all pls []) key ≡ subscriptions key pls
unfolding get
subscribe_all_exact key pls = subscribe_all-subscriptions key pls []
