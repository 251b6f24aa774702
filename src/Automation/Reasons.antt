-- ===== src/Automation/Reasons.antt =====
-- Which advice decide accepts, and which reasons it reports
-- (internal/domain/automation/decision.go).
use many_router.Base.{
  Bool, true, false, not, ◌&&◌, ◌||◌, List, [], ◌∷◌, map, Text, codes, is_empty, ok, reject, ◌≡◌,
  refl, ◌⊎◌, inl, inr, any_of, arith, >>=-eq-ok, ok-injective, sort_by, contains_text, trim_space,
  sym, ◌∙◌, ap, text_eq, text_lt, text_eq_iff, text_eq_refl, is_distinct, IsAscending,
  sort-IsAscending, contains_text-sort, if◌then◌else◌,
}
use many_router.Automation.{
  ModelAdvice, DecisionInput, Decision, Tally, tally_model, is_invalid_advice, collect_advice,
  invalid_model_advice, tally_models, no_tally, conclude, decide, sorted_reasons, add_key,
  add_reasons, add_hard_reasons,
}
use many_router.Automation.Laws.{decide_inv, some_advice, asks_exclude, count_advice_lem}

-- The reason is one of the advice: a trimmed reason or a hard reason, and not empty.
abbrev pub is_given : Text → ModelAdvice → Bool
is_given s m =
    not (is_empty s)
    && (contains_text s (map trim_space m.reasons) || contains_text s m.hard_reasons)

contains-add_key :
    (s k : Text) (keys : List Text)
    → contains_text s (add_key k keys) ≡ (text_eq s k || contains_text s keys)
unfolding add_key contains_text
contains-add_key s k keys = split (text_eq s k) refl
  where
    split :
        (b : Bool)
        → text_eq s k ≡ b
        → contains_text s (if contains_text k keys then keys else k ∷ keys)
          ≡ (text_eq s k || contains_text s keys)
    split true e = rw (← (text_eq_iff s k).0 e, text_eq_refl s) ground (arith, text_eq_refl s)
    split false e = ground arith

add_key-distinct :
    (k : Text) (keys : List Text) → is_distinct keys ≡ true → is_distinct (add_key k keys) ≡ true
unfolding add_key
add_key-distinct k keys h = ground arith

empty_eq : (s t : Text) → text_eq s t ≡ true → is_empty s ≡ is_empty t
empty_eq s t h = ap is_empty ((text_eq_iff s t).0 h)

contains-add_hard_reasons :
    (s : Text) (rs keys : List Text)
    → contains_text s (add_hard_reasons rs keys)
      ≡ (not (is_empty s) && contains_text s rs || contains_text s keys)
unfolding add_hard_reasons contains_text
contains-add_hard_reasons s [] keys = ground arith
contains-add_hard_reasons s (r ∷ rs) keys =
    rw (contains-add_hard_reasons s rs (if is_empty r then keys else add_key r keys)) ground
      (arith, contains-add_key s r keys, empty_eq s r)

contains-add_reasons :
    (s : Text) (rs keys : List Text)
    → contains_text s (add_reasons rs keys)
      ≡ (not (is_empty s) && contains_text s (map trim_space rs) || contains_text s keys)
unfolding add_reasons contains_text
contains-add_reasons s [] keys = ground arith
contains-add_reasons s (r ∷ rs) keys =
    rw
      (contains-add_reasons s rs
        (if is_empty (trim_space r) then keys else add_key (trim_space r) keys))
      ground (arith, contains-add_key s (trim_space r) keys, empty_eq s (trim_space r))

distinct-add_hard_reasons :
    (rs keys : List Text) → is_distinct keys ≡ true → is_distinct (add_hard_reasons rs keys) ≡ true
unfolding add_hard_reasons
distinct-add_hard_reasons [] keys h = h
distinct-add_hard_reasons (r ∷ rs) keys h =
    distinct-add_hard_reasons rs _ (ground (arith, add_key-distinct r keys))

distinct-add_reasons :
    (rs keys : List Text) → is_distinct keys ≡ true → is_distinct (add_reasons rs keys) ≡ true
unfolding add_reasons
distinct-add_reasons [] keys h = h
distinct-add_reasons (r ∷ rs) keys h =
    distinct-add_reasons rs _ (ground (arith, add_key-distinct (trim_space r) keys))

tally_model_reasons :
    (t : Tally) (m : ModelAdvice) {u : Tally}
    → tally_model t m ≡ ok u
    → u.reasons ≡ add_hard_reasons m.hard_reasons (add_reasons m.reasons t.reasons)
unfolding tally_model collect_advice
tally_model_reasons t m h =
    let (_, _, counted) = >>=-eq-ok (reject (is_invalid_advice t m) invalid_model_advice) _ h in
    let (_, _, _, _, reasons, _) = count_advice_lem m.action (collect_advice t m) counted in reasons

-- The set of reasons after the loop.
tally_models_reasons :
    (t : Tally) (models : List ModelAdvice) {u : Tally}
    → is_distinct t.reasons ≡ true
    → tally_models t models ≡ ok u
    → (is_distinct u.reasons ≡ true)
      × ((s : Text)
          → contains_text s u.reasons ≡ (any_of (is_given s) models || contains_text s t.reasons))
unfolding tally_models
tally_models_reasons t [] h k = rw (← ok-injective k) (h, λ s. refl)
tally_models_reasons t (m ∷ models) {u = u} h k =
    let (next, first, rest) = >>=-eq-ok (tally_model t m) _ k in
    let e = tally_model_reasons t m first in
    let distinct : is_distinct next.reasons ≡ true =
      rw e
        (distinct-add_hard_reasons m.hard_reasons _ (distinct-add_reasons m.reasons t.reasons h)) in
    let (all, given) = tally_models_reasons next models {u = u} distinct rest in
    (
      all,
      λ s.
          given s
          ∙ rw
              (
                e,
                contains-add_hard_reasons s m.hard_reasons (add_reasons m.reasons t.reasons),
                contains-add_reasons s m.reasons t.reasons,
              )
              ground arith,
    )

conclude_reasons :
    (input : DecisionInput) (t : Tally)
    → (conclude input t).reasons ≡ (
        if t.any_exclude && is_empty (sorted_reasons t.reasons)
        then codes "hard_gate_failed" ∷ []
        else sorted_reasons t.reasons)
unfolding conclude
conclude_reasons input t = ground arith

contains-empty : (s : Text) (ts : List Text) → is_empty ts ≡ true → contains_text s ts ≡ false
unfolding contains_text
contains-empty s [] h = refl
contains-empty s (t ∷ ts) h = cc

-- The two cases of the reasons.
by_case :
    (input : DecisionInput) (t : Tally) {d : Decision}
    → d ≡ conclude input t
    → t.any_exclude ≡ some_advice asks_exclude input.models
    → is_distinct t.reasons ≡ true
    → ((s : Text) → contains_text s (sort_by text_lt t.reasons) ≡ any_of (is_given s) input.models)
    → (b : Bool) → (t.any_exclude && is_empty (sorted_reasons t.reasons)) ≡ b
    → IsAscending d.reasons
      × (((s : Text) → contains_text s d.reasons ≡ any_of (is_given s) input.models)
          ⊎ ((some_advice asks_exclude input.models ≡ true)
              × (d.reasons ≡ codes "hard_gate_failed" ∷ [])
              × ((s : Text) → any_of (is_given s) input.models ≡ false)))
unfolding sorted_reasons
by_case input t e excludes all told true h =
    rw (e, conclude_reasons input t, h)
      (
        (tt, tt),
        inr (
          ground arith,
          refl,
          λ s. sym (told s) ∙ contains-empty s (sort_by text_lt t.reasons) (ground arith),
        ),
      )
by_case input t e excludes all told false h =
    rw (e, conclude_reasons input t, h) (sort-IsAscending t.reasons all, inl told)

-- The reasons of a decision are in strictly ascending order, so no reason stands twice, and they are
-- the nonempty reasons of the advice, trimmed, and its nonempty hard reasons; or, where an exclusion
-- gave no reason at all, they are hard_gate_failed alone.
pub decide-reasons :
    (input : DecisionInput) {d : Decision}
    → decide input ≡ ok d
    → IsAscending d.reasons
      × (((s : Text) → contains_text s d.reasons ≡ any_of (is_given s) input.models)
          ⊎ ((some_advice asks_exclude input.models ≡ true)
              × (d.reasons ≡ codes "hard_gate_failed" ∷ [])
              × ((s : Text) → any_of (is_given s) input.models ≡ false)))
unfolding sorted_reasons contains_text
decide-reasons input {d = d} h =
    let (t, looped, e, _, _, excludes, _) = decide_inv input h in
    let (all, given) = tally_models_reasons no_tally input.models refl looped in
    let told : (s : Text)
        → contains_text s (sort_by text_lt t.reasons) ≡ any_of (is_given s) input.models =
      λ s. contains_text-sort s t.reasons ∙ given s ∙ ground arith in
    by_case input t e excludes all told (t.any_exclude && is_empty (sorted_reasons t.reasons)) refl
