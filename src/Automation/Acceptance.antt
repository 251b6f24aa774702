-- ===== src/Automation/Acceptance.antt =====
-- Which advice decide accepts (internal/domain/automation/decision.go).
use many_router.Base.{
  Bool, true, false, not, ◌&&◌, List, [], ◌∷◌, map, Text, is_empty, Result, ok, err, reject, ◌==◌,
  ◌≡◌, refl, any_of, arith, contains_text, trim_space, text_eq, text_eq_iff, is_distinct,
  if◌then◌else◌, Result-cases, inl, inr, reject-eq-ok, >>=-eq-ok,
}
use many_router.Scoring.Types.{AdviceAction}
use many_router.Automation.{
  Advice, advise, unsupported, ModelAdvice, DecisionInput, Tally, count_advice, tally_model,
  tally_models, no_tally, decide, is_invalid_advice, collect_advice, add_key, invalid_model_advice,
}
use many_router.Automation.Laws.{count_advice_lem}

abbrev pub is_supported : Advice → Bool
is_supported (advise a) = true
is_supported (unsupported s) = false

-- Advice that is complete in itself.
abbrev pub is_complete : ModelAdvice → Bool
is_complete m =
    not (is_empty (trim_space m.model)) && not (m.snapshot_id == 0) && is_supported m.action

abbrev pub model_names : List ModelAdvice → List Text
model_names models = map (λ m. trim_space m.model) models

-- Not empty, each complete, and no model twice.
abbrev pub is_acceptable : List ModelAdvice → Bool
is_acceptable models =
    not (is_empty models)
    && not (any_of (λ m. not (is_complete m)) models)
    && is_distinct (model_names models)

abbrev pub is_ok : {E A : Type 0} → Result E A → Bool
is_ok (ok a) = true
is_ok (err e) = false

-- None of the names was seen.
abbrev unseen : List Text → List Text → Bool
unseen seen [] = true
unseen seen (n ∷ ns) = if contains_text n seen then false else unseen seen ns

text_eq_sym : (s t : Text) → text_eq s t ≡ text_eq t s
text_eq_sym s t = ground (arith, text_eq_iff s t, text_eq_iff t s)

unseen-cons :
    (n : Text) (seen ns : List Text)
    → unseen (n ∷ seen) ns ≡ (unseen seen ns && not (contains_text n ns))
unfolding contains_text
unseen-cons n seen [] = refl
unseen-cons n seen (m ∷ ns) = ground (arith, unseen-cons n seen ns, text_eq_sym n m)

is_ok-count : (a : Advice) (t : Tally) → is_ok (count_advice a t) ≡ is_supported a
unfolding count_advice
is_ok-count (advise AdviceAction.join) t = refl
is_ok-count (advise AdviceAction.keep) t = refl
is_ok-count (advise AdviceAction.exit) t = refl
is_ok-count (advise AdviceAction.watch) t = refl
is_ok-count (advise AdviceAction.exclude) t = refl
is_ok-count (unsupported s) t = refl

is_ok-tally_model :
    (t : Tally) (m : ModelAdvice)
    → is_ok (tally_model t m)
      ≡ (is_complete m && not (contains_text (trim_space m.model) t.seen_models))
unfolding tally_model is_invalid_advice
is_ok-tally_model t m = ground (arith, is_ok-count m.action (collect_advice t m))

tally_model_seen :
    (t : Tally) (m : ModelAdvice) {u : Tally}
    → tally_model t m ≡ ok u
    → u.seen_models ≡ trim_space m.model ∷ t.seen_models
unfolding tally_model is_invalid_advice collect_advice add_key
tally_model_seen t m h =
    let (_, fresh, counted) = >>=-eq-ok (reject (is_invalid_advice t m) invalid_model_advice) _ h in
    let (_, _, _, _, _, seen) = count_advice_lem m.action (collect_advice t m) counted in
    ground (arith, reject-eq-ok (is_invalid_advice t m) _ fresh)

is_ok-tally_models :
    (t : Tally) (models : List ModelAdvice)
    → is_ok (tally_models t models) ≡ (
        not (any_of (λ m. not (is_complete m)) models)
        && is_distinct (model_names models)
        && unseen t.seen_models (model_names models))
unfolding tally_models
is_ok-tally_models t [] = refl
is_ok-tally_models t (m ∷ models) =
    let here = is_ok-tally_model t m in
    elim (Result-cases (tally_model t m)) [
      | inl (u, e) ↦ ground (
        arith,
        is_ok-tally_models u models,
        tally_model_seen t m e,
        unseen-cons (trim_space m.model) t.seen_models (model_names models),
      )
      | inr (x, e) ↦ ground arith
    ]

unseen-nothing : (ns : List Text) → unseen [] ns ≡ true
unfolding contains_text
unseen-nothing [] = refl
unseen-nothing (n ∷ ns) = unseen-nothing ns

-- decide returns a decision exactly for advice that is not empty, where every model has a name, a
-- snapshot and a supported action, and no two models have one name.
pub decide-accepts : (input : DecisionInput) → is_ok (decide input) ≡ is_acceptable input.models
unfolding decide
decide-accepts input =
    ground
      (arith, is_ok-tally_models no_tally input.models, unseen-nothing (model_names input.models))
