-- ===== src/Automation/Laws.antt =====
-- What decide concludes from the advice (internal/domain/automation/decision.go).
use many_router.Base.{
  Bool, true, false, not, ◌&&◌, ◌||◌, List, [], ◌∷◌, ◌++◌, map, is_empty, ok, reject, ◌≡◌, refl,
  ◌⊎◌, ◌↔◌, any_of, arith, >>=-eq-ok, ok-injective, sym, ◌∙◌, ap,
}
use mathlib.Core.List.{append_assoc, append-nil}
use many_router.Scoring.Types.{AdviceAction}
use many_router.Automation.{
  Advice, advise, unsupported, ModelAdvice, DecisionInput, Decision, Tally, hold_apply, hold_clear,
  count_advice, tally_model, is_invalid_advice, collect_advice, invalid_model_advice,
  no_model_advice, tally_models, no_tally, conclude, decide, Action.join, Action.keep, Action.exit,
  Action.exclude, Action.recover,
}

abbrev pub asks_join : Advice → Bool
asks_join (advise AdviceAction.join) = true
asks_join _ = false

abbrev pub asks_exit : Advice → Bool
asks_exit (advise AdviceAction.exit) = true
asks_exit _ = false

abbrev pub asks_exclude : Advice → Bool
asks_exclude (advise AdviceAction.exclude) = true
asks_exclude _ = false

-- Some model's advice is of that kind.
abbrev pub some_advice : (Advice → Bool) → List ModelAdvice → Bool
some_advice kind models = any_of (λ m. kind m.action) models

abbrev pub every_join : List ModelAdvice → Bool
every_join models = not (some_advice (λ a. not (asks_join a)) models)

-- What the switch does to the flags, and leaves alone.
pub count_advice_lem :
    (a : Advice) (t : Tally) {u : Tally}
    → count_advice a t ≡ ok u
    → (u.all_join ≡ (t.all_join && asks_join a))
      × (u.any_exit ≡ (t.any_exit || asks_exit a))
      × (u.any_exclude ≡ (t.any_exclude || asks_exclude a))
      × (u.snapshot_ids ≡ t.snapshot_ids)
      × (u.reasons ≡ t.reasons)
      × (u.seen_models ≡ t.seen_models)
unfolding count_advice
count_advice_lem (advise AdviceAction.join) t h = ground arith
count_advice_lem (advise AdviceAction.keep) t h = ground arith
count_advice_lem (advise AdviceAction.exit) t h = ground arith
count_advice_lem (advise AdviceAction.watch) t h = ground arith
count_advice_lem (advise AdviceAction.exclude) t h = ground arith
count_advice_lem (unsupported s) t h = cc

tally_model_lem :
    (t : Tally) (m : ModelAdvice) {u : Tally}
    → tally_model t m ≡ ok u
    → (u.all_join ≡ (t.all_join && asks_join m.action))
      × (u.any_exit ≡ (t.any_exit || asks_exit m.action))
      × (u.any_exclude ≡ (t.any_exclude || asks_exclude m.action))
      × (u.snapshot_ids ≡ t.snapshot_ids ++ (m.snapshot_id ∷ []))
unfolding tally_model collect_advice
tally_model_lem t m h =
    let (_, _, counted) = >>=-eq-ok (reject (is_invalid_advice t m) invalid_model_advice) _ h in
    let (j, e, x, ids, _, _) = count_advice_lem m.action (collect_advice t m) counted in
    (j, e, x, ids)

-- The flags and the identifiers after the loop.
tally_models_lem :
    (t : Tally) (models : List ModelAdvice) {u : Tally}
    → tally_models t models ≡ ok u
    → (u.all_join ≡ (t.all_join && every_join models))
      × (u.any_exit ≡ (t.any_exit || some_advice asks_exit models))
      × (u.any_exclude ≡ (t.any_exclude || some_advice asks_exclude models))
      × (u.snapshot_ids ≡ t.snapshot_ids ++ map (λ m. m.snapshot_id) models)
unfolding tally_models
tally_models_lem t [] h = rw (← ok-injective h, append-nil t.snapshot_ids) ground arith
tally_models_lem t (m ∷ models) {u = u} h =
    let (next, first, rest) = >>=-eq-ok (tally_model t m) _ h in
    let (j, e, x, ids) = tally_model_lem t m first in
    let (j', e', x', ids') = tally_models_lem next models {u = u} rest in
    (
      ground arith,
      ground arith,
      ground arith,
      ids'
          ∙ ap (λ l. l ++ map (λ m. m.snapshot_id) models) ids
          ∙ append_assoc t.snapshot_ids (m.snapshot_id ∷ []) (map (λ m. m.snapshot_id) models),
    )

-- The flags that a returned decision was concluded from.
pub decide_inv :
    (input : DecisionInput) {d : Decision}
    → decide input ≡ ok d
    → (t : Tally) × (tally_models no_tally input.models ≡ ok t)
      × (d ≡ conclude input t)
      × (t.all_join ≡ every_join input.models)
      × (t.any_exit ≡ some_advice asks_exit input.models)
      × (t.any_exclude ≡ some_advice asks_exclude input.models)
      × (t.snapshot_ids ≡ map (λ m. m.snapshot_id) input.models)
unfolding decide
decide_inv input h =
    let (_, _, rest) = >>=-eq-ok (reject (is_empty input.models) no_model_advice) _ h in
    let (t, looped, last) = >>=-eq-ok (tally_models no_tally input.models) _ rest in
    let (j, e, x, ids) = tally_models_lem no_tally input.models looped in
    (t, looped, sym (ok-injective last), j, e, x, ids)

join_only : (a : Advice) → asks_join a ≡ true → (asks_exit a ≡ false) × (asks_exclude a ≡ false)
join_only (advise AdviceAction.join) h = (refl, refl)
join_only (advise AdviceAction.keep) h = cc
join_only (advise AdviceAction.exit) h = cc
join_only (advise AdviceAction.watch) h = cc
join_only (advise AdviceAction.exclude) h = cc
join_only (unsupported s) h = cc

-- Where every model is advised to join, no model is advised to leave.
every_join-exit :
    (models : List ModelAdvice)
    → every_join models ≡ true
    → (some_advice asks_exit models ≡ false) × (some_advice asks_exclude models ≡ false)
every_join-exit [] h = (refl, refl)
every_join-exit (m ∷ models) h = ground (arith, join_only m.action, every_join-exit models)

-- A decision makes the relation a member exactly where no model is excluded and either every model
-- is advised to join, or the relation is a member that is not held and no model is advised to exit.
pub decide-membership :
    (input : DecisionInput) {d : Decision}
    → decide input ≡ ok d
    → (d.target_member ≡ true) ↔ (
        (some_advice asks_exclude input.models ≡ false)
        × ((every_join input.models ≡ true)
            ⊎ ((input.current_member ≡ true)
                × (input.held ≡ false)
                × (some_advice asks_exit input.models ≡ false))))
unfolding conclude
decide-membership input h =
    let (t, _, e, j, x, o, _) = decide_inv input h in
    rw e ground (arith, every_join-exit input.models)

-- What the action of a decision tells.
pub record IsConsistent (input : DecisionInput) (d : Decision) : Type 0 where
  pub of_join :
      (d.action ≡ join)
      ↔ ((input.current_member ≡ false) × (input.held ≡ false) × (d.target_member ≡ true))
  pub of_keep :
      (d.action ≡ keep)
      ↔ ((input.current_member ≡ true) × (input.held ≡ false) × (d.target_member ≡ true))
  pub of_recover : (d.action ≡ recover) ↔ ((input.held ≡ true) × (d.target_member ≡ true))
  pub of_exclude : (d.action ≡ exclude) ↔ (some_advice asks_exclude input.models ≡ true)
  pub of_exit : (d.action ≡ exit) ↔ (
      (input.current_member ≡ true)
      × (input.held ≡ false)
      × (d.target_member ≡ false)
      × (some_advice asks_exclude input.models ≡ false))
  pub of_apply : (d.hold_action ≡ hold_apply) ↔ ((d.action ≡ exclude) × (input.held ≡ false))
  pub of_clear : (d.hold_action ≡ hold_clear) ↔ (d.action ≡ recover)

-- The action of a decision tells the change. It is join exactly where a relation that is neither a
-- member nor held becomes one, keep where a member that is not held stays one, recover where a held
-- relation becomes one, exclude where some model is to be excluded, and exit where, with no model to
-- be excluded, a member that is not held stops being one. The hold is applied exactly where exclude
-- meets no hold, and cleared exactly by recover.
pub decide-IsConsistent :
    (input : DecisionInput) {d : Decision} → decide input ≡ ok d → IsConsistent input d
unfolding conclude
decide-IsConsistent input h =
    let (t, _, e, j, x, o, _) = decide_inv input h in
    rw e (record {
      of_join = ground arith;
      of_keep = ground arith;
      of_exit = ground arith;
      of_exclude = ground arith;
      of_apply = ground arith;
      of_clear = ground arith;
      of_recover = ground arith;
    })
