-- ===== src/Automation/Examples.antt =====
-- Runs of decide, and its theorems at a concrete input.
use many_router.Base.{
  true, false, [], ◌∷◌, Text, codes, ok, ◌≡◌, refl, ◌↔◌, ◌⊎◌, any_of, contains_text, IsAscending,
  sort_by, insert_by, text_lt, text_eq, trim_space, drop_spaces, is_space,
}
use many_router.Scoring.Types.{AdviceAction}
use many_router.Automation.{
  ModelAdvice, advise, DecisionInput, Decision, decide, tally_models, tally_model,
  is_invalid_advice, collect_advice, count_advice, conclude, sorted_reasons, add_key, add_reasons,
  add_hard_reasons, Action.exclude, Action.join, hold_apply, hold_none,
}
use many_router.Automation.Laws.{
  decide-membership, decide-IsConsistent, IsConsistent, some_advice, asks_exclude,
}
use many_router.Automation.Reasons.{decide-reasons, is_given}
use many_router.Automation.Acceptance.{decide-accepts, is_ok, is_acceptable}

abbrev cheap_model : ModelAdvice
cheap_model = record {
  model = codes " gpt ";
  snapshot_id = 9;
  action = advise AdviceAction.join;
  reasons = codes "steady" ∷ codes " cheap" ∷ [];
  hard_reasons = [];
}

abbrev failed_model : ModelAdvice
failed_model = record {
  model = codes "o1";
  snapshot_id = 4;
  action = advise AdviceAction.exclude;
  reasons = codes "cheap" ∷ [];
  hard_reasons = codes "major_risk" ∷ [];
}

-- A member that is not held, with one good model and one that failed a hard gate.
abbrev failed_member : DecisionInput
failed_member = record {
  current_member = true;
  held = false;
  models = cheap_model ∷ failed_model ∷ [];
}

abbrev exclusion : Decision
exclusion = record {
  action = exclude;
  target_member = false;
  hold_action = hold_apply;
  reasons = codes "cheap" ∷ codes "major_risk" ∷ codes "steady" ∷ [];
  snapshot_ids = 4 ∷ 9 ∷ [];
}

decide-failed : decide failed_member ≡ ok exclusion
unfolding decide tally_models tally_model is_invalid_advice collect_advice count_advice conclude
    sorted_reasons add_key add_reasons add_hard_reasons sort_by insert_by text_lt text_eq trim_space
    drop_spaces is_space contains_text
decide-failed = refl

abbrev candidate : DecisionInput
candidate = record { current_member = false; held = false; models = cheap_model ∷ [] }

abbrev joining : Decision
joining = record {
  action = join;
  target_member = true;
  hold_action = hold_none;
  reasons = codes "cheap" ∷ codes "steady" ∷ [];
  snapshot_ids = 9 ∷ [];
}

decide-candidate : decide candidate ≡ ok joining
unfolding decide tally_models tally_model is_invalid_advice collect_advice count_advice conclude
    sorted_reasons add_key add_reasons add_hard_reasons sort_by insert_by text_lt text_eq trim_space
    drop_spaces is_space contains_text
decide-candidate = refl

decide-membership_example :
    (joining.target_member ≡ true)
    ↔ ((false ≡ false) × ((true ≡ true) ⊎ ((false ≡ true) × (false ≡ false) × (false ≡ false))))
decide-membership_example = decide-membership candidate decide-candidate

decide-accepts_example : is_ok (decide failed_member) ≡ is_acceptable failed_member.models
decide-accepts_example = decide-accepts failed_member

decide-reasons_example :
    IsAscending exclusion.reasons
    × (((s : Text) → contains_text s exclusion.reasons ≡ any_of (is_given s) failed_member.models)
        ⊎ ((some_advice asks_exclude failed_member.models ≡ true)
            × (exclusion.reasons ≡ codes "hard_gate_failed" ∷ [])
            × ((s : Text) → any_of (is_given s) failed_member.models ≡ false)))
decide-reasons_example = decide-reasons failed_member decide-failed

decide-IsConsistent_example : IsConsistent failed_member exclusion
decide-IsConsistent_example = decide-IsConsistent failed_member decide-failed
