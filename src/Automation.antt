-- ===== src/Automation.antt =====
-- internal/domain/automation/decision.go: what to do with one supplier relation in one auto group,
-- from the advice on each model. A set that Go keeps in a map is a list of its keys, oldest last.
pub mod Laws
pub mod Reasons
pub mod Acceptance
mod Examples
use many_router.Base.{
  Uuid, Bool, true, false, not, ◌&&◌, ◌||◌, List, [], ◌∷◌, ◌++◌, Text, codes, text_lt, text_eq,
  trim_space, contains_text, sort_by, ltb, is_empty, Result, ok, err, ◌>>=◌, ◌>>◌, reject, ◌==◌,
  if◌then◌else◌,
}
use many_router.Scoring.Types.{AdviceAction}

pub data Action : Type 0 where
  join keep exit exclude watch recover : Action

pub data HoldAction : Type 0 where
  hold_none hold_apply hold_clear : HoldAction

-- The advice of the scoring domain, or a string that is none of its constants.
pub data Advice : Type 0 where
  advise : AdviceAction → Advice
  unsupported : Text → Advice

pub record ModelAdvice : Type 0 where
  pub model : Text
  pub snapshot_id : Uuid
  pub action : Advice
  pub reasons : List Text
  pub hard_reasons : List Text

pub record DecisionInput : Type 0 where
  pub current_member : Bool
  pub held : Bool
  pub models : List ModelAdvice

pub record Decision : Type 0 where
  pub action : Action
  pub target_member : Bool
  pub hold_action : HoldAction
  pub reasons : List Text
  pub snapshot_ids : List Uuid

pub data DecisionError : Type 0 where
  no_model_advice invalid_model_advice unsupported_advice : DecisionError

-- The local variables of the loop.
pub record Tally : Type 0 where
  pub seen_models : List Text
  pub reasons : List Text
  pub snapshot_ids : List Uuid
  pub all_join : Bool
  pub any_exit : Bool
  pub any_exclude : Bool

-- `set[value] = true`
unfoldable pub add_key : Text → List Text → List Text
add_key value keys = if contains_text value keys then keys else value ∷ keys

unfoldable pub add_reasons : List Text → List Text → List Text
add_reasons [] keys = keys
add_reasons (reason ∷ reasons) keys =
    let normalized = trim_space reason in
    add_reasons reasons (if is_empty normalized then keys else add_key normalized keys)

unfoldable pub add_hard_reasons : List Text → List Text → List Text
add_hard_reasons [] keys = keys
add_hard_reasons (reason ∷ reasons) keys =
    add_hard_reasons reasons (if is_empty reason then keys else add_key reason keys)

-- The switch of the loop: what the advice does to the three flags.
unfoldable pub count_advice : Advice → Tally → Result DecisionError Tally
count_advice (advise AdviceAction.join) t = ok t
count_advice (advise AdviceAction.exit) t = ok (record t { all_join = false; any_exit = true })
count_advice (advise AdviceAction.exclude) t =
    ok (record t { all_join = false; any_exclude = true })
count_advice (advise _) t = ok (record t { all_join = false })
count_advice (unsupported _) t = err unsupported_advice

-- The test on one model's advice.
unfoldable pub is_invalid_advice : Tally → ModelAdvice → Bool
is_invalid_advice t advice =
    let model = trim_space advice.model in
    is_empty model || advice.snapshot_id == 0 || contains_text model t.seen_models

-- What the loop collects of it.
unfoldable pub collect_advice : Tally → ModelAdvice → Tally
collect_advice t advice = record t {
  seen_models = add_key (trim_space advice.model) t.seen_models;
  snapshot_ids = t.snapshot_ids ++ (advice.snapshot_id ∷ []);
  reasons = add_hard_reasons advice.hard_reasons (add_reasons advice.reasons t.reasons);
}

-- One turn of the loop.
unfoldable pub tally_model : Tally → ModelAdvice → Result DecisionError Tally
tally_model t advice = do
  reject (is_invalid_advice t advice) invalid_model_advice
  count_advice advice.action (collect_advice t advice)

unfoldable pub tally_models : Tally → List ModelAdvice → Result DecisionError Tally
tally_models t [] = ok t
tally_models t (advice ∷ models) = do next ← tally_model t advice; tally_models next models

abbrev pub no_tally : Tally
no_tally = record {
  seen_models = [];
  reasons = [];
  snapshot_ids = [];
  all_join = true;
  any_exit = false;
  any_exclude = false;
}

unfoldable pub sorted_reasons : List Text → List Text
sorted_reasons values = sort_by text_lt values

-- The result before the last tests.
abbrev pub undecided : DecisionInput → Tally → Decision
undecided input t = record {
  action = watch;
  target_member = input.current_member;
  hold_action = hold_none;
  reasons = sorted_reasons t.reasons;
  snapshot_ids = sort_by ltb t.snapshot_ids;
}

abbrev pub excluded : DecisionInput → Tally → Decision
excluded input t =
    let result = undecided input t in
    record result {
      reasons = if is_empty result.reasons then codes "hard_gate_failed" ∷ [] else result.reasons;
      action = exclude;
      target_member = false;
      hold_action = if not input.held then hold_apply else hold_none;
    }

-- The tests after the loop.
unfoldable pub conclude : DecisionInput → Tally → Decision
conclude input t =
    let result = undecided input t in
    if t.any_exclude
    then excluded input t
    else if input.held
    then if t.all_join
      then record result { target_member = true; action = recover; hold_action = hold_clear }
      else record result { target_member = false }
    else if input.current_member
    then if t.any_exit
      then record result { action = exit; target_member = false }
      else record result { action = keep; target_member = true }
    else if t.all_join
    then record result { action = join; target_member = true }
    else record result { target_member = false }

unfoldable pub decide : DecisionInput → Result DecisionError Decision
decide input = do
  reject (is_empty input.models) no_model_advice
  t ← tally_models no_tally input.models
  ok (conclude input t)
