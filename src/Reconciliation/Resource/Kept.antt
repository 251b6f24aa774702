-- ===== src/Reconciliation/Resource/Kept.antt =====
-- The calls that the steps on single resources add
-- (internal/application/reconciliation/site_resource.go).
use many_router.Base.{
  Bool, true, false, List, [], ◌∷◌, Text, Option, none, some, Time, Uuid, Result, ok, err, ◌≡◌,
  refl,
}
use many_router.Base.Int.{ℤ}
use many_router.Routing.Types.{DesiredChannel, ModelRoute}
use many_router.Reconciliation.Types.{
  Failure, Error, ActualChannel, ActualState, Bundle, ResourceBundle,
}
use many_router.Reconciliation.Actions.{Call, clock, History, Environment}
use many_router.Reconciliation.Attempts.{Attempt, ask, ask_or, require, check, time}
use many_router.Reconciliation.Attempts
use many_router.Reconciliation.Trace.{Adds, none_added, unfinished, then_add, one}
use many_router.Reconciliation.Resource.{
  record_step_success, locate_now, ask_if, shut_down, disable_resource, write_resource,
  bind_resource, prepare_resource, test_resource, confirm, apply_resource, or_missing, first_name,
}

-- The attempt completes no operation.
pub record Holds {ℓ} {A : Type ℓ} (m : Attempt A) : Type 0 where
  pub holds : (h : History) → Adds unfinished h (m h).1

module _ {ℓ κ} {A : Type ℓ} {B : Type κ} where
  after-Holds :
      (k : A → Attempt B) (r : Result Error A × History)
      → ((a : A) → Holds (k a))
      → Adds unfinished r.1 (Attempts.after k r).1
  after-Holds k (ok a, h) next = (next a).holds h
  after-Holds k (err e, h) next = none_added

  >>=-Holds :
      (m : Attempt A) (k : A → Attempt B)
      → Holds m
      → ((a : A) → Holds (k a))
      → Holds (Attempts.◌>>=◌ m k)
  unfolding Attempts.◌>>=◌
  >>=-Holds m k first next = record {
    holds = λ h. then_add (first.holds h) (after-Holds k (m h) next);
  }

module _ {ℓ} {A : Type ℓ} where
  pub pure-Holds : (a : A) → Holds (Attempts.pure a)
  pure-Holds a = record { holds = λ h. none_added }

  ask-Holds :
      (c : Call) (answer : History → Result Error A) → unfinished c ≡ true → Holds (ask c answer)
  unfolding ask
  ask-Holds c answer same = record { holds = λ h. one c h same }

  pub ask_or-Holds :
      (f : Failure) (c : Call) (answer : History → Result Error A)
      → unfinished c ≡ true
      → Holds (ask_or f c answer)
  unfolding ask_or
  ask_or-Holds f c answer same = record { holds = λ h. one c h same }

  pub check-Holds : (r : Result Failure A) → Holds (check r)
  check-Holds (ok a) = record { holds = λ h. none_added }
  check-Holds (err f) = record { holds = λ h. none_added }

time-Holds : (env : Environment) → Holds (time env)
unfolding time
time-Holds env = record { holds = λ h. one clock h refl }

pub require-Holds : (test : Bool) (f : Failure) → Holds (require test f)
require-Holds true f = record { holds = λ h. none_added }
require-Holds false f = record { holds = λ h. none_added }

or_missing-Holds : (f : Failure) (c : Option ActualChannel) → Holds (or_missing f c)
or_missing-Holds f none = record { holds = λ h. none_added }
or_missing-Holds f (some c) = record { holds = λ h. none_added }

first_name-Holds : (models : List ModelRoute) → Holds (first_name models)
first_name-Holds [] = record { holds = λ h. none_added }
first_name-Holds (m ∷ models) = record { holds = λ h. none_added }

module _ (env : Environment) where
  record_step_success-Holds :
      (bundle : Bundle) (key : Text) (t : Time) → Holds (record_step_success env bundle key t)
  unfolding record_step_success
  record_step_success-Holds bundle key t =
      >>=-Holds _ _ (time-Holds env) λ finished_at. ask-Holds _ _ refl

  locate_now-Holds :
      (desired : DesiredChannel) (binding : Option ℤ) → Holds (locate_now env desired binding)
  unfolding locate_now
  locate_now-Holds desired binding = >>=-Holds _ _ (ask-Holds _ _ refl) λ state. check-Holds _

  ask_if-Holds : (needed : Bool) (c : Call) → unfinished c ≡ true → Holds (ask_if env needed c)
  unfolding ask_if
  ask_if-Holds false c same = pure-Holds tt
  ask_if-Holds true c same = ask-Holds _ _ same

  shut_down-Holds :
      (desired : DesiredChannel) (channel : Option ActualChannel)
      → Holds (shut_down env desired channel)
  unfolding shut_down
  shut_down-Holds desired none = pure-Holds tt
  shut_down-Holds desired (some c) =
      >>=-Holds _ _ (ask_if-Holds _ _ refl)
        λ _. >>=-Holds _ _ (locate_now-Holds _ _) λ verified. require-Holds _ _

  write_resource-Holds :
      (r : ResourceBundle) (needed : Bool) (channel : Option ActualChannel)
      → Holds (write_resource env r needed channel)
  unfolding write_resource
  write_resource-Holds r false channel = or_missing-Holds _ channel
  write_resource-Holds r true none = >>=-Holds _ _ (require-Holds _ _) λ _.
      >>=-Holds _ _ (ask_or-Holds _ _ _ refl) λ secret.
        >>=-Holds _ _ (ask-Holds _ _ refl)
          λ _. >>=-Holds _ _ (locate_now-Holds _ _) λ found. or_missing-Holds _ found
  write_resource-Holds r true (some c) = >>=-Holds _ _ (require-Holds _ _) λ _.
      >>=-Holds _ _ (ask_or-Holds _ _ _ refl) λ secret.
        >>=-Holds _ _ (ask-Holds _ _ refl)
          λ _. >>=-Holds _ _ (locate_now-Holds _ _) λ found. or_missing-Holds _ found

  bind_resource-Holds :
      (r : ResourceBundle) (needed : Bool) (c : ActualChannel)
      → Holds (bind_resource env r needed c)
  unfolding bind_resource
  bind_resource-Holds r true c = pure-Holds r
  bind_resource-Holds r false c =
      >>=-Holds _ _ (time-Holds env) λ t. >>=-Holds _ _ (ask-Holds _ _ refl) λ _. pure-Holds _

  prepare_resource-Holds :
      (r : ResourceBundle) (needed : Bool) (c : ActualChannel)
      → Holds (prepare_resource env r needed c)
  unfolding prepare_resource
  prepare_resource-Holds r false c = pure-Holds tt
  prepare_resource-Holds r true c = >>=-Holds _ _ (ask-Holds _ _ refl) λ secret. ask-Holds _ _ refl

  test_resource-Holds :
      (r : ResourceBundle) (needed : Bool) (c : ActualChannel)
      → Holds (test_resource env r needed c)
  unfolding test_resource
  test_resource-Holds r false c = pure-Holds tt
  test_resource-Holds r true c = >>=-Holds _ _ (ask_or-Holds _ _ _ refl) λ secret.
      >>=-Holds _ _ (first_name-Holds _)
        λ model. >>=-Holds _ _ (ask-Holds _ _ refl) λ _. prepare_resource-Holds r _ c

  module _ (uuid_string : Uuid → Text) where
    pub disable_resource-Holds :
        (bundle : Bundle) (r : ResourceBundle) (actual : ActualState)
        → Holds (disable_resource uuid_string env bundle r actual)
    unfolding disable_resource
    disable_resource-Holds bundle r actual = >>=-Holds _ _ (check-Holds _) λ channel.
        >>=-Holds _ _ (shut_down-Holds _ channel) λ _.
          >>=-Holds _ _ (time-Holds env) λ confirmed_at. >>=-Holds _ _ (ask-Holds _ _ refl) λ _.
            >>=-Holds _ _ (time-Holds env)
              λ recorded_at. >>=-Holds _ _ (record_step_success-Holds bundle _ _) λ _. pure-Holds _

    confirm-Holds :
        (bundle : Bundle) (r : ResourceBundle) (written : Bool)
        → Holds (confirm uuid_string env bundle r written)
    unfolding confirm
    confirm-Holds bundle r written = >>=-Holds _ _ (locate_now-Holds _ _) λ verified.
        >>=-Holds _ _ (require-Holds _ _) λ _. >>=-Holds _ _ (time-Holds env) λ confirmed_at.
          >>=-Holds _ _ (ask-Holds _ _ refl) λ _.
            >>=-Holds _ _ (time-Holds env)
              λ recorded_at. >>=-Holds _ _ (record_step_success-Holds bundle _ _) λ _. pure-Holds _

    pub apply_resource-Holds :
        (bundle : Bundle) (r : ResourceBundle) → Holds (apply_resource uuid_string env bundle r)
    unfolding apply_resource
    apply_resource-Holds bundle r = >>=-Holds _ _ (ask-Holds _ _ refl) λ actual.
        >>=-Holds _ _ (require-Holds _ _) λ _. >>=-Holds _ _ (check-Holds _) λ channel.
          >>=-Holds _ _ (require-Holds _ _) λ _.
            >>=-Holds _ _ (write_resource-Holds r _ channel) λ c.
              >>=-Holds _ _ (bind_resource-Holds r _ c) λ bound.
                >>=-Holds _ _ (test_resource-Holds bound _ c)
                  λ _. >>=-Holds _ _ (ask_if-Holds _ _ refl) λ _. confirm-Holds bundle bound _
