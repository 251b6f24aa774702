-- ===== src/Reconciliation/Single/Settled.antt =====
-- Run (internal/application/reconciliation/service.go) settles the operation of a single resource: it
-- is completed or failed exactly once, if the store does what it is asked.
use many_router.Base.{
  ℕ, suc, Bool, true, false, List, [], ◌∷◌, is_empty, Text, Option, none, some, Time, Result, ok,
  err, Bool-cases, if◌then◌else◌, ◌≡◌, refl, sym, ap, ◌∙◌, inl, inr,
}
use many_router.Base.Int.{ℤ}
use many_router.Packages.{DecimalPackage}
use many_router.Credential
use many_router.Routing.Types.{ModelRoute}
use many_router.Reconciliation.Types.{
  Failure, Error, Error.failed, ActualChannel, ActualState, Bundle,
}
use many_router.Reconciliation.Actions.{
  Call, clock, decrypt, start_operation, bind_channel, record_step, complete_operation, History,
  Environment, Return, Action, pure, call, or_return, after, ◌>>=◌, perform,
}
use many_router.Reconciliation.Steps.{
  finish_failure, or_fail, or_fail_with, record_success, record_or_return,
}
use many_router.Reconciliation.Trace.{settled}
use many_router.Reconciliation.Single.{
  make_gateway, read_state, is_locked, Survey, survey, write_if, write_channel, look_again,
  or_unconfirmed, bind_if, first_model, activate, write_groups, apply, finish, run_single, plan_of,
  attempted,
}

-- The store carries out what it is asked to record.
pub record IsReliable (env : Environment) : Type 0 where
  pub starts :
      (step : Text) (t : Time) (h : History) → env.perform (start_operation step t ∷ h) ≡ ok tt
  pub records : (s : _) (h : History) → env.perform (record_step s ∷ h) ≡ ok tt
  pub binds :
      (id : _) (channel : ℤ) (t : Time) (h : History)
      → env.perform (bind_channel id channel t ∷ h) ≡ ok tt
  pub completes :
      (channel : ℤ) (t : Time) (h : History)
      → env.perform (complete_operation channel t ∷ h) ≡ ok tt

-- The number of settlements after a result: one more where the function has returned.
abbrev pub SettlesTo {ℓ} : {A : Type ℓ} → ℕ → Result Return A × History → Type 0
SettlesTo n (ok a, h) = settled h ≡ n
SettlesTo n (err errors, h) = settled h ≡ suc n

-- An action that settles the operation if it returns, and leaves it unsettled if it goes on.
pub record Settles {ℓ} {A : Type ℓ} (m : Action A) : Type 0 where
  pub settles : (h : History) → SettlesTo (settled h) (m h)

module _ {ℓ κ} {A : Type ℓ} {B : Type κ} where
  after-Settles :
      (k : A → Action B) (n : ℕ) (r : Result Return A × History)
      → SettlesTo n r
      → ((a : A) → Settles (k a))
      → SettlesTo n (after k r)
  after-Settles k n (ok a, h) first next = rw (sym first) ((next a).settles h)
  after-Settles k n (err errors, h) first next = first

  >>=-Settles :
      (m : Action A) (k : A → Action B) → Settles m → ((a : A) → Settles (k a)) → Settles (m >>= k)
  unfolding ◌>>=◌
  >>=-Settles m k first next = record {
    settles = λ h. after-Settles k (settled h) (m h) (first.settles h) next;
  }

module _ {ℓ} {A : Type ℓ} where
  pure-Settles : (a : A) → Settles (pure a)
  pure-Settles a = record { settles = λ h. refl }

  call-Settles :
      (c : Call) (answer : History → A)
      → ((h : History) → settled (c ∷ h) ≡ settled h)
      → Settles (call c answer)
  unfolding call
  call-Settles c answer same = record { settles = same }

  finish_failure-Settles :
      (env : Environment) (bundle : Bundle) (step : Text) (e : Error)
      → Settles (finish_failure {A = A} env bundle step e)
  unfolding finish_failure ◌>>=◌ call
  finish_failure-Settles env bundle step e = record { settles = λ h. refl }

  or_fail-Settles :
      (env : Environment) (bundle : Bundle) (step : Text) (r : Result Error A)
      → Settles (or_fail env bundle step r)
  unfolding or_fail
  or_fail-Settles env bundle step (ok a) = pure-Settles a
  or_fail-Settles env bundle step (err e) = finish_failure-Settles env bundle step e

  or_fail_with-Settles :
      (env : Environment) (bundle : Bundle) (step : Text) (f : Failure) (r : Result Error A)
      → Settles (or_fail_with env bundle step f r)
  unfolding or_fail_with
  or_fail_with-Settles env bundle step f (ok a) = pure-Settles a
  or_fail_with-Settles env bundle step f (err e) = finish_failure-Settles env bundle step (failed f)

-- A call of the store that succeeds.
stored-Settles :
    (env : Environment) (c : Call)
    → ((h : History) → settled (c ∷ h) ≡ settled h)
    → ((h : History) → env.perform (c ∷ h) ≡ ok tt)
    → Settles (perform env c >>= or_return)
unfolding call ◌>>=◌
stored-Settles env c same succeeds = record { settles = λ h. rw (succeeds h) (same h) }

module _ (env : Environment) (reliable : IsReliable env) where
  record_or_return-Settles :
      (bundle : Bundle) (key : Text) (t : Time) → Settles (record_or_return env bundle key t)
  unfolding record_or_return record_success ◌>>=◌ call
  record_or_return-Settles bundle key t = record {
    settles = λ h. rw (reliable.records _ (clock ∷ h)) refl;
  }

  read_state-Settles : (bundle : Bundle) (step : Text) → Settles (read_state env bundle step)
  unfolding read_state
  read_state-Settles bundle step =
      >>=-Settles _ _ (call-Settles _ _ (λ h. refl)) (or_fail-Settles env bundle step)

  make_gateway-Settles :
      (bundle : Bundle) (secret : List ℕ) → Settles (make_gateway env bundle secret)
  unfolding make_gateway
  make_gateway-Settles bundle secret = elim (Bool-cases env.has_site_gateways) [
    | inl e ↦ rw e (call-Settles _ _ (λ h. refl))
    | inr e ↦ rw e (call-Settles _ _ (λ h. refl))
  ]

  locked_or_known :
      (bundle : Bundle) (locked : Bool) (step : Text) (e : Error) (known : Survey)
      → Settles (if locked then finish_failure env bundle step e else pure known)
  locked_or_known bundle true step e known = finish_failure-Settles env bundle step e
  locked_or_known bundle false step e known = pure-Settles known

  decrypted-Settles :
      (bundle : Bundle) (r : Credential.Record) (step : Text) (e : Failure)
      → Settles (call (decrypt r) env.decrypt >>= or_fail_with env bundle step e)
  decrypted-Settles bundle r step e =
      >>=-Settles _ _ (call-Settles _ _ (λ h. refl)) (or_fail_with-Settles env bundle step e)

  survey-Settles : (bundle : Bundle) (t : Time) → Settles (survey env bundle t)
  unfolding survey
  survey-Settles bundle t = >>=-Settles _ _ (decrypted-Settles bundle _ _ _) λ admin.
      >>=-Settles _ _ (decrypted-Settles bundle _ _ _) λ secret.
        >>=-Settles _ _
          (>>=-Settles _ _ (make_gateway-Settles bundle admin)
            (or_fail_with-Settles env bundle _ _))
          λ _.
            >>=-Settles _ _
              (>>=-Settles _ _ (call-Settles _ _ (λ h. refl)) (or_fail-Settles env bundle _))
              λ _. >>=-Settles _ _ (record_or_return-Settles bundle _ _) λ _.
                >>=-Settles _ _ (read_state-Settles bundle _) λ actual.
                  >>=-Settles _ _ (call-Settles _ _ (λ h. refl)) λ read_at.
                    >>=-Settles _ _ (record_or_return-Settles bundle _ _) λ _.
                      >>=-Settles _ _ (or_fail-Settles env bundle _ _)
                        λ located. locked_or_known bundle (is_locked bundle located) _ _ _

  write_if-Settles :
      (bundle : Bundle) (step : Text) (changed : Bool) (c : Call)
      → ((h : History) → settled (c ∷ h) ≡ settled h)
      → Settles (write_if env bundle step changed c)
  unfolding write_if
  write_if-Settles bundle step false c same = pure-Settles tt
  write_if-Settles bundle step true c same = >>=-Settles _ _ (call-Settles _ _ (λ h. refl)) λ t.
      >>=-Settles _ _ (>>=-Settles _ _ (call-Settles _ _ same) (or_fail-Settles env bundle _))
        λ _. record_or_return-Settles bundle _ _

  write_channel-Settles :
      (bundle : Bundle) (secret : List ℕ) (located : Option ActualChannel)
      → Settles (write_channel env bundle secret located)
  unfolding write_channel
  write_channel-Settles bundle secret none = write_if-Settles bundle _ _ _ (λ h. refl)
  write_channel-Settles bundle secret (some c) = write_if-Settles bundle _ _ _ (λ h. refl)

  look_again-Settles :
      (bundle : Bundle) (needed : Bool) (located : Option ActualChannel)
      → Settles (look_again env bundle needed located)
  unfolding look_again
  look_again-Settles bundle false located = pure-Settles located
  look_again-Settles bundle true located =
      >>=-Settles _ _ (read_state-Settles bundle _) λ actual. or_fail-Settles env bundle _ _

  or_unconfirmed-Settles :
      (bundle : Bundle) (found : Option ActualChannel) → Settles (or_unconfirmed env bundle found)
  unfolding or_unconfirmed
  or_unconfirmed-Settles bundle none = finish_failure-Settles env bundle _ _
  or_unconfirmed-Settles bundle (some c) = pure-Settles c

  bind_if-Settles :
      (bundle : Bundle) (needed : Bool) (c : ActualChannel) → Settles (bind_if env bundle needed c)
  unfolding bind_if
  bind_if-Settles bundle false c = pure-Settles tt
  bind_if-Settles bundle true c =
      >>=-Settles _ _ (call-Settles _ _ (λ h. refl))
        λ t. stored-Settles env _ (λ h. refl) (reliable.binds _ _ t)

  first_model-Settles :
      (models : List ModelRoute) → is_empty models ≡ false → Settles (first_model models)
  unfolding first_model
  first_model-Settles [] h = cc
  first_model-Settles (m ∷ models) h = pure-Settles m.model

  activate-Settles :
      (bundle : Bundle) (secret : List ℕ) (updated : Bool) (c : ActualChannel)
      → is_empty (plan_of bundle).channel.models ≡ false
      → Settles (activate env bundle secret updated c)
  unfolding activate
  activate-Settles bundle secret updated c some_model =
      >>=-Settles _ _ (first_model-Settles _ some_model) λ model.
        >>=-Settles _ _ (write_if-Settles bundle _ _ _ (λ h. refl)) λ _.
          >>=-Settles _ _ (write_if-Settles bundle _ _ _ (λ h. refl))
            λ _. write_if-Settles bundle _ _ _ (λ h. refl)

-- An action that settles the operation whether it returns or goes on.
pub record SettlesOnce {ℓ} {A : Type ℓ} (m : Action A) : Type 0 where
  pub once : (h : History) → settled (m h).1 ≡ suc (settled h)

module _ {ℓ κ} {A : Type ℓ} {B : Type κ} where
  after-once :
      (k : A → Action B) (n : ℕ) (r : Result Return A × History)
      → SettlesTo n r
      → ((a : A) → SettlesOnce (k a))
      → settled (after k r).1 ≡ suc n
  after-once k n (ok a, h) first next = (next a).once h ∙ ap suc first
  after-once k n (err errors, h) first next = first

  >>=-once :
      (m : Action A) (k : A → Action B)
      → Settles m
      → ((a : A) → SettlesOnce (k a))
      → SettlesOnce (m >>= k)
  unfolding ◌>>=◌
  >>=-once m k first next = record {
    once = λ h. after-once k (settled h) (m h) (first.settles h) next;
  }

module _ {D : Type 0} (decimal : DecimalPackage D) (env : Environment)
    (reliable : IsReliable env) where
  write_groups-Settles :
      (bundle : Bundle) (actual : ActualState) → Settles (write_groups decimal env bundle actual)
  unfolding write_groups
  write_groups-Settles bundle actual = >>=-Settles _ _ (or_fail-Settles env bundle _ _) λ merged.
      >>=-Settles _ _ (write_if-Settles env reliable bundle _ _ _ (λ h. refl))
        λ _. write_if-Settles env reliable bundle _ _ _ (λ h. refl)

  apply-Settles :
      (bundle : Bundle) (known : Survey)
      → is_empty (plan_of bundle).channel.models ≡ false
      → Settles (apply decimal env bundle known)
  unfolding apply
  apply-Settles bundle known some_model = >>=-Settles _ _ (write_groups-Settles bundle _) λ _.
      >>=-Settles _ _ (write_channel-Settles env reliable bundle _ _) λ _.
        >>=-Settles _ _ (look_again-Settles env reliable bundle _ _) λ found.
          >>=-Settles _ _ (or_unconfirmed-Settles env reliable bundle found) λ c.
            >>=-Settles _ _ (bind_if-Settles env reliable bundle _ c) λ _.
              >>=-Settles _ _ (activate-Settles env reliable bundle _ _ c some_model)
                λ _. pure-Settles c

  completes-once :
      (channel : ℤ) (t : Time)
      → SettlesOnce (perform env (complete_operation channel t) >>= or_return)
  unfolding call ◌>>=◌
  completes-once channel t = record { once = λ h. rw (reliable.completes channel t h) refl }

  finish-once :
      (bundle : Bundle) (before : ActualState) (c : ActualChannel)
      → SettlesOnce (finish decimal env bundle before c)
  unfolding finish
  finish-once bundle before c = >>=-once _ _ (read_state-Settles env reliable bundle _) λ final.
      >>=-once _ _ (or_fail-Settles env bundle _ _) λ _.
        >>=-once _ _ (or_fail-Settles env bundle _ _) λ _.
          >>=-once _ _ (or_fail-Settles env bundle _ _) λ verified.
            >>=-once _ _ (call-Settles _ _ (λ h. refl)) λ _.
              >>=-once _ _ (record_or_return-Settles env reliable bundle _ _)
                λ _. >>=-once _ _ (call-Settles _ _ (λ h. refl)) λ t. completes-once verified.id t

  -- Whatever New API answers, a run on a single resource either completes its operation or fails it,
  -- once, if the store carries out what it is asked and the plan has a model.
  pub run_single-settled :
      (bundle : Bundle) (h : History)
      → is_empty (plan_of bundle).channel.models ≡ false
      → settled (run_single decimal env bundle h).1 ≡ suc (settled h)
  run_single-settled bundle h some_model = run_once.once h
    where
      run_once : SettlesOnce (run_single decimal env bundle)
      run_once =
          unfold run_single in
          (>>=-once _ _ (call-Settles _ _ (λ h. refl)) λ t.
            >>=-once _ _ (stored-Settles env _ (λ h. refl) (reliable.starts _ t)) λ _.
              >>=-once _ _ (survey-Settles env reliable (attempted bundle) t) λ known.
                >>=-once _ _ (apply-Settles (attempted bundle) known some_model)
                  λ c. finish-once (attempted bundle) known.actual c)
