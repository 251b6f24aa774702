-- ===== src/Reconciliation/Trace.antt =====
-- The calls that a function of the reconciliation service adds to the history, by the parts of the
-- function (internal/application/reconciliation).
use many_router.Base.{
  ℕ, suc, Bool, true, false, List, [], ◌∷◌, Text, Time, Result, ok, err, ◌≡◌, refl, ap, ◌∙◌, select,
  Option, none, some, is_some, not, ◌&&◌, if◌then◌else◌, arith,
}
use many_router.Base.Int.{ℤ}
use many_router.Reconciliation.Types.{Failure, Error, Bundle}
use many_router.Reconciliation.Actions.{
  Call, clock, decrypt, new_gateway, probe, read_actual_state, set_group_ratios,
  set_user_usable_groups, create_channel, update_channel, set_channel_enabled, apply_managed_state,
  record_step, fail_operation, complete_operation, complete_site_operation, History, Environment,
  Return, Action, pure, call, or_return, after, ◌>>=◌,
}
use many_router.Reconciliation.Steps.{
  finish_failure, or_fail, or_fail_with, record_success, record_or_return,
}

-- The channel for which a call completes an operation.
abbrev pub completion : Call → Option ℤ
completion (complete_operation id t) = some id
completion _ = none

abbrev pub is_site_completion : Call → Bool
is_site_completion (complete_site_operation t) = true
is_site_completion _ = false

-- A call that changes New API.
abbrev pub is_write : Call → Bool
is_write (set_group_ratios m) = true
is_write (set_user_usable_groups m) = true
is_write (create_channel d secret) = true
is_write (update_channel id d secret) = true
is_write (set_channel_enabled id on) = true
is_write (apply_managed_state r) = true
is_write _ = false

abbrev pub is_read : Call → Bool
is_read read_actual_state = true
is_read _ = false

abbrev add_completion : Option ℤ → List ℤ → List ℤ
add_completion none ids = ids
add_completion (some id) ids = id ∷ ids

-- The channels for which CompleteOperation was called, the last one first.
abbrev pub completed : History → List ℤ
completed [] = []
completed (c ∷ h) = add_completion (completion c) (completed h)

abbrev pub writes : History → List Call
writes h = select is_write h

-- How often an operation was completed or failed.
abbrev pub settled : History → ℕ
settled [] = 0
settled (complete_operation id t ∷ h) = suc (settled h)
settled (fail_operation r ∷ h) = suc (settled h)
settled (_ ∷ h) = settled h

abbrev add_if : Bool → ℕ → ℕ
add_if false n = n
add_if true n = suc n

-- How often a site was completed.
abbrev pub site_completed : History → ℕ
site_completed [] = 0
site_completed (c ∷ h) = add_if (is_site_completion c) (site_completed h)

-- A call that completes nothing, one that changes nothing of New API either, and one that does not
-- read its state either.
abbrev pub unfinished : Call → Bool
unfinished c = not (is_some (completion c)) && not (is_site_completion c)

abbrev pub unwriting : Call → Bool
unwriting c = unfinished c && not (is_write c)

abbrev pub quiet : Call → Bool
quiet c = unwriting c && not (is_read c)

-- The second history is the first one and later calls that pass the test.
pub data Adds (test : Call → Bool) (h : History) : History → Type 0 where
  none_added : Adds test h h
  add : (c : Call) {h1 : History} → test c ≡ true → Adds test h h1 → Adds test h (c ∷ h1)

-- The second history goes on from the first one.
abbrev pub Extends : History → History → Type 0
Extends = Adds (λ c. true)

module _ {test : Call → Bool} where
  pub then_add : {h h1 h2 : History} → Adds test h h1 → Adds test h1 h2 → Adds test h h2
  then_add first none_added = first
  then_add first (add c e rest) = add c e (then_add first rest)

  pub one : (c : Call) (h : History) → test c ≡ true → Adds test h (c ∷ h)
  one c h e = add c e none_added

  pub widen :
      {wider : Call → Bool} {h h1 : History}
      → ((c : Call) → test c ≡ true → wider c ≡ true)
      → Adds test h h1
      → Adds wider h h1
  widen within none_added = none_added
  widen within (add c e rest) = add c (within c e) (widen within rest)

  pub extends : {h h1 : History} → Adds test h h1 → Extends h h1
  extends = widen λ c e. refl

unfinished_of : (c : Call) → unwriting c ≡ true → unfinished c ≡ true
unfinished_of c e = ground arith

pub unwriting_of : (c : Call) → quiet c ≡ true → unwriting c ≡ true
unwriting_of c e = ground arith

pub quiet-unfinished : {h h1 : History} → Adds quiet h h1 → Adds unfinished h h1
quiet-unfinished = widen λ c e. unfinished_of c (unwriting_of c e)

pub unwriting-unfinished : {h h1 : History} → Adds unwriting h h1 → Adds unfinished h h1
unwriting-unfinished = widen unfinished_of

add_none : (r : Option ℤ) (ids : List ℤ) → is_some r ≡ false → add_completion r ids ≡ ids
add_none none ids e = refl
add_none (some id) ids e = ground arith

pub completed-Adds : {h h1 : History} → Adds unfinished h h1 → completed h1 ≡ completed h
completed-Adds none_added = refl
completed-Adds (add c e rest) = add_none (completion c) _ (ground (arith, e)) ∙ completed-Adds rest

pub site_completed-Adds :
    {h h1 : History} → Adds unfinished h h1 → site_completed h1 ≡ site_completed h
site_completed-Adds none_added = refl
site_completed-Adds {h} (add c {h1} e rest) =
    let same : is_site_completion c ≡ false = ground (arith, e) in
    ap (λ b. add_if b (site_completed h1)) same ∙ site_completed-Adds rest

pub writes-Adds : {h h1 : History} → Adds unwriting h h1 → writes h1 ≡ writes h
writes-Adds none_added = refl
writes-Adds {h} (add c {h1} e rest) =
    let same : is_write c ≡ false = ground (arith, e) in
    ap (λ b. if b then c ∷ writes h1 else writes h1) same ∙ writes-Adds rest

module _ (f : Call → Bool) where
  -- The action makes only calls that pass the test.
  pub record Keeps {ℓ} {A : Type ℓ} (m : Action A) : Type 0 where
    pub kept : (h : History) → Adds f h (m h).1

  after-Keeps {ℓ μ} :
      {A : Type ℓ} {B : Type μ} (k : A → Action B) (r : Result Return A × History)
      → ((a : A) → Keeps (k a))
      → Adds f r.1 (after k r).1
  after-Keeps k (ok a, h) keeps = (keeps a).kept h
  after-Keeps k (err errors, h) keeps = none_added

  -- A bind keeps what both of its parts keep.
  pub >>=-Keeps {ℓ μ} :
      {A : Type ℓ} {B : Type μ} (m : Action A) (k : A → Action B)
      → Keeps m
      → ((a : A) → Keeps (k a))
      → Keeps (m >>= k)
  unfolding ◌>>=◌
  >>=-Keeps m k first rest = record {
    kept = λ h. then_add (first.kept h) (after-Keeps k (m h) rest);
  }

  pub pure-Keeps {ℓ} : {A : Type ℓ} (a : A) → Keeps (pure a)
  pure-Keeps a = record { kept = λ h. none_added }

  pub call-Keeps {ℓ} :
      {A : Type ℓ} (c : Call) (answer : History → A) → f c ≡ true → Keeps (call c answer)
  unfolding call
  call-Keeps c answer same = record { kept = λ h. one c h same }

  pub or_return-Keeps {ℓ} : {A : Type ℓ} (r : Result Error A) → Keeps (or_return r)
  or_return-Keeps (ok a) = record { kept = λ h. none_added }
  or_return-Keeps (err e) = record { kept = λ h. none_added }

-- The calls that record steps and failures pass the test.
pub record IsOutside (f : Call → Bool) : Type 0 where
  pub at_clock : f clock ≡ true
  pub at_step : (s : _) → f (record_step s) ≡ true
  pub at_failure : (r : _) → f (fail_operation r) ≡ true

-- And those that come before the first read.
pub record IsSetup (f : Call → Bool) : Type 0 where
  pub outside : IsOutside f
  pub at_decrypt : (r : _) → f (decrypt r) ≡ true
  pub at_gateway : (url secret user : _) → f (new_gateway url secret user) ≡ true
  pub at_probe : f probe ≡ true

-- And the reads.
pub record IsAfterReads (f : Call → Bool) : Type 0 where
  pub setup : IsSetup f
  pub at_read : f read_actual_state ≡ true

pub quiet-IsSetup : IsSetup quiet
quiet-IsSetup = record {
  outside = record { at_clock = refl; at_step = λ s. refl; at_failure = λ r. refl };
  at_decrypt = λ r. refl;
  at_gateway = λ url secret user. refl;
  at_probe = refl;
}

pub unwriting-IsAfterReads : IsAfterReads unwriting
unwriting-IsAfterReads = record {
  setup = record {
    outside = record { at_clock = refl; at_step = λ s. refl; at_failure = λ r. refl };
    at_decrypt = λ r. refl;
    at_gateway = λ url secret user. refl;
    at_probe = refl;
  };
  at_read = refl;
}

pub unfinished-IsAfterReads : IsAfterReads unfinished
unfinished-IsAfterReads = record {
  setup = record {
    outside = record { at_clock = refl; at_step = λ s. refl; at_failure = λ r. refl };
    at_decrypt = λ r. refl;
    at_gateway = λ url secret user. refl;
    at_probe = refl;
  };
  at_read = refl;
}

module _ (f : Call → Bool) (outside : IsOutside f) (env : Environment) where
  pub finish_failure-Keeps {ℓ} :
      (A : Type ℓ) (bundle : Bundle) (step : Text) (e : Error)
      → Keeps f (finish_failure {A = A} env bundle step e)
  unfolding finish_failure ◌>>=◌ call
  finish_failure-Keeps A bundle step e = record {
    kept = λ h. add _ (outside.at_failure _) (add _ (outside.at_step _) (one _ h outside.at_clock));
  }

  pub or_fail-Keeps {ℓ} :
      {A : Type ℓ} (bundle : Bundle) (step : Text) (r : Result Error A)
      → Keeps f (or_fail env bundle step r)
  unfolding or_fail
  or_fail-Keeps bundle step (ok a) = record { kept = λ h. none_added }
  or_fail-Keeps bundle step (err e) = finish_failure-Keeps _ bundle step e

  pub or_fail_with-Keeps {ℓ} :
      {A : Type ℓ} (bundle : Bundle) (step : Text) (e : Failure) (r : Result Error A)
      → Keeps f (or_fail_with env bundle step e r)
  unfolding or_fail_with
  or_fail_with-Keeps bundle step e (ok a) = record { kept = λ h. none_added }
  or_fail_with-Keeps bundle step e (err _) = finish_failure-Keeps _ bundle step _

  pub record_or_return-Keeps :
      (bundle : Bundle) (key : Text) (started_at : Time)
      → Keeps f (record_or_return env bundle key started_at)
  unfolding record_or_return record_success
  record_or_return-Keeps bundle key started_at =
      >>=-Keeps f _ _
        (>>=-Keeps f _ _ (call-Keeps f _ _ outside.at_clock)
          (λ t. call-Keeps f _ _ (outside.at_step _)))
        (or_return-Keeps f)
