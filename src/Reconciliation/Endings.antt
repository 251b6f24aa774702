-- ===== src/Reconciliation/Endings.antt =====
-- Where a function of the reconciliation service goes on with a value, what it called until then, and
-- which state of New API it read (internal/application/reconciliation).
use many_router.Base.{Bool, Text, ◌∷◌, Result, ok, err, ◌≡◌, refl, sym, ap, ok-injective}
use many_router.Reconciliation.Types.{Failure, Error, ActualState, Bundle}
use many_router.Reconciliation.Actions.{
  Call, read_actual_state, History, Environment, Return, Action, call, or_return, after, ◌>>=◌,
  perform,
}
use many_router.Reconciliation.Steps.{finish_failure, or_fail, as_error}
use many_router.Reconciliation.Trace.{
  Keeps, Adds, none_added, then_add, quiet, unfinished, one, quiet-unfinished,
}
use many_router.Reconciliation.Single.{read_state}

-- An action that ended with a value.
abbrev pub EndsWith {ℓ} : {A : Type ℓ} → Action A → History → A → History → Type ℓ
EndsWith {A = A} m h a h1 = ◌≡◌ {A = Result Return A × History} (m h) (ok a, h1)

module _ {ℓ κ μ} {A : Type ℓ} {B : Type κ} (f : Call → Bool) (G : History → Type μ)
    (base : History) where
  after-then :
      (k : A → Action B) (r : Result Return A × History)
      → ((h : History) → Adds f base h → G h)
      → Adds f base r.1
      → ((a : A) (h1 : History)
          → ◌≡◌ {A = Result Return A × History} r (ok a, h1)
          → Adds f base h1
          → G (k a h1).1)
      → G (after k r).1
  after-then k (ok a, h) stay b next = next a h refl b
  after-then k (err errors, h) stay b next = stay h b

  -- What holds of a history that adds only calls of the test, and of one that the rest makes,
  -- holds after a bind.
  pub >>=-then :
      (m : Action A) (k : A → Action B) (h : History)
      → ((h : History) → Adds f base h → G h)
      → Keeps f m
      → Adds f base h
      → ((a : A) (h1 : History) → EndsWith m h a h1 → Adds f base h1 → G (k a h1).1)
      → G ((m >>= k) h).1
  unfolding ◌>>=◌
  >>=-then m k h stay keeps b next = after-then k (m h) stay (then_add b (keeps.kept h)) next

module _ {ℓ κ} {A : Type ℓ} {B : Type κ} where
  after-ends :
      (k : A → Action B) (r : Result Return A × History) {b : B} {h2 : History}
      → ◌≡◌ {A = Result Return B × History} (after k r) (ok b, h2)
      → (a : A) × (h1 : History) × ◌≡◌ {A = Result Return A × History} r (ok a, h1)
        × EndsWith (k a) h1 b h2
  after-ends k (ok a, h) e = (a, h, refl, e)
  after-ends k (err errors, h) e = let bad = ap (λ p. p.0) e in cc

  -- Where a bind ends with a value, both of its parts do.
  >>=-ends :
      (m : Action A) (k : A → Action B) (h : History) {b : B} {h2 : History}
      → EndsWith (m >>= k) h b h2
      → (a : A) × (h1 : History) × EndsWith m h a h1 × EndsWith (k a) h1 b h2
  unfolding ◌>>=◌
  >>=-ends m k h e = after-ends k (m h) e

  -- The same, with the two parts passed on.
  pub ends-then {μ} :
      {P : Type μ} (m : Action A) (k : A → Action B) (h : History) {b : B} {h2 : History}
      → EndsWith (m >>= k) h b h2
      → ((a : A) (h1 : History) → EndsWith m h a h1 → EndsWith (k a) h1 b h2 → P)
      → P
  ends-then m k h e next = let (a, h1, first, rest) = >>=-ends m k h e in next a h1 first rest

module _ {ℓ} {A : Type ℓ} where
  pub ends-Adds :
      {f : Call → Bool} {m : Action A} {h h1 : History} {a : A}
      → Keeps f m
      → EndsWith m h a h1
      → Adds f h h1
  ends-Adds {h} keeps e = rw (← ap (λ p. p.1) e) (keeps.kept h)

  pub or_fail-ends :
      (env : Environment) (bundle : Bundle) (step : Text) (r : Result Error A) (h : History) {a : A}
      {h1 : History}
      → EndsWith (or_fail env bundle step r) h a h1
      → (r ≡ ok a) × (h ≡ h1)
  unfolding or_fail finish_failure ◌>>=◌ call
  or_fail-ends env bundle step (ok a) h e =
      (ap ok (ok-injective (ap (λ p. p.0) e)), ap (λ p. p.1) e)
  or_fail-ends env bundle step (err failure) h e = let bad = ap (λ p. p.0) e in cc

  pub as_error-ok : (r : Result Failure A) {a : A} → as_error r ≡ ok a → r ≡ ok a
  as_error-ok (ok a) e = ap ok (ok-injective e)
  as_error-ok (err f) e = cc

  -- What is left of a check that let the run go on.
  pub checked :
      (env : Environment) (bundle : Bundle) (step : Text) (r : Result Failure A) (h : History)
      {a : A} {h1 : History}
      → EndsWith (or_fail env bundle step (as_error r)) h a h1
      → r ≡ ok a
  checked env bundle step r h e = as_error-ok r (or_fail-ends env bundle step _ h e).0

returned : (r : Result Error (Unit {0})) (h : History) → (or_return r h).1 ≡ h
returned (ok u) h = refl
returned (err e) h = refl

-- A call whose error is returned is the last one.
pub perform_lem :
    (env : Environment) (c : Call) (h : History) → ((perform env c >>= or_return) h).1 ≡ c ∷ h
unfolding ◌>>=◌ call
perform_lem env c h = returned (env.perform (c ∷ h)) (c ∷ h)

-- Between two points of a run New API was read once, and showed the state. Nothing was written or
-- completed.
pub record IsRead (env : Environment) (h : History) (s : ActualState) (h1 : History) : Type 0 where
  pub at : History
  pub before : Adds quiet h at
  pub answer : env.read_actual_state (read_actual_state ∷ at) ≡ ok s
  pub after : Adds quiet (read_actual_state ∷ at) h1

module _ {env : Environment} {s : ActualState} where
  -- Quiet calls may come before and after.
  pub around :
      {h h1 h2 h3 : History}
      → Adds quiet h h1
      → IsRead env h1 s h2
      → Adds quiet h2 h3
      → IsRead env h s h3
  around first read rest = record {
    at = read.at;
    before = then_add first read.before;
    answer = read.answer;
    after = then_add read.after rest;
  }

  pub IsRead-unfinished : {h h1 : History} → IsRead env h s h1 → Adds unfinished h h1
  IsRead-unfinished read =
      then_add (quiet-unfinished read.before)
        (then_add (one read_actual_state read.at refl) (quiet-unfinished read.after))

pub read_state-IsRead :
    (env : Environment) (bundle : Bundle) (step : Text) (h : History) {s : ActualState}
    {h1 : History}
    → EndsWith (read_state env bundle step) h s h1
    → IsRead env h s h1
unfolding read_state ◌>>=◌ call
read_state-IsRead env bundle step h e =
    let (answer, last) =
      or_fail-ends env bundle step (env.read_actual_state (read_actual_state ∷ h))
        (read_actual_state ∷ h) e in
    rw (sym last) (record { at = h; before = none_added; answer = answer; after = none_added })
