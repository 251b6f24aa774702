-- ===== src/Reconciliation/Attempts.antt =====
-- A function of internal/application/reconciliation that returns an error to another function of the
-- service, as the steps on one resource do.
use many_router.Base.{◌∷◌, Bool, true, false, Time, Result, ok, err}
use many_router.Reconciliation.Types.{Failure, Error, Error.failed}
use many_router.Reconciliation.Actions.{Call, clock, History, Environment}

abbrev pub Attempt {ℓ} : Type ℓ → Type ℓ
Attempt A = History → Result Error A × History

module _ {ℓ} {A : Type ℓ} where
  abbrev pub pure : A → Attempt A
  pure a h = (ok a, h)

  abbrev pub fail_with : Failure → Attempt A
  fail_with f h = (err (failed f), h)

  unfoldable pub ask : Call → (History → Result Error A) → Attempt A
  ask c answer h = (answer (c ∷ h), c ∷ h)

  abbrev pub or_failure : Failure → Result Error A → Result Error A
  or_failure f (ok a) = ok a
  or_failure f (err e) = err (failed f)

  -- A call whose error is replaced.
  unfoldable pub ask_or : Failure → Call → (History → Result Error A) → Attempt A
  ask_or f c answer h = (or_failure f (answer (c ∷ h)), c ∷ h)

  abbrev pub check : Result Failure A → Attempt A
  check (ok a) h = (ok a, h)
  check (err f) h = (err (failed f), h)

abbrev pub after {ℓ κ} :
    {A : Type ℓ} {B : Type κ}
    → (A → Attempt B)
    → Result Error A × History
    → Result Error B × History
after f (ok a, h) = f a h
after f (err e, h) = (err e, h)

infixl 5 ◌>>=◌ ◌>>◌
unfoldable pub ◌>>=◌ {ℓ κ} : {A : Type ℓ} {B : Type κ} → Attempt A → (A → Attempt B) → Attempt B
◌>>=◌ m f h = after f (m h)

abbrev pub ◌>>◌ {κ} : {B : Type κ} → Attempt (Unit {0}) → Attempt B → Attempt B
m >> k = m >>= λ _. k

abbrev pub require : Bool → Failure → Attempt (Unit {0})
require true f = pure tt
require false f = fail_with f

unfoldable pub time : Environment → Attempt Time
time env h = (ok (env.now (clock ∷ h)), clock ∷ h)
