-- ===== src/Base/Results.antt =====
-- A Go result `(T, error)`: the value, or the error that makes the caller discard it.
use mathlib.Core.Path.{◌≡◌, refl, ap}
use mathlib.Core.Logic.{◌⊎◌, inl, inr}
use mathlib.Core.Option.{Option, none, some}
use mathlib.Core.Bool.{Bool, true, false, not}

pub data Result {ℓ κ} (E : Type κ) (A : Type ℓ) : Type (ℓ ⊔ κ) where
  ok : A → Result E A
  err : E → Result E A

-- `if test { return failure }`
abbrev pub reject {μ} : {E : Type μ} → Bool → E → Result E (Unit {0})
reject false failure = ok tt
reject true failure = err failure

-- `if !test { return failure }`
abbrev pub guard {μ} : {E : Type μ} → Bool → E → Result E (Unit {0})
guard test failure = reject (not test) failure

-- `if err != nil { return ..., err }` after a call.
infixl 5 ◌>>=◌
abbrev pub ◌>>=◌ {μ ℓ κ} :
    {E : Type μ} {A : Type ℓ} {B : Type κ} (first : Result E A) (rest : A → Result E B) → Result E B
err failure >>= rest = err failure
ok value >>= rest = rest value

-- The same after a call that returns an error alone.
infixl 5 ◌>>◌
abbrev pub ◌>>◌ {μ κ} :
    {E : Type μ} {B : Type κ} (first : Result E (Unit {0})) (rest : Result E B) → Result E B
first >> rest = first >>= λ _. rest

-- A value that may be missing, or the error for it.
abbrev pub or_reject {ℓ μ} : {E : Type μ} {A : Type ℓ} → Option A → E → Result E A
or_reject none failure = err failure
or_reject (some a) failure = ok a

module _ {ℓ μ} {E : Type μ} {A : Type ℓ} where
  pub Result-cases : (r : Result E A) → ((a : A) × (r ≡ ok a)) ⊎ ((e : E) × (r ≡ err e))
  Result-cases (ok a) = inl (a, refl)
  Result-cases (err e) = inr (e, refl)

  pub ok-injective : {a b : A} → ◌≡◌ {A = Result E A} (ok a) (ok b) → a ≡ b
  ok-injective h = cc

  -- A bind that succeeds has a first step that succeeds.
  pub >>=-eq-ok {κ} :
      {B : Type κ} (first : Result E A) (rest : A → Result E B) {out : B}
      → (first >>= rest) ≡ ok out
      → (x : A) × (first ≡ ok x) × (rest x ≡ ok out)
  >>=-eq-ok (err failure) rest h = cc
  >>=-eq-ok (ok x) rest h = (x, refl, h)

-- A guard that lets the code go on was met.
pub guard-eq-ok {μ} : {E : Type μ} (b : Bool) (e : E) {u : Unit {0}} → guard b e ≡ ok u → b ≡ true
guard-eq-ok true e h = refl
guard-eq-ok false e h = cc

pub reject-eq-ok {μ} :
    {E : Type μ} (b : Bool) (e : E) {u : Unit {0}} → reject b e ≡ ok u → b ≡ false
reject-eq-ok true e h = cc
reject-eq-ok false e h = refl

pub some-injective {ℓ} : {A : Type ℓ} {a b : A} → ◌≡◌ {A = Option A} (some a) (some b) → a ≡ b
some-injective h = cc

pub or_reject-eq-ok {ℓ μ} :
    {E : Type μ} {A : Type ℓ} (o : Option A) (e : E) {a : A} → or_reject o e ≡ ok a → o ≡ some a
or_reject-eq-ok none e h = cc
or_reject-eq-ok (some b) e h = ap some (ok-injective h)
