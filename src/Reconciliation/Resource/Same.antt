-- ===== src/Reconciliation/Resource/Same.antt =====
-- The resources that the steps on single resources return
-- (internal/application/reconciliation/site_resource.go).
use many_router.Base.{
  Bool, true, false, Text, Uuid, Result, ok, err, ◌≡◌, refl, ap, ◌∙◌, ok-injective,
}
use many_router.Routing.Types.{Snapshot}
use many_router.Reconciliation.Types.{Error, ActualChannel, ActualState, Bundle, ResourceBundle}
use many_router.Reconciliation.Actions.{History, Environment}
use many_router.Reconciliation.Attempts.{Attempt}
use many_router.Reconciliation.Attempts
use many_router.Reconciliation.Resource.{disable_resource, bind_resource, confirm, apply_resource}

module _ {ℓ κ} {A : Type ℓ} (P : A → Type κ) where
  -- What the attempt returns has the property.
  pub record Gives (m : Attempt A) : Type (ℓ ⊔ κ) where
    pub gives :
        (h : History) (a : A) (h1 : History)
        → ◌≡◌ {A = Result Error A × History} (m h) (ok a, h1)
        → P a

  pure-Gives : (a : A) → P a → Gives (Attempts.pure a)
  pure-Gives a p = record { gives = λ h b h1 e. rw (← ok-injective (ap (λ t. t.0) e)) p }

  after-Gives {μ} :
      {B : Type μ} (k : B → Attempt A) (r : Result Error B × History) (a : A) (h1 : History)
      → ((b : B) (h : History) → ◌≡◌ {A = Result Error B × History} r (ok b, h) → Gives (k b))
      → ◌≡◌ {A = Result Error A × History} (Attempts.after k r) (ok a, h1)
      → P a
  after-Gives k (ok b, h) a h1 next e = (next b h refl).gives h a h1 e
  after-Gives k (err error, h) a h1 next e = let bad = ap (λ p. p.0) e in cc

  >>=-Gives {μ} :
      {B : Type μ} (m : Attempt B) (k : B → Attempt A)
      → ((b : B) (h h1 : History)
          → ◌≡◌ {A = Result Error B × History} (m h) (ok b, h1)
          → Gives (k b))
      → Gives (Attempts.◌>>=◌ m k)
  unfolding Attempts.◌>>=◌
  >>=-Gives m k next = record {
    gives = λ h a h1 e. after-Gives k (m h) a h1 (λ b h2 e2. next b h h2 e2) e;
  }

-- A resource with the snapshot.
abbrev pub Of : Snapshot → ResourceBundle → Type 0
Of s r = r.snapshot ≡ s

Gives-same : {s t : Snapshot} {m : Attempt ResourceBundle} → s ≡ t → Gives (Of s) m → Gives (Of t) m
Gives-same same given = record { gives = λ h a h1 e. given.gives h a h1 e ∙ same }

module _ (env : Environment) where
  bind_resource-Gives :
      (r : ResourceBundle) (bound : Bool) (c : ActualChannel)
      → Gives (Of r.snapshot) (bind_resource env r bound c)
  unfolding bind_resource
  bind_resource-Gives r true c = pure-Gives _ r refl
  bind_resource-Gives r false c =
      >>=-Gives _ _ _ λ _ _ _ _. >>=-Gives _ _ _ λ _ _ _ _. pure-Gives _ _ refl

  module _ (uuid_string : Uuid → Text) where
    pub disable_resource-Gives :
        (bundle : Bundle) (r : ResourceBundle) (actual : ActualState)
        → Gives (Of r.snapshot) (disable_resource uuid_string env bundle r actual)
    unfolding disable_resource
    disable_resource-Gives bundle r actual = >>=-Gives _ _ _ λ _ _ _ _. >>=-Gives _ _ _ λ _ _ _ _.
        >>=-Gives _ _ _ λ _ _ _ _.
          >>=-Gives _ _ _
            λ _ _ _ _. >>=-Gives _ _ _ λ _ _ _ _. >>=-Gives _ _ _ λ _ _ _ _. pure-Gives _ _ refl

    confirm-Gives :
        (bundle : Bundle) (r : ResourceBundle) (written : Bool)
        → Gives (Of r.snapshot) (confirm uuid_string env bundle r written)
    unfolding confirm
    confirm-Gives bundle r written = >>=-Gives _ _ _ λ _ _ _ _. >>=-Gives _ _ _ λ _ _ _ _.
        >>=-Gives _ _ _ λ _ _ _ _.
          >>=-Gives _ _ _
            λ _ _ _ _. >>=-Gives _ _ _ λ _ _ _ _. >>=-Gives _ _ _ λ _ _ _ _. pure-Gives _ _ refl

    pub apply_resource-Gives :
        (bundle : Bundle) (r : ResourceBundle)
        → Gives (Of r.snapshot) (apply_resource uuid_string env bundle r)
    unfolding apply_resource
    apply_resource-Gives bundle r = >>=-Gives _ _ _ λ _ _ _ _. >>=-Gives _ _ _ λ _ _ _ _.
        >>=-Gives _ _ _ λ channel _ _ _. >>=-Gives _ _ _ λ _ _ _ _. >>=-Gives _ _ _ λ c _ _ _.
          >>=-Gives _ _ _ λ bound h h1 e. >>=-Gives _ _ _ λ _ _ _ _. >>=-Gives _ _ _ λ _ _ _ _.
            Gives-same ((bind_resource-Gives r _ c).gives h bound h1 e)
              (confirm-Gives bundle bound _)
