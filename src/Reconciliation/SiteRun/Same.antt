-- ===== src/Reconciliation/SiteRun/Same.antt =====
-- The resources that the loops of runSite pass on
-- (internal/application/reconciliation/site_service.go).
use many_router.Base.{
  Bool, true, false, List, [], ◌∷◌, map, Text, Uuid, Result, ok, err, ◌≡◌, sym, ap, ◌∙◌,
  ok-injective,
}
use Prim.Native.String.{String}
use many_router.Routing.Types.{Snapshot}
use many_router.Reconciliation.Types.{Error, ActualState, Bundle, ResourceBundle}
use many_router.Reconciliation.Actions.{History, Environment, Return, ◌>>=◌, call}
use many_router.Reconciliation.Steps.{finish_failure}
use many_router.Reconciliation.Attempts.{Attempt}
use many_router.Reconciliation.Endings.{EndsWith, ends-then}
use many_router.Reconciliation.Resource.Same.{
  Gives, Of, disable_resource-Gives, apply_resource-Gives,
}
use many_router.Reconciliation.SiteRun.{
  settle, or_fail_attempt, or_fail_resource, disable_one, disable_all, apply_one, apply_all,
}

-- What the resources are planned to be.
abbrev pub snapshots : List ResourceBundle → List Snapshot
snapshots = map λ r. r.snapshot

module _ (env : Environment) (uuid_string : Uuid → Text) where
  settle-ends {ℓ} :
      {A : Type ℓ} (bundle : Bundle) (step : Text) (r : Result Error A × History) {a : A}
      {h1 : History}
      → ◌≡◌ {A = Result Return A × History} (settle env bundle step r) (ok a, h1)
      → ◌≡◌ {A = Result Error A × History} r (ok a, h1)
  unfolding finish_failure ◌>>=◌ call
  settle-ends {A = A} bundle step (ok b, h) {a} e =
      ap (λ (t : A). (ok t, h)) (ok-injective (ap (λ t. t.0) e))
      ∙ ap (λ (t : History). (ok a, t)) (ap (λ t. t.1) e)
  settle-ends bundle step (err failure, h) e = let bad = ap (λ t. t.0) e in cc

  resource-ends :
      (bundle : Bundle) (r : ResourceBundle) (action : String) (s : Snapshot)
      (m : Attempt ResourceBundle) (h : History) {a : ResourceBundle} {h1 : History}
      → Gives (Of s) m
      → EndsWith (or_fail_resource uuid_string env bundle r action m) h a h1
      → a.snapshot ≡ s
  unfolding or_fail_resource or_fail_attempt
  resource-ends bundle r action s m h given e = given.gives h _ _ (settle-ends _ _ (m h) e)

  pure-ends {ℓ} :
      {A : Type ℓ} {a b : A} {h h1 : History}
      → ◌≡◌ {A = Result Return A × History} (ok a, h) (ok b, h1)
      → b ≡ a
  pure-ends e = sym (ok-injective (ap (λ t. t.0) e))

  disable_one-Same :
      (bundle : Bundle) (actual : ActualState) (disabled : Bool) (r : ResourceBundle) (h : History)
      {a : ResourceBundle} {h1 : History}
      → EndsWith (disable_one uuid_string env bundle actual disabled r) h a h1
      → a.snapshot ≡ r.snapshot
  unfolding disable_one
  disable_one-Same bundle actual false r h e = ap (λ b. b.snapshot) (pure-ends e)
  disable_one-Same bundle actual true r h e =
      resource-ends bundle r _ _ _ h (disable_resource-Gives env uuid_string bundle r actual) e

  pub disable_all-Same :
      (bundle : Bundle) (actual : ActualState) (rs : List ResourceBundle) (h : History)
      {out : List ResourceBundle} {h1 : History}
      → EndsWith (disable_all uuid_string env bundle actual rs) h out h1
      → snapshots out ≡ snapshots rs
  unfolding disable_all
  disable_all-Same bundle actual [] h e = ap snapshots (pure-ends e)
  disable_all-Same bundle actual (r ∷ rs) h e = ends-then _ _ h e λ first h2 e2 e3.
      ends-then _ _ h2 e3 λ rest h3 e4 e5.
        ap snapshots (pure-ends e5)
        ∙ ap (λ s. s ∷ snapshots rest) (disable_one-Same bundle actual _ r h e2)
        ∙ ap (λ ss. r.snapshot ∷ ss) (disable_all-Same bundle actual rs h2 e4)

  apply_one-Same :
      (bundle : Bundle) (skipped : Bool) (r : ResourceBundle) (h : History) {a : ResourceBundle}
      {h1 : History}
      → EndsWith (apply_one uuid_string env bundle skipped r) h a h1
      → a.snapshot ≡ r.snapshot
  unfolding apply_one
  apply_one-Same bundle true r h e = ap (λ b. b.snapshot) (pure-ends e)
  apply_one-Same bundle false r h e =
      resource-ends bundle r _ _ _ h (apply_resource-Gives env uuid_string bundle r) e

  pub apply_all-Same :
      (bundle : Bundle) (rs : List ResourceBundle) (h : History) {out : List ResourceBundle}
      {h1 : History}
      → EndsWith (apply_all uuid_string env bundle rs) h out h1
      → snapshots out ≡ snapshots rs
  unfolding apply_all
  apply_all-Same bundle [] h e = ap snapshots (pure-ends e)
  apply_all-Same bundle (r ∷ rs) h e = ends-then _ _ h e λ first h2 e2 e3.
      ends-then _ _ h2 e3 λ rest h3 e4 e5.
        ap snapshots (pure-ends e5)
        ∙ ap (λ s. s ∷ snapshots rest) (apply_one-Same bundle _ r h e2)
        ∙ ap (λ ss. r.snapshot ∷ ss) (apply_all-Same bundle rs h2 e4)
