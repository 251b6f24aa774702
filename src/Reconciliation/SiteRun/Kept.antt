-- ===== src/Reconciliation/SiteRun/Kept.antt =====
-- The calls that the parts of runSite before its end add
-- (internal/application/reconciliation/site_service.go).
use Prim.Native.String.{String}
use many_router.Base.{
  text_eq, Bool, true, false, List, [], ◌∷◌, Text, Uuid, Result, ok, err, Bool-cases, ◌≡◌, refl,
  inl, inr,
}
use many_router.Packages.{DecimalPackage}
use many_router.Reconciliation.Types.{Failure, Error, ActualState, Bundle, ResourceBundle}
use many_router.Reconciliation.Actions.{Call, read_billing_basis, History, Environment}
use many_router.Reconciliation.Attempts.{Attempt, ask, ask_or, require, check, time}
use many_router.Reconciliation.Attempts
use many_router.Reconciliation.Trace.{
  Adds, none_added, then_add, one, quiet, quiet-unfinished, Keeps, call-Keeps, pure-Keeps,
  >>=-Keeps, or_return-Keeps, unfinished, IsOutside, unfinished-IsAfterReads, finish_failure-Keeps,
  or_fail-Keeps,
}
use many_router.Reconciliation.Single.Kept.{read_state-Keeps}
use many_router.Reconciliation.SiteRun.{
  settle, or_fail_attempt, or_fail_resource, verify_billing_basis, compare_basis, write_if_changed,
  check_ownership, disable_one, disable_all, apply_one, apply_all, write_prices, write_visibility,
}
use many_router.Reconciliation.Resource.Kept.{
  Holds, check-Holds, disable_resource-Holds, apply_resource-Holds,
}

pub outside : IsOutside unfinished
outside = unfinished-IsAfterReads.setup.outside

module _ (f : Call → Bool) (recorded : IsOutside f) (env : Environment) where
  settle-Keeps {ℓ} :
      {A : Type ℓ} (bundle : Bundle) (step : Text) (r : Result Error A × History)
      → Adds f r.1 (settle env bundle step r).1
  settle-Keeps bundle step (ok a, h) = none_added
  settle-Keeps {A = A} bundle step (err e, h) =
      (finish_failure-Keeps f recorded env A bundle step e).kept h

  pub attempt-Keeps {ℓ} :
      {A : Type ℓ} (bundle : Bundle) (step : Text) (m : Attempt A)
      → ((h : History) → Adds f h (m h).1)
      → Keeps f (or_fail_attempt env bundle step m)
  unfolding or_fail_attempt
  attempt-Keeps bundle step m same = record {
    kept = λ h. then_add (same h) (settle-Keeps bundle step (m h));
  }

module _ (env : Environment) where
  or_fail_attempt-Keeps {ℓ} :
      {A : Type ℓ} (bundle : Bundle) (step : Text) (m : Attempt A)
      → Holds m
      → Keeps unfinished (or_fail_attempt env bundle step m)
  or_fail_attempt-Keeps bundle step m same =
      attempt-Keeps unfinished outside env bundle step m same.holds

  basis_compared :
      (expected : Text) (r : Result Error Text × History)
      → Adds quiet r.1 (Attempts.after (compare_basis expected) r).1
  basis_compared expected (ok actual, h) = required (text_eq actual expected) _
    where
      required : (test : Bool) (e : Failure) → Adds quiet h (Attempts.require test e h).1
      required true e = none_added
      required false e = none_added
  basis_compared expected (err e, h) = none_added

  -- The look at the billing basis is quiet.
  pub verify_billing_basis-Adds :
      (expected : Text) (h : History) → Adds quiet h (verify_billing_basis env expected h).1
  unfolding verify_billing_basis
  verify_billing_basis-Adds expected h = elim (Bool-cases env.has_billing_basis) [
    | inl e ↦ rw e (
        then_add (one read_billing_basis h refl) (
          basis_compared expected
            (env.read_billing_basis (read_billing_basis ∷ h), read_billing_basis ∷ h)))
    | inr e ↦ rw e none_added
  ]

  pub verify_billing_basis-Holds : (expected : Text) → Holds (verify_billing_basis env expected)
  verify_billing_basis-Holds expected = record {
    holds = λ h. quiet-unfinished (verify_billing_basis-Adds expected h);
  }

  write_if_changed-Keeps :
      (bundle : Bundle) (step : Text) (changed : Bool) (c : Call)
      → unfinished c ≡ true
      → Keeps unfinished (write_if_changed env bundle step changed c)
  unfolding write_if_changed
  write_if_changed-Keeps bundle step false c same = pure-Keeps unfinished tt
  write_if_changed-Keeps bundle step true c same =
      >>=-Keeps unfinished _ _ (call-Keeps unfinished _ _ same)
        (or_fail-Keeps unfinished outside env bundle step)

  module _ (uuid_string : Uuid → Text) where
    pub or_fail_resource-Keeps {ℓ} :
        {A : Type ℓ} (bundle : Bundle) (r : ResourceBundle) (action : String) (m : Attempt A)
        → Holds m
        → Keeps unfinished (or_fail_resource uuid_string env bundle r action m)
    unfolding or_fail_resource
    or_fail_resource-Keeps bundle r action m same = or_fail_attempt-Keeps _ _ m same

    pub check_ownership-Keeps :
        (bundle : Bundle) (actual : ActualState) (rs : List ResourceBundle)
        → Keeps unfinished (check_ownership uuid_string env bundle actual rs)
    unfolding check_ownership
    check_ownership-Keeps bundle actual [] = pure-Keeps unfinished tt
    check_ownership-Keeps bundle actual (r ∷ rs) =
        >>=-Keeps unfinished _ _ (or_fail_resource-Keeps bundle r _ _ (check-Holds _))
          λ channel. check_ownership-Keeps bundle actual rs

    disable_one-Keeps :
        (bundle : Bundle) (actual : ActualState) (disabled : Bool) (r : ResourceBundle)
        → Keeps unfinished (disable_one uuid_string env bundle actual disabled r)
    unfolding disable_one
    disable_one-Keeps bundle actual false r = pure-Keeps unfinished r
    disable_one-Keeps bundle actual true r =
        or_fail_resource-Keeps bundle r _ _ (disable_resource-Holds env uuid_string bundle r actual)

    pub disable_all-Keeps :
        (bundle : Bundle) (actual : ActualState) (rs : List ResourceBundle)
        → Keeps unfinished (disable_all uuid_string env bundle actual rs)
    unfolding disable_all
    disable_all-Keeps bundle actual [] = pure-Keeps unfinished []
    disable_all-Keeps bundle actual (r ∷ rs) =
        >>=-Keeps unfinished _ _ (disable_one-Keeps bundle actual _ r) λ first.
          >>=-Keeps unfinished _ _ (disable_all-Keeps bundle actual rs)
            λ rest. pure-Keeps unfinished _

    apply_one-Keeps :
        (bundle : Bundle) (skipped : Bool) (r : ResourceBundle)
        → Keeps unfinished (apply_one uuid_string env bundle skipped r)
    unfolding apply_one
    apply_one-Keeps bundle true r = pure-Keeps unfinished r
    apply_one-Keeps bundle false r =
        or_fail_resource-Keeps bundle r _ _ (apply_resource-Holds env uuid_string bundle r)

    pub apply_all-Keeps :
        (bundle : Bundle) (rs : List ResourceBundle)
        → Keeps unfinished (apply_all uuid_string env bundle rs)
    unfolding apply_all
    apply_all-Keeps bundle [] = pure-Keeps unfinished []
    apply_all-Keeps bundle (r ∷ rs) = >>=-Keeps unfinished _ _ (apply_one-Keeps bundle _ r) λ first.
        >>=-Keeps unfinished _ _ (apply_all-Keeps bundle rs) λ rest. pure-Keeps unfinished _

    module _ {D : Type 0} (decimal : DecimalPackage D) where
      pub write_prices-Keeps :
          (bundle : Bundle) → Keeps unfinished (write_prices decimal uuid_string env bundle)
      unfolding write_prices
      write_prices-Keeps bundle =
          let reads = unfinished-IsAfterReads in
          >>=-Keeps unfinished _ _ (or_fail_attempt-Keeps _ _ _ (verify_billing_basis-Holds _)) λ _.
            >>=-Keeps unfinished _ _ (read_state-Keeps unfinished reads env bundle _) λ actual.
              >>=-Keeps unfinished _ _ (or_fail-Keeps unfinished outside env bundle _ _) λ merged.
                >>=-Keeps unfinished _ _ (write_if_changed-Keeps bundle _ _ _ refl) λ _.
                  >>=-Keeps unfinished _ _ (read_state-Keeps unfinished reads env bundle _)
                    λ priced.
                      >>=-Keeps unfinished _ _ (or_fail-Keeps unfinished outside env bundle _ _)
                        λ _.
                          >>=-Keeps unfinished _ _
                            (or_fail_attempt-Keeps _ _ _ (verify_billing_basis-Holds _))
                            λ _.
                              >>=-Keeps unfinished _ _ (call-Keeps unfinished _ _ refl) λ at_time.
                                >>=-Keeps unfinished _ _ (call-Keeps unfinished _ _ refl)
                                  (or_return-Keeps unfinished)

      pub write_visibility-Keeps :
          (bundle : Bundle) → Keeps unfinished (write_visibility decimal uuid_string env bundle)
      unfolding write_visibility
      write_visibility-Keeps bundle =
          >>=-Keeps unfinished _ _
            (read_state-Keeps unfinished unfinished-IsAfterReads env bundle _)
            λ actual. write_if_changed-Keeps bundle _ _ _ refl
