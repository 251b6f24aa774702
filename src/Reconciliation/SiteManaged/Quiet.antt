-- ===== src/Reconciliation/SiteManaged/Quiet.antt =====
-- The calls that the parts of runManagedSite add before and after ApplyManagedState
-- (internal/application/reconciliation/site_managed_sync.go).
use Prim.Native.String.{String}
use many_router.Base.{Bool, true, false, List, [], ◌∷◌, Text, Time, Uuid, Result, ok, err, refl}
use many_router.Packages.{DecimalPackage}
use many_router.Reconciliation.Types.{
  Failure, Error.failed, ActualState, Bundle, ResourceBundle, ManagedSyncState,
}
use many_router.Reconciliation.Actions.{History, Environment}
use many_router.Reconciliation.Attempts.{Attempt, ask_or, check, require}
use many_router.Reconciliation.Trace.{
  Keeps, call-Keeps, pure-Keeps, >>=-Keeps, or_return-Keeps, Adds, none_added, one, quiet,
  quiet-IsSetup, IsOutside, quiet-unfinished, unfinished, finish_failure-Keeps, or_fail-Keeps,
  record_or_return-Keeps,
}
use many_router.Reconciliation.SiteRun.{or_fail_resource}
use many_router.Reconciliation.SiteRun.Kept.{attempt-Keeps}
use many_router.Reconciliation.SiteManaged.{
  require_or_fail, resource_secret, request_channels, confirm_all, check_applied, check_approval,
}

silent : IsOutside quiet
silent = quiet-IsSetup.outside

pub loud {ℓ} : {A : Type ℓ} {m : _} → Keeps quiet {A = A} m → Keeps unfinished m
loud keeps = record { kept = λ h. quiet-unfinished (keeps.kept h) }

require-Adds : (test : Bool) (f : Failure) (h : History) → Adds quiet h (require test f h).1
require-Adds true f h = none_added
require-Adds false f h = none_added

check-Adds {ℓ} : {A : Type ℓ} (r : Result Failure A) (h : History) → Adds quiet h (check r h).1
check-Adds (ok a) h = none_added
check-Adds (err f) h = none_added

module _ {D : Type 0} (decimal : DecimalPackage D) (uuid_string : Uuid → Text)
    (env : Environment) where
  resource-Keeps {ℓ} :
      {A : Type ℓ} (bundle : Bundle) (r : ResourceBundle) (action : String) (m : Attempt A)
      → ((h : History) → Adds quiet h (m h).1)
      → Keeps quiet (or_fail_resource uuid_string env bundle r action m)
  unfolding or_fail_resource
  resource-Keeps bundle r action m same = attempt-Keeps quiet silent env _ _ m same

  pub require_or_fail-Keeps :
      (bundle : Bundle) (step : Text) (test : Bool) (f : Failure)
      → Keeps quiet (require_or_fail env bundle step test f)
  unfolding require_or_fail
  require_or_fail-Keeps bundle step true f = pure-Keeps quiet tt
  require_or_fail-Keeps bundle step false f =
      finish_failure-Keeps quiet silent env (Unit {0}) bundle step (failed f)

  resource_secret-Keeps :
      (bundle : Bundle) (r : ResourceBundle) (available : Bool)
      → Keeps quiet (resource_secret decimal uuid_string env bundle r available)
  unfolding resource_secret ask_or
  resource_secret-Keeps bundle r false = pure-Keeps quiet []
  resource_secret-Keeps bundle r true = resource-Keeps bundle r _ _ (λ h. one _ h refl)

  pub request_channels-Keeps :
      (bundle : Bundle) (rs : List ResourceBundle)
      → Keeps quiet (request_channels decimal uuid_string env bundle rs)
  unfolding request_channels
  request_channels-Keeps bundle [] = pure-Keeps quiet []
  request_channels-Keeps bundle (r ∷ rs) =
      >>=-Keeps quiet _ _ (resource-Keeps bundle r _ _ (require-Adds _ _)) λ _.
        >>=-Keeps quiet _ _ (resource_secret-Keeps bundle r _) λ secret.
          >>=-Keeps quiet _ _ (request_channels-Keeps bundle rs) λ rest. pure-Keeps quiet _

  pub confirm_all-Keeps :
      (bundle : Bundle) (before state : ActualState) (at_time : Time) (rs : List ResourceBundle)
      → Keeps quiet (confirm_all decimal uuid_string env bundle before state at_time rs)
  unfolding confirm_all
  confirm_all-Keeps bundle before state at_time [] = pure-Keeps quiet tt
  confirm_all-Keeps bundle before state at_time (r ∷ rs) =
      >>=-Keeps quiet _ _ (resource-Keeps bundle r _ _ (check-Adds _)) λ channel.
        >>=-Keeps quiet _ _
          (>>=-Keeps quiet _ _ (call-Keeps quiet _ _ refl) (or_return-Keeps quiet))
          λ _.
            >>=-Keeps quiet _ _ (record_or_return-Keeps quiet silent env bundle _ _)
              λ _. confirm_all-Keeps bundle before state at_time rs

  pub check_applied-Keeps :
      (bundle : Bundle) (before result : ManagedSyncState)
      → Keeps quiet (check_applied decimal uuid_string env bundle before result)
  unfolding check_applied
  check_applied-Keeps bundle before result =
      >>=-Keeps quiet _ _ (require_or_fail-Keeps bundle _ _ _) λ _.
        >>=-Keeps quiet _ _ (require_or_fail-Keeps bundle _ _ _)
          λ _. or_fail-Keeps quiet silent env bundle _ _

  pub check_approval-Keeps :
      (bundle : Bundle) (kept : Bool)
      → Keeps quiet (check_approval decimal uuid_string env bundle kept)
  unfolding check_approval
  check_approval-Keeps bundle false = pure-Keeps quiet tt
  check_approval-Keeps bundle true =
      >>=-Keeps quiet _ _
        (>>=-Keeps quiet _ _ (call-Keeps quiet _ _ refl) (or_fail-Keeps quiet silent env bundle _))
        λ approved. require_or_fail-Keeps bundle _ approved _
