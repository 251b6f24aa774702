-- ===== src/Reconciliation/Service.antt =====
-- RequestSync and Run of internal/application/reconciliation/service.go: the request of a
-- synchronization, and the site lock around it.
use Prim.Native.String.{String}
use many_router.Base.{
  Bool, true, false, not, ◌&&◌, [], ◌∷◌, ◌++◌, ◌==◌, Text, codes, Uuid, Result, ok, err,
  if◌then◌else◌,
}
use many_router.Packages.{DecimalPackage}
use many_router.Site.{can_sync, is_incompatible}
use many_router.Routing.Types.{fields, site_snapshot_schema_version}
use many_router.Reconciliation.Types.{
  compatibility, FailureKind.configuration, FailureKind.retryable, failure, Error.failed,
  other_error, OperationStatus, OperationStatus.succeeded, manual_required, superseded, Operation,
  Bundle,
}
use many_router.Reconciliation.Actions.{
  new_id, create_operation, dispatch, load_bundle, acquire_site_lock, release_site_lock,
  supersede_operation, History, Environment, Return, Action, pure, return_with, return_if, call,
  or_return, ◌>>=◌, ◌>>◌, now, perform,
}
use many_router.Reconciliation.Steps.{finish_failure, errors_of}
use many_router.Reconciliation.Single.{run_single}
use many_router.Reconciliation.SiteManaged.{run_site}

-- Nothing is left to do.
abbrev pub is_settled : OperationStatus → Bool
is_settled succeeded = true
is_settled manual_required = true
is_settled superseded = true
is_settled _ = false

-- The plan of the operation is not the current one of its relation.
abbrev pub is_outdated : Bundle → Bool
is_outdated bundle =
    not (bundle.current_plan_id == 0) && not (bundle.current_plan_id == bundle.plan.id)

unfoldable pub supersede : Environment → Bool → Action (Unit {0})
supersede env false =
    return_with (other_error "cannot record superseded synchronization operation" ∷ [])
supersede env true = do at_time ← now env; perform env (supersede_operation at_time) >>= or_return

-- SupersedeOperation ends the run.
unfoldable pub supersede_if : Environment → Bool → Action (Unit {0})
supersede_if env false = pure tt
supersede_if env true = supersede env env.has_site_store >>= λ _. return_with []

unfoldable pub check_site : Environment → Bundle → Action (Unit {0})
check_site env bundle = by_check (can_sync bundle.site)
  where
    by_check : Result String (Unit {0}) → Action (Unit {0})
    by_check (ok u) = pure tt
    by_check (err e) = finish_failure env bundle (codes "validate_site") (
        failed (
          failure
            (if is_incompatible bundle.site.compatibility_status
              then compatibility
              else configuration)
            "site_not_writable"))

module _ {D : Type 0} (decimal : DecimalPackage D) (uuid_string : Uuid → Text) where
  unfoldable pub run_plan : Environment → Bundle → Bool → Action (Unit {0})
  run_plan env bundle true = run_site decimal uuid_string env bundle
  run_plan env bundle false = run_single decimal env bundle

  -- What is done under the lock.
  unfoldable pub run_locked : Environment → Action (Unit {0})
  run_locked env = do
    bundle ← call load_bundle env.load_bundle >>= or_return
    supersede_if env (is_outdated bundle)
    return_if (is_settled bundle.operation.status) []
    check_site env bundle
    run_plan env bundle
        ((fields bundle.plan.snapshot).schema_version == site_snapshot_schema_version)

abbrev pub returned {ℓ} : {A : Type ℓ} → Result Return A → Return
returned (ok a) = []
returned (err errors) = errors

-- lock.Release, whatever the function returns: its error is joined to the others.
unfoldable pub release_after : Environment → Action (Unit {0}) → History → Return × History
release_after env m h =
    let (result, h1) = m h in
    let h2 = release_site_lock ∷ h1 in (returned result ++ errors_of (env.perform h2), h2)

-- What comes before the lock: whether there is something to do, and the lock.
unfoldable pub acquire : Environment → Action (Unit {0})
acquire env = do
  bundle ← call load_bundle env.load_bundle >>= or_return
  return_if (is_settled bundle.operation.status) []
  acquired ← call acquire_site_lock env.acquire_site_lock >>= or_return
  return_if (not acquired) (failed (failure retryable "site_sync_busy") ∷ [])

module _ {D : Type 0} (decimal : DecimalPackage D) (uuid_string : Uuid → Text) where
  unfoldable pub run : Environment → History → Return × History
  run env h = with_lock (acquire env h)
    where
      with_lock : Result Return (Unit {0}) × History → Return × History
      with_lock (ok u, h1) = release_after env (run_locked decimal uuid_string env) h1
      with_lock (err errors, h1) = (errors, h1)

-- An operation that needs no worker.
abbrev pub is_finished : OperationStatus → Bool
is_finished succeeded = true
is_finished manual_required = true
is_finished _ = false

unfoldable pub dispatch_if : Environment → Operation → Bool → Action (Unit {0})
dispatch_if env operation false = pure tt
dispatch_if env operation true = perform env (dispatch operation.id) >>= or_return

unfoldable pub request_sync : Environment → Uuid → Action Operation
request_sync env relation_id = do
  id ← call new_id env.new_id
  at_time ← now env
  operation ← call (create_operation relation_id id at_time) env.create_operation >>= or_return
  dispatch_if env operation (not (is_finished operation.status) && env.has_dispatcher)
  pure operation
