-- ===== src/Reconciliation/SiteManaged/Completion.antt =====
-- When runSite (internal/application/reconciliation/site_service.go and site_managed_sync.go) completes
-- the operation of a site.
use many_router.Base.{
  suc, Bool, true, false, Text, Uuid, Result, ok, err, Bool-cases, ◌≡◌, refl, ap, ◌∙◌, inl, inr,
  ◌⊎◌,
}
use many_router.Packages.{DecimalPackage}
use many_router.Reconciliation.Types.{Error, Bundle, ManagedSyncCapabilities}
use many_router.Reconciliation.Actions.{History, Environment, Action, ◌>>=◌}
use many_router.Reconciliation.Trace.{
  Keeps, call-Keeps, >>=-Keeps, or_return-Keeps, Adds, none_added, then_add, one, quiet,
  quiet-unfinished, unfinished, quiet-IsSetup, site_completed, site_completed-Adds,
  finish_failure-Keeps, or_fail-Keeps, or_fail_with-Keeps,
}
use many_router.Reconciliation.Endings.{>>=-then, around, IsRead-unfinished}
use many_router.Reconciliation.Single.{attempted}
use many_router.Reconciliation.Single.Kept.{make_gateway-Keeps}
use many_router.Reconciliation.SiteRun.{run_legacy_site}
use many_router.Reconciliation.SiteRun.Completion.{IsStepwise, run_legacy_site-IsStepwise}
use many_router.Reconciliation.SiteManaged.Quiet.{require_or_fail-Keeps, check_approval-Keeps}
use many_router.Reconciliation.SiteManaged.{
  run_managed_site, with_capabilities, try_run_managed_site, legacy_or_fail, check_store, run_site,
}
use many_router.Reconciliation.SiteManaged.Batch.{IsBatch, run_managed_site-IsBatch}

module _ {D : Type 0} (decimal : DecimalPackage D) (uuid_string : Uuid → Text)
    (env : Environment) where
  -- A run on a site that completes its operation.
  abbrev pub IsSiteCompletion : Bundle → History → History → Type 0
  IsSiteCompletion bundle h h1 =
      IsStepwise decimal uuid_string env bundle h h1 ⊎ IsBatch decimal uuid_string env bundle h h1

  abbrev Finished : Bundle → History → History → Type 0
  Finished bundle h h1 = Adds unfinished h h1 ⊎ IsSiteCompletion bundle h h1

  preceded :
      (bundle : Bundle) {h h1 h2 : History}
      → Adds quiet h h1
      → Finished bundle h1 h2
      → Finished bundle h h2
  preceded bundle before (inl more) = inl (then_add (quiet-unfinished before) more)
  preceded bundle before (inr (inl steps)) = inr (
      inl (record {
        baseline = steps.baseline;
        begun = steps.begun;
        applied = steps.applied;
        worked = steps.worked;
        first = around before steps.first none_added;
        working = steps.working;
        resources = steps.resources;
        end = steps.end;
      }))
  preceded bundle before (inr (inr batch)) = inr (
      inr (record {
        version = batch.version;
        read = batch.read;
        read_at = batch.read_at;
        channels = batch.channels;
        result = batch.result;
        applied_at = batch.applied_at;
        at_time = batch.at_time;
        earlier = batch.earlier;
        first = then_add before batch.first;
        read_answer = batch.read_answer;
        preparing = batch.preparing;
        apply_answer = batch.apply_answer;
        verified = batch.verified;
        confirming = batch.confirming;
        ended = batch.ended;
      }))

  -- After a quiet step the rest decides.
  quiet-then {ℓ} :
      {A : Type ℓ} (bundle : Bundle) (m : Action A) (k : A → Action (Unit {0})) (h : History)
      → Keeps quiet m
      → ((a : A) (h1 : History) → Finished bundle h1 (k a h1).1)
      → Finished bundle h ((m >>= k) h).1
  quiet-then bundle m k h keeps rest =
      >>=-then quiet (Finished bundle h) h m k h (λ h1 b. inl (quiet-unfinished b)) keeps none_added
        λ a h1 e b. preceded bundle b (rest a h1)

  stepwise :
      (bundle : Bundle) (h : History)
      → Finished bundle h (run_legacy_site decimal uuid_string env bundle h).1
  stepwise bundle h = elim (run_legacy_site-IsStepwise decimal uuid_string env bundle h) [
    | inl more ↦ inl more
    | inr steps ↦ inr (inl steps)
  ]

  batched :
      (capabilities : ManagedSyncCapabilities) (bundle : Bundle) (h : History)
      → Finished bundle h (run_managed_site decimal uuid_string env capabilities bundle h).1
  batched capabilities bundle h =
      elim (run_managed_site-IsBatch decimal uuid_string env capabilities bundle h) [
        | inl more ↦ inl more
        | inr batch ↦ inr (inr batch)
      ]

  legacy_or_fail-Finished :
      (bundle : Bundle) (e : Error) (legacy : Bool) (h : History)
      → Finished bundle h (legacy_or_fail decimal uuid_string env bundle e legacy h).1
  unfolding legacy_or_fail
  legacy_or_fail-Finished bundle e true h = stepwise bundle h
  legacy_or_fail-Finished bundle e false h =
      let fails = finish_failure-Keeps quiet quiet-IsSetup.outside env (Unit {0}) bundle _ e in
      inl (quiet-unfinished (fails.kept h))

  with_capabilities-Finished :
      (bundle : Bundle) (r : Result Error ManagedSyncCapabilities) (h : History)
      → Finished bundle h (with_capabilities decimal uuid_string env bundle r h).1
  unfolding with_capabilities
  with_capabilities-Finished bundle (err e) h = legacy_or_fail-Finished bundle e _ h
  with_capabilities-Finished bundle (ok capabilities) h =
      quiet-then bundle _ _ h (or_fail-Keeps quiet quiet-IsSetup.outside env bundle _ _) λ _ h1.
        quiet-then bundle _ _ h1 (check_approval-Keeps decimal uuid_string env bundle _)
          λ _ h2. batched capabilities bundle h2

  try_run_managed_site-Finished :
      (bundle : Bundle) (managed : Bool) (h : History)
      → Finished bundle h (try_run_managed_site decimal uuid_string env bundle managed h).1
  unfolding try_run_managed_site
  try_run_managed_site-Finished bundle false h = stepwise bundle h
  try_run_managed_site-Finished bundle true h =
      quiet-then bundle _ _ h (call-Keeps quiet _ _ refl)
        λ r h1. with_capabilities-Finished bundle r h1

  check_store-Keeps : Keeps quiet (check_store decimal uuid_string env)
  unfolding check_store
  check_store-Keeps = elim (Bool-cases env.has_site_store) [
    | inl e ↦ rw e (record { kept = λ h. none_added })
    | inr e ↦ rw e (record { kept = λ h. none_added })
  ]

  run_site-Finished :
      (bundle : Bundle) (h : History)
      → Finished (attempted bundle) h (run_site decimal uuid_string env bundle h).1
  unfolding run_site
  run_site-Finished bundle h =
      let silent = quiet-IsSetup.outside in
      let run = attempted bundle in
      quiet-then run _ _ h check_store-Keeps λ _ h1.
        quiet-then run _ _ h1 (require_or_fail-Keeps decimal uuid_string env bundle _ _ _) λ _ h2.
          quiet-then run _ _ h2 (call-Keeps quiet _ _ refl) λ started_at h3.
            quiet-then run _ _ h3
              (>>=-Keeps quiet _ _ (call-Keeps quiet _ _ refl) (or_return-Keeps quiet))
              λ _ h4.
                quiet-then run _ _ h4
                  (>>=-Keeps quiet _ _ (call-Keeps quiet _ _ refl)
                    (or_fail_with-Keeps quiet silent env _ _ _))
                  λ secret h5.
                    quiet-then run _ _ h5
                      (>>=-Keeps quiet _ _
                        (make_gateway-Keeps quiet quiet-IsSetup env bundle secret)
                        (or_fail-Keeps quiet silent env _ _))
                      λ _ h6. try_run_managed_site-Finished run _ h6

  completed_once :
      (bundle : Bundle) (h h1 : History)
      → IsSiteCompletion bundle h h1
      → site_completed h1 ≡ suc (site_completed h)
  completed_once bundle h h1 (inl steps) =
      ap site_completed steps.end.ended
      ∙ ap suc (
          site_completed-Adds (
            then_add (IsRead-unfinished steps.first)
              (then_add steps.working (IsRead-unfinished steps.end.read))))
  completed_once bundle h h1 (inr batch) =
      ap site_completed batch.ended
      ∙ ap suc (
          site_completed-Adds (
            then_add (quiet-unfinished batch.first) (
              then_add (one _ _ refl) (
                then_add (quiet-unfinished batch.preparing)
                  (then_add (one _ _ refl) (quiet-unfinished batch.confirming))))))

  -- A run on a site does not complete it, or completes it once, by its last call. Step by step, the
  -- last read of New API then gave a state that verifySiteState accepted against the one that the
  -- first read gave, for resources planned as those of the operation. In one call, verifySiteState
  -- accepted what ApplyManagedState gave against what ReadManagedState gave before, for the
  -- resources of the operation, and nothing else was written.
  pub run_site-SiteFinished :
      (bundle : Bundle) (h : History)
      → (site_completed (run_site decimal uuid_string env bundle h).1 ≡ site_completed h)
        ⊎ (IsSiteCompletion (attempted bundle) h (run_site decimal uuid_string env bundle h).1
            × (site_completed (run_site decimal uuid_string env bundle h).1
                ≡ suc (site_completed h)))
  run_site-SiteFinished bundle h = elim (run_site-Finished bundle h) [
    | inl b ↦ inl (site_completed-Adds b)
    | inr done ↦ inr (done, completed_once _ _ _ done)
  ]
