-- ===== src/Reconciliation/SiteManaged/Batch.antt =====
-- When runManagedSite (internal/application/reconciliation/site_managed_sync.go) completes the
-- operation of a site.
use many_router.Base.{List, ◌∷◌, Text, Time, Uuid, Result, ok, ◌≡◌, refl, inl, inr, ◌⊎◌}
use many_router.Packages.{DecimalPackage}
use many_router.Reconciliation.Types.{
  Error, Bundle, ManagedSyncChannel, ManagedSyncState, ManagedSyncCapabilities,
}
use many_router.Reconciliation.Actions.{
  read_managed_state, apply_managed_state, complete_site_operation, History, Environment, call,
  ◌>>=◌,
}
use many_router.Reconciliation.Steps.{or_fail}
use many_router.Reconciliation.SiteVerify.{verify_site_state}
use many_router.Reconciliation.Trace.{
  call-Keeps, >>=-Keeps, or_return-Keeps, Adds, none_added, then_add, quiet, quiet-unfinished,
  unfinished, quiet-IsSetup, unfinished-IsAfterReads, or_fail-Keeps, record_or_return-Keeps,
}
use many_router.Reconciliation.Endings.{
  EndsWith, >>=-then, ends-then, ends-Adds, or_fail-ends, checked, perform_lem,
}
use many_router.Reconciliation.SiteManaged.Quiet.{
  loud, require_or_fail-Keeps, request_channels-Keeps, confirm_all-Keeps, check_applied-Keeps,
}
use many_router.Reconciliation.SiteManaged.{
  with_version, request_of, check_applied, confirm_managed, run_managed_site,
}

module _ {D : Type 0} (decimal : DecimalPackage D) (uuid_string : Uuid → Text)
    (env : Environment) where
  -- A run on a site that completes its operation by one call of New API: ReadManagedState gave
  -- `read`, the request of ApplyManagedState expects that state, nothing else was written, and
  -- verifySiteState accepted what the call gave for the resources of the operation.
  pub record IsBatch (bundle : Bundle) (h h1 : History) : Type 0 where
    pub version : Text
    pub read : ManagedSyncState
    pub read_at : History
    pub channels : List ManagedSyncChannel
    pub result : ManagedSyncState
    pub applied_at : History
    pub at_time : Time
    pub earlier : History
    pub first : Adds quiet h read_at
    pub read_answer : env.read_managed_state (read_managed_state ∷ read_at) ≡ ok read
    pub preparing : Adds quiet (read_managed_state ∷ read_at) applied_at
    pub apply_answer :
        env.apply_managed_state (
          apply_managed_state (request_of bundle (with_version read version) channels) ∷ applied_at)
        ≡ ok result
    pub verified :
        verify_site_state decimal bundle bundle.resources
          (with_version read version).actual
          (with_version result version).actual
        ≡ ok tt
    pub confirming :
        Adds quiet
          (apply_managed_state (request_of bundle (with_version read version) channels)
            ∷ applied_at)
          earlier
    pub ended : h1 ≡ complete_site_operation at_time ∷ earlier

  check_applied-verified :
      (bundle : Bundle) (before result : ManagedSyncState) (h : History) {u : Unit {0}}
      {h1 : History}
      → EndsWith (check_applied decimal uuid_string env bundle before result) h u h1
      → verify_site_state decimal bundle bundle.resources before.actual result.actual ≡ ok tt
  unfolding check_applied
  check_applied-verified bundle before result h e =
      ends-then _ _ h e λ _ h1 _ e1. ends-then _ _ h1 e1 λ _ h2 _ e2. checked env bundle _ _ h2 e2

  confirm_managed_end :
      (bundle : Bundle) (before result : ManagedSyncState) (h : History)
      → Adds unfinished h (confirm_managed decimal uuid_string env bundle before result h).1
        ⊎ ((at_time : Time) × (earlier : History) × Adds quiet h earlier
            × ((confirm_managed decimal uuid_string env bundle before result h).1
                ≡ complete_site_operation at_time ∷ earlier))
  unfolding confirm_managed
  confirm_managed_end bundle before result h =
      let G = λ (end : History).
        Adds unfinished h end
        ⊎ ((at_time : Time) × (earlier : History) × Adds quiet h earlier
            × (end ≡ complete_site_operation at_time ∷ earlier)) in
      let stay = λ (end : History) (b : Adds quiet h end). inl (quiet-unfinished b) in
      >>=-then quiet G h _ _ h stay (call-Keeps quiet _ _ refl) none_added λ at_time h1 e1 b1.
        >>=-then quiet G h _ _ h1 stay
          (confirm_all-Keeps decimal uuid_string env bundle _ _ at_time _) b1
          λ _ h2 e2 b2.
            >>=-then quiet G h _ _ h2 stay
              (>>=-Keeps quiet _ _ (call-Keeps quiet _ _ refl) (or_return-Keeps quiet)) b2
              λ _ h3 e3 b3.
                >>=-then quiet G h _ _ h3 stay
                  (record_or_return-Keeps quiet quiet-IsSetup.outside env bundle _ _) b3
                  λ _ h4 e4 b4. inr (at_time, h4, b4, perform_lem env _ h4)

  -- A call whose error ends the run, and the rest.
  answered {ℓ} :
      {A : Type ℓ} (bundle : Bundle) (step : Text) (c : _) (answer : History → Result Error A)
      (h : History) {a : A} {h1 : History}
      → EndsWith (call c answer >>= or_fail env bundle step) h a h1
      → (answer (c ∷ h) ≡ ok a) × (c ∷ h ≡ h1)
  unfolding ◌>>=◌ call
  answered bundle step c answer h e = or_fail-ends env bundle step (answer (c ∷ h)) (c ∷ h) e

  pub run_managed_site-IsBatch :
      (capabilities : ManagedSyncCapabilities) (bundle : Bundle) (h : History)
      → Adds unfinished h (run_managed_site decimal uuid_string env capabilities bundle h).1
        ⊎ IsBatch bundle h (run_managed_site decimal uuid_string env capabilities bundle h).1
  unfolding run_managed_site
  run_managed_site-IsBatch capabilities bundle h =
      let G = λ (end : History). Adds unfinished h end ⊎ IsBatch bundle h end in
      let stay = λ (end : History) (b : Adds unfinished h end). inl b in
      let outside = unfinished-IsAfterReads.setup.outside in
      let required = require_or_fail-Keeps decimal uuid_string env bundle in
      let named = request_channels-Keeps decimal uuid_string env bundle bundle.resources in
      >>=-then unfinished G h _ _ h stay
        (>>=-Keeps unfinished _ _ (call-Keeps unfinished _ _ refl)
          (or_fail-Keeps unfinished outside env bundle _))
        none_added
        λ read h1 e1 b1.
          >>=-then unfinished G h _ _ h1 stay (loud (required _ _ _)) b1 λ _ h2 e2 b2.
            >>=-then unfinished G h _ _ h2 stay (loud (required _ _ _)) b2 λ _ h3 e3 b3.
              >>=-then unfinished G h _ _ h3 stay (loud named) b3 λ channels h4 e4 b4.
                >>=-then unfinished G h _ _ h4 stay
                  (>>=-Keeps unfinished _ _ (call-Keeps unfinished _ _ refl)
                    (or_fail-Keeps unfinished outside env bundle _))
                  b4
                  λ result h5 e5 b5.
                    >>=-then unfinished G h _ _ h5 stay
                      (loud (check_applied-Keeps decimal uuid_string env bundle _ _)) b5
                      λ _ h6 e6 b6.
                        let (read_answer, at_read) = answered bundle _ _ _ h e1 in
                        let (apply_answer, at_apply) = answered bundle _ _ _ h4 e5 in
                        let checked_quietly =
                          ends-Adds (check_applied-Keeps decimal uuid_string env bundle _ _) e6 in
                        elim (confirm_managed_end bundle _ _ h6) [
                          | inl more ↦ inl (then_add b6 more)
                          | inr (at_time, earlier, confirmed, ended) ↦ inr (record {
                            version = capabilities.new_api_version;
                            read = read;
                            read_at = h;
                            channels = channels;
                            result = result;
                            applied_at = h4;
                            at_time = at_time;
                            earlier = earlier;
                            first = none_added;
                            read_answer = read_answer;
                            preparing = rw at_read (
                                then_add (ends-Adds (required _ _ _) e2)
                                  (then_add (ends-Adds (required _ _ _) e3) (ends-Adds named e4)));
                            apply_answer = apply_answer;
                            verified = check_applied-verified bundle _ _ h5 e6;
                            confirming = rw at_apply (then_add checked_quietly confirmed);
                            ended = ended;
                          })
                        ]
