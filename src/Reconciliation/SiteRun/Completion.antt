-- ===== src/Reconciliation/SiteRun/Completion.antt =====
-- When runSite (internal/application/reconciliation/site_service.go) completes the operation of a site
-- step by step.
use many_router.Base.{List, ◌∷◌, Text, Time, Uuid, ok, ◌≡◌, refl, ◌∙◌, inl, inr, ◌⊎◌}
use many_router.Packages.{DecimalPackage}
use many_router.Reconciliation.Types.{ActualState, Bundle, ResourceBundle}
use many_router.Reconciliation.Actions.{complete_site_operation, History, Environment}
use many_router.Reconciliation.SiteVerify.{verify_site_state}
use many_router.Reconciliation.Trace.{
  call-Keeps, Adds, none_added, then_add, quiet, unfinished, quiet-IsSetup, unfinished-IsAfterReads,
  or_fail-Keeps,
}
use many_router.Reconciliation.Endings.{
  >>=-then, ends-Adds, checked, perform_lem, IsRead, around, read_state-IsRead,
}
use many_router.Reconciliation.Single.Kept.{read_state-Keeps}
use many_router.Reconciliation.SiteRun.{finish_site, run_legacy_site}
use many_router.Reconciliation.SiteRun.Same.{snapshots, disable_all-Same, apply_all-Same}
use many_router.Reconciliation.SiteRun.Kept.{
  outside, attempt-Keeps, verify_billing_basis-Adds, verify_billing_basis-Holds,
  check_ownership-Keeps, disable_all-Keeps, apply_all-Keeps, write_prices-Keeps,
  write_visibility-Keeps,
}

module _ {D : Type 0} (decimal : DecimalPackage D) (uuid_string : Uuid → Text)
    (env : Environment) where
  -- The end of a run on a site step by step: from `h` the last read of New API gave `final`, which
  -- verifySiteState accepted against the state that was read first, and CompleteSiteOperation is
  -- the last call.
  pub record IsSiteFinished (bundle : Bundle) (before : ActualState) (applied : List ResourceBundle)
      (h h1 : History) : Type 0 where
    pub final : ActualState
    pub at_time : Time
    pub earlier : History
    pub read : IsRead env h final earlier
    pub verified : verify_site_state decimal bundle applied before final ≡ ok tt
    pub ended : h1 ≡ complete_site_operation at_time ∷ earlier

  finish_site-IsSiteFinished :
      (bundle : Bundle) (before : ActualState) (applied : List ResourceBundle) (h : History)
      → Adds unfinished h (finish_site decimal uuid_string env bundle before applied h).1
        ⊎ IsSiteFinished bundle before applied h
            (finish_site decimal uuid_string env bundle before applied h).1
  unfolding finish_site
  finish_site-IsSiteFinished bundle before applied h =
      let G =
        λ (end : History). Adds unfinished h end ⊎ IsSiteFinished bundle before applied h end in
      let stay = λ (end : History) (b : Adds unfinished h end). inl b in
      let silent = quiet-IsSetup.outside in
      >>=-then unfinished G h _ _ h stay
        (read_state-Keeps unfinished unfinished-IsAfterReads env bundle _) none_added
        λ final h1 e1 b1.
          >>=-then unfinished G h _ _ h1 stay (or_fail-Keeps unfinished outside env bundle _ _) b1
            λ _ h2 e2 b2.
              >>=-then unfinished G h _ _ h2 stay
                (attempt-Keeps unfinished outside env bundle _ _
                  (verify_billing_basis-Holds env _).holds)
                b2
                λ _ h3 e3 b3.
                  >>=-then unfinished G h _ _ h3 stay (call-Keeps unfinished _ _ refl) b3
                    λ at_time h4 e4 b4. inr (record {
                      final = final;
                      at_time = at_time;
                      earlier = h4;
                      read = around none_added (read_state-IsRead env bundle _ h e1) (
                          then_add (ends-Adds (or_fail-Keeps quiet silent env bundle _ _) e2) (
                            then_add
                              (ends-Adds
                                (attempt-Keeps quiet silent env bundle _ _
                                  (verify_billing_basis-Adds env _))
                                e3)
                              (ends-Adds (call-Keeps quiet _ _ refl) e4)));
                      verified = checked env bundle _ _ h1 e2;
                      ended = perform_lem env _ h4;
                    })

  -- A run on a site that completes its operation step by step: the first read of New API gave
  -- `baseline`, and the resources that are verified in the end are planned as those of the
  -- operation.
  pub record IsStepwise (bundle : Bundle) (h h1 : History) : Type 0 where
    pub baseline : ActualState
    pub begun : History
    pub applied : List ResourceBundle
    pub worked : History
    pub first : IsRead env h baseline begun
    pub working : Adds unfinished begun worked
    pub resources : snapshots applied ≡ snapshots bundle.resources
    pub end : IsSiteFinished bundle baseline applied worked h1

  pub run_legacy_site-IsStepwise :
      (bundle : Bundle) (h : History)
      → Adds unfinished h (run_legacy_site decimal uuid_string env bundle h).1
        ⊎ IsStepwise bundle h (run_legacy_site decimal uuid_string env bundle h).1
  unfolding run_legacy_site
  run_legacy_site-IsStepwise bundle h =
      let G = λ (end : History). Adds unfinished h end ⊎ IsStepwise bundle h end in
      let stay = λ (end : History) (b : Adds unfinished h end). inl b in
      >>=-then unfinished G h _ _ h stay
        (read_state-Keeps unfinished unfinished-IsAfterReads env bundle _) none_added
        λ baseline h1 e1 b1.
          >>=-then unfinished G h _ _ h1 stay
            (check_ownership-Keeps env uuid_string bundle baseline _) b1
            λ _ h2 e2 b2.
              >>=-then unfinished G h _ _ h2 stay
                (disable_all-Keeps env uuid_string bundle baseline _) b2
                λ disabled h3 e3 b3.
                  >>=-then unfinished G h _ _ h3 stay
                    (write_prices-Keeps env uuid_string decimal bundle) b3
                    λ _ h4 e4 b4.
                      >>=-then unfinished G h _ _ h4 stay
                        (apply_all-Keeps env uuid_string bundle disabled) b4
                        λ applied h5 e5 b5.
                          >>=-then unfinished G h _ _ h5 stay
                            (write_visibility-Keeps env uuid_string decimal bundle) b5
                            λ _ h6 e6 b6.
                              elim (finish_site-IsSiteFinished bundle baseline applied h6) [
                                | inl more ↦ inl (then_add b6 more)
                                | inr finished ↦ inr (record {
                                  baseline = baseline;
                                  begun = h1;
                                  applied = applied;
                                  worked = h6;
                                  first = read_state-IsRead env bundle _ h e1;
                                  working =
                                      then_add
                                        (ends-Adds
                                          (check_ownership-Keeps env uuid_string bundle baseline _)
                                          e2)
                                        (then_add
                                          (ends-Adds
                                            (disable_all-Keeps env uuid_string bundle baseline _)
                                            e3)
                                          (then_add
                                            (ends-Adds
                                              (write_prices-Keeps env uuid_string decimal bundle)
                                              e4)
                                            (then_add
                                              (ends-Adds
                                                (apply_all-Keeps env uuid_string bundle disabled)
                                                e5)
                                              (ends-Adds
                                                (write_visibility-Keeps env uuid_string decimal
                                                  bundle)
                                                e6))));
                                  resources =
                                      apply_all-Same env uuid_string bundle disabled h4 e5
                                      ∙ disable_all-Same env uuid_string bundle baseline
                                          bundle.resources h2 e3;
                                  end = finished;
                                })
                              ]
