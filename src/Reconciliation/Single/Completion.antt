-- ===== src/Reconciliation/Single/Completion.antt =====
-- When Run (internal/application/reconciliation/service.go) writes to New API and completes the
-- operation of a single resource.
use many_router.Base.{◌∷◌, Time, ◌≡◌, refl, ap, ◌∙◌, inl, inr, ◌⊎◌, ok}
use many_router.Packages.{DecimalPackage}
use many_router.Reconciliation.Types.{ActualChannel, ActualState, Bundle}
use many_router.Reconciliation.Actions.{complete_operation, History, Environment}
use many_router.Reconciliation.Trace.{
  call-Keeps, >>=-Keeps, or_return-Keeps, Adds, Extends, none_added, then_add, add, extends, quiet,
  unwriting, unfinished, quiet-IsSetup, unwriting-IsAfterReads, unfinished-IsAfterReads, completed,
  writes, completed-Adds, writes-Adds, or_fail-Keeps, record_or_return-Keeps,
}
use many_router.Reconciliation.Endings.{
  >>=-then, ends-Adds, checked, perform_lem, IsRead, around, IsRead-unfinished, read_state-IsRead,
}
use many_router.Reconciliation.Diff.{verify_unmanaged_group_ratios, verify_unmanaged_user_groups}
use many_router.Reconciliation.Diff.Located.{IsSynchronized, verify-IsSynchronized}
use many_router.Reconciliation.Single.{Survey, finish, run_single, plan_of, attempted}
use many_router.Reconciliation.Single.Kept.{survey-Keeps, read_state-Keeps, apply-Keeps}
use many_router.Reconciliation.Single.Known.{IsKnown, survey-IsKnown, preceded, started}

module _ {D : Type 0} (decimal : DecimalPackage D) (env : Environment) where
  -- The end of a run that completes the operation: from `h` the last read of New API gave `final`,
  -- which passed the checks against the state that was read before the writes, and
  -- CompleteOperation is the call after it, for the channel that carries out the plan.
  pub record IsFinished (bundle : Bundle) (before : ActualState) (h h1 : History) : Type 0 where
    pub final : ActualState
    pub channel : ActualChannel
    pub at_time : Time
    pub earlier : History
    pub read : IsRead env h final earlier
    pub ended : h1 ≡ complete_operation channel.id at_time ∷ earlier
    pub ratios :
        verify_unmanaged_group_ratios decimal before.group_ratios final.group_ratios
          (plan_of bundle).group.key
        ≡ ok tt
    pub user_groups :
        verify_unmanaged_user_groups before.user_usable_groups final.user_usable_groups
          (plan_of bundle).group.key
        ≡ ok tt
    pub synchronized : IsSynchronized decimal bundle.plan.snapshot final channel

  finish-IsFinished :
      (bundle : Bundle) (before : ActualState) (c : ActualChannel) (h : History)
      → Adds unfinished h (finish decimal env bundle before c h).1
        ⊎ IsFinished bundle before h (finish decimal env bundle before c h).1
  unfolding finish
  finish-IsFinished bundle before c h =
      let G = λ (end : History). Adds unfinished h end ⊎ IsFinished bundle before h end in
      let stay = λ (end : History) (b : Adds unfinished h end). inl b in
      let outside = unfinished-IsAfterReads.setup.outside in
      let silent = quiet-IsSetup.outside in
      >>=-then unfinished G h _ _ h stay
        (read_state-Keeps unfinished unfinished-IsAfterReads env bundle _) none_added
        λ final h1 e1 b1.
          >>=-then unfinished G h _ _ h1 stay (or_fail-Keeps unfinished outside env bundle _ _) b1
            λ _ h2 e2 b2.
              >>=-then unfinished G h _ _ h2 stay (or_fail-Keeps unfinished outside env bundle _ _)
                b2
                λ _ h3 e3 b3.
                  >>=-then unfinished G h _ _ h3 stay
                    (or_fail-Keeps unfinished outside env bundle _ _) b3
                    λ verified h4 e4 b4.
                      >>=-then unfinished G h _ _ h4 stay (call-Keeps unfinished _ _ refl) b4
                        λ _ h5 e5 b5.
                          >>=-then unfinished G h _ _ h5 stay
                            (record_or_return-Keeps unfinished outside env bundle _ _) b5
                            λ _ h6 e6 b6.
                              >>=-then unfinished G h _ _ h6 stay (call-Keeps unfinished _ _ refl)
                                b6
                                λ at_time h7 e7 b7. inr (record {
                                  final = final;
                                  channel = verified;
                                  at_time = at_time;
                                  earlier = h7;
                                  read = around none_added (read_state-IsRead env bundle _ h e1) (
                                      then_add
                                        (ends-Adds (or_fail-Keeps quiet silent env bundle _ _) e2)
                                        (then_add
                                          (ends-Adds (or_fail-Keeps quiet silent env bundle _ _) e3)
                                          (then_add
                                            (ends-Adds (or_fail-Keeps quiet silent env bundle _ _)
                                              e4)
                                            (then_add (ends-Adds (call-Keeps quiet _ _ refl) e5) (
                                              then_add
                                                (ends-Adds
                                                  (record_or_return-Keeps quiet silent env bundle _
                                                    _)
                                                  e6)
                                                (ends-Adds (call-Keeps quiet _ _ refl) e7))))));
                                  ended = perform_lem env _ h7;
                                  ratios = checked env bundle _ _ h1 e2;
                                  user_groups = checked env bundle _ _ h2 e3;
                                  synchronized =
                                      verify-IsSynchronized decimal _ _ _
                                        (checked env bundle _ _ h3 e4);
                                })

  -- A run that completes its operation: the survey, the writes from `surveyed` to `applied`, and
  -- the last part.
  pub record IsCompletion (bundle : Bundle) (h h1 : History) : Type 0 where
    pub known : Survey
    pub surveyed : History
    pub applied : History
    pub survey : IsKnown env bundle h known surveyed
    pub writing : Adds unfinished surveyed applied
    pub end : IsFinished bundle known.actual applied h1

  run_single-IsCompletion :
      (bundle : Bundle) (h : History)
      → Adds unfinished h (run_single decimal env bundle h).1
        ⊎ IsCompletion (attempted bundle) h (run_single decimal env bundle h).1
  unfolding run_single
  run_single-IsCompletion bundle h =
      let G = λ (end : History). Adds unfinished h end ⊎ IsCompletion (attempted bundle) h end in
      let stay = λ (end : History) (b : Adds unfinished h end). inl b in
      >>=-then unfinished G h _ _ h stay (call-Keeps unfinished _ _ refl) none_added
        λ started_at h1 e1 b1.
          >>=-then unfinished G h _ _ h1 stay
            (>>=-Keeps unfinished _ _ (call-Keeps unfinished _ _ refl) (or_return-Keeps unfinished))
            b1
            λ _ h2 e2 b2.
              >>=-then unfinished G h _ _ h2 stay
                (survey-Keeps unfinished unfinished-IsAfterReads env (attempted bundle) started_at)
                b2
                λ known h3 e3 b3.
                  >>=-then unfinished G h _ _ h3 stay
                    (apply-Keeps env decimal (attempted bundle) known) b3
                    λ c h4 e4 b4. elim (finish-IsFinished (attempted bundle) known.actual c h4) [
                      | inl more ↦ inl (then_add b4 more)
                      | inr finished ↦ inr (record {
                        known = known;
                        surveyed = h3;
                        applied = h4;
                        survey =
                            preceded (started env _ h e1 e2)
                              (survey-IsKnown env (attempted bundle) started_at h2 e3);
                        writing = ends-Adds (apply-Keeps env decimal (attempted bundle) known) e4;
                        end = finished;
                      })
                    ]

  completed_once :
      (bundle : Bundle) (h h1 : History) (done : IsCompletion bundle h h1)
      → completed h1 ≡ done.end.channel.id ∷ completed h
  completed_once bundle h h1 done =
      ap completed done.end.ended
      ∙ ap (λ l. done.end.channel.id ∷ l)
          (completed-Adds (
            then_add (IsRead-unfinished done.survey.read)
              (then_add done.writing (IsRead-unfinished done.end.read))))

  -- A run on a single resource completes nothing, or completes its operation once, by its last call,
  -- for the channel that its last read of New API shows. Its first read came before every write and
  -- shows no channel of the plan that was disabled by hand, and the last read passed the checks
  -- against the first one: the plan is carried out, and the groups of others are as before.
  pub run_single-Finished :
      (bundle : Bundle) (h : History)
      → (completed (run_single decimal env bundle h).1 ≡ completed h)
        ⊎ ((done : IsCompletion (attempted bundle) h (run_single decimal env bundle h).1)
            × (completed (run_single decimal env bundle h).1 ≡ done.end.channel.id ∷ completed h))
  run_single-Finished bundle h = elim (run_single-IsCompletion bundle h) [
    | inl b ↦ inl (completed-Adds b)
    | inr done ↦ inr (done, completed_once _ _ _ done)
  ]

  finish-Extends :
      (bundle : Bundle) (before : ActualState) (c : ActualChannel) (h : History)
      → Extends h (finish decimal env bundle before c h).1
  finish-Extends bundle before c h = elim (finish-IsFinished bundle before c h) [
    | inl more ↦ extends more
    | inr done ↦ rw done.ended (add _ refl (extends (IsRead-unfinished done.read)))
  ]

  -- A run on a single resource writes nothing to New API, or begins with a survey: until its end the
  -- run wrote nothing and read the state of New API once, and the channel that is located in what it
  -- read was not disabled by hand after a plan was confirmed.
  pub run_single-writes :
      (bundle : Bundle) (h : History)
      → (writes (run_single decimal env bundle h).1 ≡ writes h)
        ⊎ ((known : Survey) × (surveyed : History) × IsKnown env (attempted bundle) h known surveyed
            × Extends surveyed (run_single decimal env bundle h).1)
  unfolding run_single
  run_single-writes bundle h =
      let G = λ (end : History).
        (writes end ≡ writes h)
        ⊎ ((known : Survey) × (surveyed : History) × IsKnown env (attempted bundle) h known surveyed
            × Extends surveyed end) in
      let stay = λ (end : History) (b : Adds unwriting h end). inl (writes-Adds b) in
      >>=-then unwriting G h _ _ h stay (call-Keeps unwriting _ _ refl) none_added
        λ started_at h1 e1 b1.
          >>=-then unwriting G h _ _ h1 stay
            (>>=-Keeps unwriting _ _ (call-Keeps unwriting _ _ refl) (or_return-Keeps unwriting)) b1
            λ _ h2 e2 b2.
              >>=-then unwriting G h _ _ h2 stay
                (survey-Keeps unwriting unwriting-IsAfterReads env (attempted bundle) started_at) b2
                λ known h3 e3 b3. inr (
                  known,
                  h3,
                  preceded (started env _ h e1 e2)
                      (survey-IsKnown env (attempted bundle) started_at h2 e3),
                  >>=-then unfinished (Extends h3) h3 _ _ h3 (λ end b. extends b)
                      (apply-Keeps env decimal (attempted bundle) known) none_added
                      λ c h4 e4 b4.
                        then_add (extends b4) (finish-Extends (attempted bundle) known.actual c h4),
                )
