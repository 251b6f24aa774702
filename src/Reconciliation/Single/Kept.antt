-- ===== src/Reconciliation/Single/Kept.antt =====
-- The calls that the parts of Run (internal/application/reconciliation/service.go) add.
use many_router.Base.{
  ℕ, Bool, true, false, List, [], ◌∷◌, Text, Option, none, some, Time, Bool-cases, if◌then◌else◌,
  ◌≡◌, refl, inl, inr,
}
use many_router.Packages.{DecimalPackage}
use many_router.Credential
use many_router.Routing.Types.{ModelRoute}
use many_router.Reconciliation.Types.{Failure, Error, ActualChannel, ActualState, Bundle}
use many_router.Reconciliation.Actions.{Call, decrypt, Environment, pure, call, ◌>>=◌}
use many_router.Reconciliation.Steps.{finish_failure, or_fail_with}
use many_router.Reconciliation.Trace.{
  Keeps, call-Keeps, pure-Keeps, >>=-Keeps, or_return-Keeps, unfinished, IsOutside, IsSetup,
  IsAfterReads, none_added, unfinished-IsAfterReads, finish_failure-Keeps, or_fail-Keeps,
  or_fail_with-Keeps, record_or_return-Keeps,
}
use many_router.Reconciliation.Single.{
  make_gateway, read_state, is_locked, Survey, survey, write_if, write_channel, look_again,
  or_unconfirmed, bind_if, first_model, activate, write_groups, apply,
}

module _ (f : Call → Bool) (kept : IsSetup f) (env : Environment) where
  pub make_gateway-Keeps :
      (bundle : Bundle) (secret : List ℕ) → Keeps f (make_gateway env bundle secret)
  unfolding make_gateway
  make_gateway-Keeps bundle secret = elim (Bool-cases env.has_site_gateways) [
    | inl e ↦ rw e (call-Keeps f _ _ (kept.at_gateway _ _ _))
    | inr e ↦ rw e (call-Keeps f _ _ (kept.at_gateway _ _ _))
  ]

  locked_or_known :
      (bundle : Bundle) (locked : Bool) (step : Text) (e : Error) (known : Survey)
      → Keeps f (if locked then finish_failure env bundle step e else pure known)
  locked_or_known bundle true step e known =
      finish_failure-Keeps f kept.outside env Survey bundle step e
  locked_or_known bundle false step e known = pure-Keeps f known

  pub decrypted-Keeps :
      (bundle : Bundle) (r : Credential.Record) (step : Text) (e : Failure)
      → Keeps f (call (decrypt r) env.decrypt >>= or_fail_with env bundle step e)
  decrypted-Keeps bundle r step e =
      >>=-Keeps f _ _ (call-Keeps f _ _ (kept.at_decrypt r))
        (or_fail_with-Keeps f kept.outside env bundle step e)

module _ (f : Call → Bool) (kept : IsAfterReads f) (env : Environment) where
  pub read_state-Keeps : (bundle : Bundle) (step : Text) → Keeps f (read_state env bundle step)
  unfolding read_state
  read_state-Keeps bundle step =
      >>=-Keeps f _ _ (call-Keeps f _ _ kept.at_read)
        (or_fail-Keeps f kept.setup.outside env bundle step)

  -- The survey makes only reads, their preparation and records.
  pub survey-Keeps : (bundle : Bundle) (started_at : Time) → Keeps f (survey env bundle started_at)
  unfolding survey
  survey-Keeps bundle started_at =
      >>=-Keeps f _ _ (decrypted-Keeps f kept.setup env bundle _ _ _) λ admin.
        >>=-Keeps f _ _ (decrypted-Keeps f kept.setup env bundle _ _ _) λ secret.
          >>=-Keeps f _ _
            (>>=-Keeps f _ _ (make_gateway-Keeps f kept.setup env bundle admin)
              (or_fail_with-Keeps f kept.setup.outside env bundle _ _))
            λ _.
              >>=-Keeps f _ _
                (>>=-Keeps f _ _ (call-Keeps f _ _ kept.setup.at_probe)
                  (or_fail-Keeps f kept.setup.outside env bundle _))
                λ version.
                  >>=-Keeps f _ _ (record_or_return-Keeps f kept.setup.outside env bundle _ _) λ _.
                    >>=-Keeps f _ _ (read_state-Keeps bundle _) λ actual.
                      >>=-Keeps f _ _ (call-Keeps f _ _ kept.setup.outside.at_clock) λ read_at.
                        >>=-Keeps f _ _ (record_or_return-Keeps f kept.setup.outside env bundle _ _)
                          λ _.
                            >>=-Keeps f _ _ (or_fail-Keeps f kept.setup.outside env bundle _ _)
                              λ located.
                                locked_or_known f kept.setup env bundle (is_locked bundle located) _
                                  _ _

module _ (env : Environment) where
  outside : IsOutside unfinished
  outside = unfinished-IsAfterReads.setup.outside

  write_if-Keeps :
      (bundle : Bundle) (step : Text) (changed : Bool) (c : Call)
      → unfinished c ≡ true
      → Keeps unfinished (write_if env bundle step changed c)
  unfolding write_if
  write_if-Keeps bundle step false c same = pure-Keeps unfinished tt
  write_if-Keeps bundle step true c same =
      >>=-Keeps unfinished _ _ (call-Keeps unfinished _ _ refl) λ started_at.
        >>=-Keeps unfinished _ _
          (>>=-Keeps unfinished _ _ (call-Keeps unfinished _ _ same)
            (or_fail-Keeps unfinished outside env bundle _))
          λ _. record_or_return-Keeps unfinished outside env bundle _ _

  write_channel-Keeps :
      (bundle : Bundle) (secret : List ℕ) (located : Option ActualChannel)
      → Keeps unfinished (write_channel env bundle secret located)
  unfolding write_channel
  write_channel-Keeps bundle secret none = write_if-Keeps bundle _ _ _ refl
  write_channel-Keeps bundle secret (some c) = write_if-Keeps bundle _ _ _ refl

  look_again-Keeps :
      (bundle : Bundle) (needed : Bool) (located : Option ActualChannel)
      → Keeps unfinished (look_again env bundle needed located)
  unfolding look_again
  look_again-Keeps bundle false located = pure-Keeps unfinished located
  look_again-Keeps bundle true located =
      >>=-Keeps unfinished _ _ (read_state-Keeps unfinished unfinished-IsAfterReads env bundle _)
        λ actual. or_fail-Keeps unfinished outside env bundle _ _

  or_unconfirmed-Keeps :
      (bundle : Bundle) (found : Option ActualChannel)
      → Keeps unfinished (or_unconfirmed env bundle found)
  unfolding or_unconfirmed
  or_unconfirmed-Keeps bundle none =
      finish_failure-Keeps unfinished outside env ActualChannel bundle _ _
  or_unconfirmed-Keeps bundle (some c) = pure-Keeps unfinished c

  bind_if-Keeps :
      (bundle : Bundle) (needed : Bool) (c : ActualChannel)
      → Keeps unfinished (bind_if env bundle needed c)
  unfolding bind_if
  bind_if-Keeps bundle false c = pure-Keeps unfinished tt
  bind_if-Keeps bundle true c = >>=-Keeps unfinished _ _ (call-Keeps unfinished _ _ refl) λ at_time.
      >>=-Keeps unfinished _ _ (call-Keeps unfinished _ _ refl) (or_return-Keeps unfinished)

  first_model-Keeps : (models : List ModelRoute) → Keeps unfinished (first_model models)
  unfolding first_model
  first_model-Keeps [] = record { kept = λ h. none_added }
  first_model-Keeps (m ∷ models) = pure-Keeps unfinished m.model

  activate-Keeps :
      (bundle : Bundle) (secret : List ℕ) (updated : Bool) (c : ActualChannel)
      → Keeps unfinished (activate env bundle secret updated c)
  unfolding activate
  activate-Keeps bundle secret updated c = >>=-Keeps unfinished _ _ (first_model-Keeps _) λ model.
      >>=-Keeps unfinished _ _ (write_if-Keeps bundle _ _ _ refl) λ _.
        >>=-Keeps unfinished _ _ (write_if-Keeps bundle _ _ _ refl)
          λ _. write_if-Keeps bundle _ _ _ refl

  module _ {D : Type 0} (decimal : DecimalPackage D) where
    write_groups-Keeps :
        (bundle : Bundle) (actual : ActualState)
        → Keeps unfinished (write_groups decimal env bundle actual)
    unfolding write_groups
    write_groups-Keeps bundle actual =
        >>=-Keeps unfinished _ _ (or_fail-Keeps unfinished outside env bundle _ _) λ merged.
          >>=-Keeps unfinished _ _ (write_if-Keeps bundle _ _ _ refl)
            λ _. write_if-Keeps bundle _ _ _ refl

    -- No operation is unfinished by the writes.
    pub apply-Keeps :
        (bundle : Bundle) (known : Survey) → Keeps unfinished (apply decimal env bundle known)
    unfolding apply
    apply-Keeps bundle known = >>=-Keeps unfinished _ _ (write_groups-Keeps bundle _) λ _.
        >>=-Keeps unfinished _ _ (write_channel-Keeps bundle _ _) λ _.
          >>=-Keeps unfinished _ _ (look_again-Keeps bundle _ _) λ found.
            >>=-Keeps unfinished _ _ (or_unconfirmed-Keeps bundle found) λ c.
              >>=-Keeps unfinished _ _ (bind_if-Keeps bundle _ c) λ _.
                >>=-Keeps unfinished _ _ (activate-Keeps bundle _ _ c) λ _. pure-Keeps unfinished c
