-- ===== src/Reconciliation/Single/Known.antt =====
-- What Run (internal/application/reconciliation/service.go) knows before its first write to New API.
use many_router.Base.{
  Bool, true, false, Text, Time, if◌then◌else◌, ◌≡◌, refl, sym, ap, ok, ok-injective,
}
use many_router.Reconciliation.Types.{Error, Bundle}
use many_router.Reconciliation.Actions.{
  start_operation, clock, History, Environment, pure, call, or_return, ◌>>=◌, perform,
}
use many_router.Reconciliation.Steps.{finish_failure}
use many_router.Reconciliation.Trace.{
  call-Keeps, >>=-Keeps, or_return-Keeps, Adds, none_added, then_add, quiet, quiet-IsSetup,
  or_fail-Keeps, or_fail_with-Keeps, record_or_return-Keeps,
}
use many_router.Reconciliation.Endings.{
  EndsWith, ends-then, ends-Adds, checked, IsRead, around, read_state-IsRead,
}
use many_router.Reconciliation.Diff.{locate_managed_channel}
use many_router.Reconciliation.Single.{Survey, survey, plan_of, is_locked}
use many_router.Reconciliation.Single.Kept.{decrypted-Keeps, make_gateway-Keeps}

-- What is known after a survey from `h` to `h1`: the state that its only read of New API gave, and
-- the channel that is located in it, which is not locked by hand. Nothing was written.
pub record IsKnown (env : Environment) (bundle : Bundle) (h : History) (known : Survey)
    (h1 : History) : Type 0 where
  pub read : IsRead env h known.actual h1
  pub found :
      locate_managed_channel
        (plan_of bundle).channel
        bundle.managed_channel.external_channel_id
        known.actual.channels
      ≡ ok known.located
  pub unlocked : is_locked bundle known.located ≡ false

unlocked_ends :
    (env : Environment) (bundle : Bundle) (step : Text) (e : Error) (locked : Bool) (k : Survey)
    (h : History) {known : Survey} {h1 : History}
    → EndsWith (if locked then finish_failure env bundle step e else pure k) h known h1
    → (locked ≡ false) × (k ≡ known) × (h ≡ h1)
unfolding finish_failure ◌>>=◌ call
unlocked_ends env bundle step e false k h ends =
    (refl, ok-injective (ap (λ p. p.0) ends), ap (λ p. p.1) ends)
unlocked_ends env bundle step e true k h ends = let bad = ap (λ p. p.0) ends in cc

moved :
    {env : Environment} {bundle : Bundle} {h h1 h2 : History} {k known : Survey}
    → k ≡ known
    → h1 ≡ h2
    → IsKnown env bundle h k h1
    → IsKnown env bundle h known h2
moved {k} same last is = rw (sym same, sym last) is

pub survey-IsKnown :
    (env : Environment) (bundle : Bundle) (started_at : Time) (h : History) {known : Survey}
    {h1 : History}
    → EndsWith (survey env bundle started_at) h known h1
    → IsKnown env bundle h known h1
unfolding survey
survey-IsKnown env bundle started_at h {known} {h1} e =
    let outside = quiet-IsSetup.outside in
    ends-then _ _ h e λ admin ha ea ra. ends-then _ _ ha ra λ secret hb eb rb.
      ends-then _ _ hb rb λ _ hc ec rc. ends-then _ _ hc rc λ version hd ed rd.
        ends-then _ _ hd rd λ _ he ee re. ends-then _ _ he re λ actual hf ef rf.
          ends-then _ _ hf rf λ read_at hg eg rg. ends-then _ _ hg rg λ _ hh eh rh.
            ends-then _ _ hh rh λ located hi ei ri.
              let (unlocked, same, last) =
                unlocked_ends env bundle _ _ (is_locked bundle located) _ hi ri in
              let gateway =
                ends-Adds
                  (>>=-Keeps quiet _ _ (make_gateway-Keeps quiet quiet-IsSetup env bundle admin)
                    (or_fail_with-Keeps quiet outside env bundle _ _))
                  ec in
              let probed =
                ends-Adds
                  (>>=-Keeps quiet _ _ (call-Keeps quiet _ _ refl)
                    (or_fail-Keeps quiet outside env bundle _))
                  ed in
              let first =
                then_add (ends-Adds (decrypted-Keeps quiet quiet-IsSetup env bundle _ _ _) ea) (
                  then_add (ends-Adds (decrypted-Keeps quiet quiet-IsSetup env bundle _ _ _) eb) (
                    then_add gateway (
                      then_add probed
                        (ends-Adds (record_or_return-Keeps quiet outside env bundle _ _) ee)))) in
              let rest = then_add (ends-Adds (call-Keeps quiet _ _ refl) eg) (
                then_add (ends-Adds (record_or_return-Keeps quiet outside env bundle _ _) eh)
                  (ends-Adds (or_fail-Keeps quiet outside env bundle _ _) ei)) in
              moved same last (record {
                read = around first (read_state-IsRead env bundle _ he ef) rest;
                found = checked env bundle _ _ hh ei;
                unlocked = unlocked;
              })

pub preceded :
    {env : Environment} {bundle : Bundle} {h h1 h2 : History} {known : Survey}
    → Adds quiet h h1
    → IsKnown env bundle h1 known h2
    → IsKnown env bundle h known h2
preceded first is = record {
  read = around first is.read none_added;
  found = is.found;
  unlocked = is.unlocked;
}

-- The start of the operation is quiet.
pub started :
    (env : Environment) (step : Text) (h : History) {t : Time} {u : Unit {0}} {h1 h2 : History}
    → EndsWith (call clock env.now) h t h1
    → EndsWith (perform env (start_operation step t) >>= or_return) h1 u h2
    → Adds quiet h h2
started env step h e1 e2 =
    then_add (ends-Adds (call-Keeps quiet _ _ refl) e1)
      (ends-Adds (>>=-Keeps quiet _ _ (call-Keeps quiet _ _ refl) (or_return-Keeps quiet)) e2)
