-- ===== src/Reconciliation/Actions.antt =====
-- The interfaces Store, SiteStore, Gateway and CredentialVault of internal/application/reconciliation
-- (gateway.go, operation.go), as the service calls them, and the flow of an error to the caller.
-- An Environment answers every call by the calls made until then. A panic is an error of its own.
use many_router.Base.{
  ℕ, Bool, true, false, List, [], ◌∷◌, Text, Map, Option, Uuid, Time, Result, ok, err,
}
use many_router.Base.Int.{ℤ}
use many_router.Credential
use many_router.Routing.Types.{DesiredChannel}
use many_router.Reconciliation.Types.{
  Error, ActualState, Operation, Bundle, ResourceConfirmation, StepRecord, FailureRecord,
  ManagedSyncRequest, ManagedSyncCapabilities, ManagedSyncState,
}

pub data Call : Type 0 where
  clock new_id load_bundle acquire_site_lock release_site_lock : Call
  create_operation : (relation id : Uuid) → Time → Call
  dispatch : (operation : Uuid) → Call
  start_operation : (step : Text) → Time → Call
  supersede_operation : Time → Call
  decrypt : Credential.Record → Call
  new_gateway : (base_url : Text) (access_token : List ℕ) (admin_user : Option ℤ) → Call
  probe read_actual_state read_billing_basis : Call
  set_group_ratios set_user_usable_groups : Map Text → Call
  create_channel : DesiredChannel → List ℕ → Call
  update_channel : ℤ → DesiredChannel → List ℕ → Call
  test_channel : ℤ → Text → List ℕ → Call
  set_channel_enabled : ℤ → Bool → Call
  bind_channel : Uuid → ℤ → Time → Call
  record_step : StepRecord → Call
  fail_operation : FailureRecord → Call
  complete_operation : ℤ → Time → Call
  confirm_resource : ResourceConfirmation → Time → Call
  confirm_site_prices complete_site_operation : Time → Call
  read_managed_sync_capabilities read_managed_state managed_sync_approved : Call
  apply_managed_state : ManagedSyncRequest → Call

-- The calls so far, the last one first.
abbrev pub History : Type 0
History = List Call

pub record Environment : Type 0 where
  pub now : History → Time
  pub new_id : History → Uuid
  pub create_operation : History → Result Error Operation
  pub load_bundle : History → Result Error Bundle
  pub acquire_site_lock : History → Result Error Bool
  pub decrypt : History → Result Error (List ℕ)
  pub probe : History → Result Error Text
  pub read_actual_state : History → Result Error ActualState
  -- The hash that ReadBillingBasis gives.
  pub read_billing_basis : History → Result Error Text
  -- The calls that give only an error.
  pub perform : History → Result Error (Unit {0})
  -- There is a dispatcher.
  pub has_dispatcher : Bool
  -- The store is a SiteStore, the factory a SiteGatewayFactory, the gateway a BillingBasisReader.
  pub has_site_store : Bool
  pub has_site_gateways : Bool
  pub has_billing_basis : Bool
  -- The gateway is a ManagedSyncGateway, the store a ManagedSyncApprovalStore.
  pub is_managed_gateway : Bool
  pub has_approvals : Bool
  pub read_managed_sync_capabilities : History → Result Error ManagedSyncCapabilities
  pub managed_sync_approved : History → Result Error Bool
  pub read_managed_state : History → Result Error ManagedSyncState
  -- The state in the result of ApplyManagedState.
  pub apply_managed_state : History → Result Error ManagedSyncState

-- What a function of the service returns to its caller: no error, or the errors joined.
abbrev pub Return : Type 0
Return = List Error

-- A step of a function: it goes on with a value, or the function returns.
abbrev pub Action {ℓ} : Type ℓ → Type ℓ
Action A = History → Result Return A × History

module _ {ℓ} {A : Type ℓ} where
  abbrev pub pure : A → Action A
  pure a h = (ok a, h)

  abbrev pub return_with : Return → Action A
  return_with errors h = (err errors, h)

  -- A call, with what it answers.
  unfoldable pub call : Call → (History → A) → Action A
  call c answer h = (ok (answer (c ∷ h)), c ∷ h)

  -- `if err != nil { return err }`
  abbrev pub or_return : Result Error A → Action A
  or_return (ok a) = pure a
  or_return (err e) = return_with (e ∷ [])

abbrev pub after {ℓ κ} :
    {A : Type ℓ} {B : Type κ}
    → (A → Action B)
    → Result Return A × History
    → Result Return B × History
after f (ok a, h) = f a h
after f (err errors, h) = (err errors, h)

infixl 5 ◌>>=◌ ◌>>◌
unfoldable pub ◌>>=◌ {ℓ κ} : {A : Type ℓ} {B : Type κ} → Action A → (A → Action B) → Action B
◌>>=◌ m f h = after f (m h)

abbrev pub ◌>>◌ {κ} : {B : Type κ} → Action (Unit {0}) → Action B → Action B
m >> k = m >>= λ _. k

-- `if test { return errors }`
abbrev pub return_if : Bool → Return → Action (Unit {0})
return_if true errors = return_with errors
return_if false errors = pure tt

abbrev pub now : Environment → Action Time
now env = call clock env.now

-- A call that gives only an error.
abbrev pub perform : Environment → Call → Action (Result Error (Unit {0}))
perform env c = call c env.perform
