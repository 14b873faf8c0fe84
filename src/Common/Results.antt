-- ===== src/Common/Results.antt =====
-- Errors as values. `Error` has one constructor for each message that the modelled code throws.
use mathlib.Core.Path.{◌≡◌, refl}
use mathlib.Core.Logic.{◌⊎◌, inl, inr}
use mathlib.Core.Bool.{Bool, true, false}

pub data Error : Type 0 where
  -- billing.ts
  package_price_invalid package_size_invalid package_position_outside : Error
  count_invalid opening_exceeds_size progress_exceeds_size : Error
  -- contracts.ts, finance.gateway.ts, allocation.service.ts
  receipt_amount_invalid receipt_without_payer receipt_id_conflict : Error
  allocation_amount_invalid allocation_conflict receipt_not_found : Error
  receipt_allocation_exceeds_amount receipt_overallocated : Error
  -- workspace-revision.ts
  sync_write_in_progress sync_write_lease_lost sync_snapshot_unstable : Error
  sync_revision_conflict : Error
  -- sync/routes.ts, sync/contracts.ts
  sync_workspace_mismatch sync_module_unsupported : Error
  -- workspace-operation.ts, engine.ts
  workspace_operation_busy cloud_initialization_incomplete auth_rate_limited : Error
  -- tutoring-billing.repository.ts, billing.service.ts
  billing_cycle_insert_failed opening_progress_locked billing_cycle_not_found : Error
  package_cycle_already_complete package_position_conflict package_plan_invalid : Error
  billing_mode_locked opening_progress_exceeds_package unique_constraint_failed : Error
  -- schedule-conflict.ts
  schedule_conflict : Error
  -- financial-reconcile.ts
  billing_cycle_completion_date_missing : Error
  -- auth/service.ts, auth/security.ts, auth/guard.ts
  client_id_invalid login_name_invalid name_required login_name_taken : Error
  account_bootstrap_failed invalid_credentials account_temporarily_locked : Error
  account_not_found unauthenticated recovery_failed password_policy : Error
  workspace_forbidden workspace_read_only database_not_configured : Error
  -- A failed schema of the validation library, a thrown value that is no `Error`, and an `Error`
  -- with any other message.
  zod_error not_an_error : Error
  message : Prim.Native.String.String → Error

-- What a function of the source comes to: it returns a value, or it throws.
pub data Result {ℓ} (Value : Type ℓ) : Type ℓ where
  err : Error → Result Value
  ok : Value → Result Value

abbrev pub is_ok {ℓ} : {V : Type ℓ} → Result V → Bool
is_ok (err thrown) = false
is_ok (ok value) = true

-- `if (bad) throw new Error(e);`
abbrev pub throw_if : Bool → Error → Result (Unit {0})
throw_if true e = err e
throw_if false e = ok tt

module _ {ℓ κ} {V : Type ℓ} {W : Type κ} where
  infixl 5 ◌>>=◌
  abbrev pub ◌>>=◌ : Result V → (V → Result W) → Result W
  err thrown >>= next = err thrown
  ok value >>= next = next value

module _ {κ} {W : Type κ} where
  infixl 5 ◌>>◌
  abbrev pub ◌>>◌ : Result (Unit {0}) → Result W → Result W
  check >> next = check >>= λ _. next

-- A result is one of the two.
pub Result-cases {ℓ} :
    {V : Type ℓ} (result : Result V)
    → ((value : V) × (result ≡ ok value)) ⊎ ((thrown : Error) × (result ≡ err thrown))
Result-cases (err thrown) = inr (thrown, refl)
Result-cases (ok value) = inl (value, refl)
