-- ===== src/Sync/Push/Keys.antt =====
-- src/server/sync/routes.ts: the table core_idempotency_keys, and which errors end a mutation for good.
use sozan.Common.{
  String, Bool, true, false, ◌&&◌, ◌||◌, ◌≡◌, Option, none, some, is_some, List, [], ◌∷◌, map,
  find_first, includes, str_eq, if◌then◌else◌, arith, eq_iff, refl, inl, inr, Bool-cases,
}
use text.Mathlib.TextPositions.{eq_refl}
use sozan.Common.Results.{
  billing_cycle_insert_failed, opening_progress_locked, billing_cycle_not_found,
  package_cycle_already_complete, package_position_conflict, package_plan_invalid,
  billing_mode_locked, opening_progress_exceeds_package, unique_constraint_failed, Error,
  package_price_invalid, package_size_invalid, package_position_outside, count_invalid,
  opening_exceeds_size, progress_exceeds_size, receipt_amount_invalid, receipt_without_payer,
  receipt_id_conflict, allocation_amount_invalid, allocation_conflict, receipt_not_found,
  receipt_allocation_exceeds_amount, receipt_overallocated, sync_write_in_progress,
  sync_write_lease_lost, sync_snapshot_unstable, sync_revision_conflict, sync_workspace_mismatch,
  sync_module_unsupported, workspace_operation_busy, auth_rate_limited,
  cloud_initialization_incomplete, schedule_conflict, billing_cycle_completion_date_missing,
  client_id_invalid, login_name_invalid, name_required, login_name_taken, account_bootstrap_failed,
  invalid_credentials, account_temporarily_locked, account_not_found, unauthenticated,
  recovery_failed, password_policy, workspace_forbidden, workspace_read_only,
  database_not_configured, zod_error, not_an_error, message,
}

-- A row: its primary key, and whether its status is 'done' or still 'pending'.
pub record Key : Type 0 where
  pub workspace_id : String
  pub idempotency_key : String
  pub done : Bool

abbrev pub is_key : String → String → Key → Bool
is_key workspace_id id key = str_eq key.workspace_id workspace_id && str_eq key.idempotency_key id

-- `previous?.status === 'done'`
abbrev pub has_done : Option Key → Bool
has_done none = false
has_done (some key) = key.done

unfoldable pub is_done : String → String → List Key → Bool
is_done workspace_id id keys = has_done (find_first (is_key workspace_id id) keys)

-- `INSERT OR IGNORE ... VALUES(?1,?2,...,'pending')`
unfoldable pub insert_or_ignore : String → String → List Key → List Key
insert_or_ignore workspace_id id keys =
    if is_some (find_first (is_key workspace_id id) keys)
    then keys
    else record { workspace_id = workspace_id; idempotency_key = id; done = false } ∷ keys

abbrev pub marked : String → String → Key → Key
marked workspace_id id key = record {
  workspace_id = key.workspace_id;
  idempotency_key = key.idempotency_key;
  done = is_key workspace_id id key || key.done;
}

-- `UPDATE core_idempotency_keys SET status='done' WHERE workspace_id=?1 AND idempotency_key=?2`
unfoldable pub mark_done : String → String → List Key → List Key
mark_done workspace_id id keys = map (marked workspace_id id) keys

abbrev pub message_of : Error → String
message_of package_price_invalid = "Package price must be non-negative integer pence"
message_of package_size_invalid = "Package size must be an integer between 1 and 100"
message_of package_position_outside = "Package position is outside the cycle"
message_of count_invalid = "count must be a non-negative integer"
message_of opening_exceeds_size = "Opening progress cannot exceed package size"
message_of progress_exceeds_size = "Package progress cannot exceed package size"
message_of receipt_amount_invalid = "Receipt amount must be positive integer pence"
message_of receipt_without_payer = "Receipt requires a payer or a source entity"
message_of receipt_id_conflict = "RECEIPT_ID_CONFLICT"
message_of allocation_amount_invalid = "ALLOCATION_AMOUNT_INVALID"
message_of allocation_conflict = "ALLOCATION_CONFLICT"
message_of receipt_not_found = "RECEIPT_NOT_FOUND"
message_of receipt_allocation_exceeds_amount = "RECEIPT_ALLOCATION_EXCEEDS_AMOUNT"
message_of receipt_overallocated = "RECEIPT_OVERALLOCATED"
message_of sync_write_in_progress = "SYNC_WRITE_IN_PROGRESS"
message_of sync_write_lease_lost = "SYNC_WRITE_LEASE_LOST"
message_of sync_snapshot_unstable = "SYNC_SNAPSHOT_UNSTABLE"
message_of sync_revision_conflict = "SYNC_REVISION_CONFLICT"
message_of sync_workspace_mismatch = "SYNC_WORKSPACE_MISMATCH"
message_of sync_module_unsupported = "SYNC_MODULE_UNSUPPORTED"
message_of workspace_operation_busy = "WORKSPACE_OPERATION_BUSY"
message_of auth_rate_limited = "AUTH_RATE_LIMITED"
message_of cloud_initialization_incomplete = "CLOUD_INITIALIZATION_INCOMPLETE"
message_of schedule_conflict = "SCHEDULE_CONFLICT"
message_of billing_cycle_insert_failed = "BILLING_CYCLE_INSERT_FAILED"
message_of opening_progress_locked = "OPENING_PROGRESS_LOCKED_BY_REAL_LESSONS"
message_of billing_cycle_not_found = "BILLING_CYCLE_NOT_FOUND"
message_of package_cycle_already_complete = "PACKAGE_CYCLE_ALREADY_COMPLETE"
message_of package_position_conflict = "PACKAGE_POSITION_CONFLICT"
message_of package_plan_invalid = "PACKAGE_PLAN_INVALID"
message_of billing_mode_locked = "BILLING_MODE_LOCKED_BY_HISTORY"
message_of opening_progress_exceeds_package = "OPENING_PROGRESS_EXCEEDS_PACKAGE"
message_of unique_constraint_failed = "UNIQUE constraint failed"
message_of billing_cycle_completion_date_missing = "BILLING_CYCLE_COMPLETION_DATE_MISSING"
message_of client_id_invalid = "CLIENT_ID_INVALID"
message_of login_name_invalid = "LOGIN_NAME_INVALID"
message_of name_required = "NAME_REQUIRED"
message_of login_name_taken = "LOGIN_NAME_TAKEN"
message_of account_bootstrap_failed = "ACCOUNT_BOOTSTRAP_FAILED"
message_of invalid_credentials = "INVALID_CREDENTIALS"
message_of account_temporarily_locked = "ACCOUNT_TEMPORARILY_LOCKED"
message_of account_not_found = "ACCOUNT_NOT_FOUND"
message_of unauthenticated = "UNAUTHENTICATED"
message_of recovery_failed = "RECOVERY_FAILED"
message_of password_policy = "PASSWORD_POLICY"
message_of workspace_forbidden = "WORKSPACE_FORBIDDEN"
message_of workspace_read_only = "WORKSPACE_READ_ONLY"
message_of database_not_configured = "DATABASE_NOT_CONFIGURED"
message_of zod_error = "INVALID_SYNC_PAYLOAD"
message_of not_an_error = "SYNC_MUTATION_FAILED"
message_of (message text) = text

abbrev pub terminal_mutation_errors : List String
terminal_mutation_errors =
    "SYNC_WORKSPACE_MISMATCH" ∷ "SYNC_MODULE_UNSUPPORTED" ∷ "SYNC_OPERATION_UNSUPPORTED"
    ∷ "STUDENT_NOT_FOUND" ∷ "SESSION_NOT_FOUND" ∷ "SESSION_ARCHIVED"
    ∷ "SESSION_FINANCE_LOCKED_BY_HISTORY" ∷ "SCHEDULE_DAY_REQUIRED" ∷ "SCHEDULE_TIME_REQUIRED"
    ∷ "BILLING_MODE_LOCKED_BY_HISTORY" ∷ "OPENING_PROGRESS_EXCEEDS_PACKAGE"
    ∷ "OPENING_PROGRESS_LOCKED_BY_REAL_LESSONS" ∷ "OCCURRENCE_NOT_FOUND"
    ∷ "OCCURRENCE_STATE_INVALID" ∷ "COMPLETED_REQUIRES_CORRECTION_FLOW"
    ∷ "OCCURRENCE_PARTICIPANT_INVALID" ∷ "OCCURRENCE_PARTICIPANT_REQUIRED" ∷ "SCHEDULE_CONFLICT"
    ∷ "PACKAGE_CYCLE_ALREADY_COMPLETE" ∷ "RECEIPT_ID_CONFLICT" ∷ "RECEIPT_NOT_FOUND"
    ∷ "RECEIPT_OVERALLOCATED" ∷ "RECEIPT_ALLOCATION_EXCEEDS_AMOUNT" ∷ "ALLOCATION_CONFLICT"
    ∷ "ALLOCATION_AMOUNT_INVALID" ∷ "COMPLETED_APPOINTMENT_REQUIRES_REOPEN"
    ∷ "FUTURE_ATTENDANCE_NOT_ALLOWED" ∷ "FUTURE_APPOINTMENT_COMPLETION_NOT_ALLOWED"
    ∷ "WORKSPACE_TIMEZONE_INVALID" ∷ []

-- `error` of `classifyMutationError`.
abbrev pub classified_code : Error → String
classified_code error = message_of error

-- `!retryable` of `classifyMutationError`.
abbrev pub is_terminal : Error → Bool
is_terminal zod_error = true
is_terminal error = includes (message_of error) terminal_mutation_errors

not_present : (o : Option Key) → is_some o ≡ false → has_done o ≡ false
not_present none h = refl
not_present (some k) h = cc

-- A key that is done stays done.
pub insert_or_ignore_keeps :
    (ws id ws' id' : String) (keys : List Key)
    → is_done ws id keys ≡ true
    → is_done ws id (insert_or_ignore ws' id' keys) ≡ true
unfolding is_done insert_or_ignore find_first
insert_or_ignore_keeps ws id ws' id' keys h =
    elim (Bool-cases (is_some (find_first (is_key ws' id') keys))) [
      | inl there ↦ rw there h
      | inr absent ↦
          rw absent
            (elim (Bool-cases
              (is_key ws id (record { workspace_id = ws'; idempotency_key = id'; done = false }))) [
                | inr other ↦ rw other h
                | inl same ↦
                    let p : ws ≡ ws' = ground (arith, eq_iff ws' ws) in
                    let q : id ≡ id' = ground (arith, eq_iff id' id) in
                    cc (rw (p, q, not_present _ absent) at h)
              ])
    ]

marked_done : (ws id ws' id' : String) (k : Key) → k.done ≡ true → (marked ws' id' k).done ≡ true
marked_done ws id ws' id' k h = rw h (ground arith)

pub mark_done_keeps :
    (ws id ws' id' : String) (keys : List Key)
    → is_done ws id keys ≡ true
    → is_done ws id (mark_done ws' id' keys) ≡ true
unfolding is_done mark_done find_first
mark_done_keeps ws id ws' id' [] h = h
mark_done_keeps ws id ws' id' (k ∷ ks) h = elim (Bool-cases (is_key ws id k)) [
  | inl same ↦ rw same (marked_done ws id ws' id' k (rw (same, is_done) at h))
  | inr other ↦ rw other (mark_done_keeps ws id ws' id' ks (rw (other, is_done) at h))
]

-- A key that was put in and marked is done.
mark-present :
    (ws id : String) (keys : List Key)
    → is_some (find_first (is_key ws id) keys) ≡ true
    → is_done ws id (mark_done ws id keys) ≡ true
unfolding is_done mark_done find_first
mark-present ws id [] h = cc
mark-present ws id (k ∷ ks) h = elim (Bool-cases (is_key ws id k)) [
  | inl same ↦ rw same
  | inr other ↦ rw other (mark-present ws id ks (rw other at h))
]

insert-present :
    (ws id : String) (keys : List Key)
    → is_some (find_first (is_key ws id) (insert_or_ignore ws id keys)) ≡ true
unfolding insert_or_ignore find_first
insert-present ws id keys = elim (Bool-cases (is_some (find_first (is_key ws id) keys))) [
  | inl there ↦ rw there there
  | inr absent ↦ rw (absent, eq_refl ws, eq_refl id)
]

pub mark_done-insert_or_ignore :
    (ws id : String) (keys : List Key)
    → is_done ws id (mark_done ws id (insert_or_ignore ws id keys)) ≡ true
mark_done-insert_or_ignore ws id keys = mark-present ws id _ (insert-present ws id keys)
