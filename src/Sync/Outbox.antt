-- ===== src/Sync/Outbox.antt =====
-- src/client/sync/outbox.ts: the mutations of a device that the server has not acknowledged. The
-- object store is the list of its records in the order of their keys; `id` is its key path.
use Prim.Native.String.{slice}
use sozan.Common.{
  ℕ, ◌+◌, String, Bool, true, false, ◌&&◌, not, Option, none, some, List, [], ◌∷◌, ◌++◌, map,
  select, str_eq, if◌then◌else◌,
}
use sozan.Common.Order.{Collation, sort}

pub data SyncOutboxStatus : Type 0 where
  pending syncing failed dead_letter : SyncOutboxStatus

pub record SyncOutboxRecord : Type 0 where
  pub id : String
  pub workspace_id : String
  pub module_key : String
  pub operation : String
  pub entity_type : String
  pub entity_id : String
  pub payload : String
  pub created_at : String
  pub status : SyncOutboxStatus
  pub attempts : ℕ
  pub last_error : Option String

pub record NewSyncMutation : Type 0 where
  pub workspace_id : String
  pub module_key : String
  pub operation : String
  pub entity_type : String
  pub entity_id : String
  pub payload : String

abbrev pub new_sync_outbox_record : String → String → NewSyncMutation → SyncOutboxRecord
new_sync_outbox_record uuid now input = record {
  id = uuid;
  workspace_id = input.workspace_id;
  module_key = input.module_key;
  operation = input.operation;
  entity_type = input.entity_type;
  entity_id = input.entity_id;
  payload = input.payload;
  created_at = now;
  status = pending;
  attempts = 0;
  last_error = none;
}

abbrev pub enqueue_sync_mutation :
    String → String → NewSyncMutation → List SyncOutboxRecord → List SyncOutboxRecord
enqueue_sync_mutation uuid now input box = box ++ (new_sync_outbox_record uuid now input ∷ [])

-- Still to reach the server: pending or failed.
abbrev pub is_waiting : SyncOutboxRecord → Bool
is_waiting row = elim row.status [
  | pending ↦ true
  | syncing ↦ false
  | failed ↦ true
  | dead_letter ↦ false
]

abbrev pub is_failed : SyncOutboxRecord → Bool
is_failed row = elim row.status [
  | pending ↦ false
  | syncing ↦ false
  | failed ↦ true
  | dead_letter ↦ false
]

abbrev pub is_dead_letter : SyncOutboxRecord → Bool
is_dead_letter row = elim row.status [
  | pending ↦ false
  | syncing ↦ false
  | failed ↦ false
  | dead_letter ↦ true
]

module _ (c : Collation) where
  unfoldable pub list_workspace_sync_mutations :
      String → List SyncOutboxRecord → List SyncOutboxRecord
  list_workspace_sync_mutations workspace_id box =
      sort (λ a b. c.locale_compare a.created_at b.created_at)
        (select (λ row. str_eq row.workspace_id workspace_id) box)

  unfoldable pub list_pending_sync_mutations :
      String → List SyncOutboxRecord → List SyncOutboxRecord
  list_pending_sync_mutations workspace_id box =
      select is_waiting (list_workspace_sync_mutations workspace_id box)

  unfoldable pub list_dead_letter_sync_mutations :
      String → List SyncOutboxRecord → List SyncOutboxRecord
  list_dead_letter_sync_mutations workspace_id box =
      select is_dead_letter (list_workspace_sync_mutations workspace_id box)

unfoldable pub remove_sync_mutation : String → List SyncOutboxRecord → List SyncOutboxRecord
remove_sync_mutation id box = select (λ row. not (str_eq row.id id)) box

-- `{ ...row, status, attempts: row.attempts + 1, lastError: message.slice(0, 500) }`; the messages are codes, of one byte
-- a character.
abbrev pub marked_failed : SyncOutboxStatus → String → SyncOutboxRecord → SyncOutboxRecord
marked_failed status message row = record row {
  status = status;
  attempts = row.attempts + 1;
  last_error = some (slice message 0 500);
}

unfoldable pub update_failure_state :
    String → SyncOutboxStatus → String → List SyncOutboxRecord → List SyncOutboxRecord
update_failure_state id status message box =
    map (λ row. if str_eq row.id id then marked_failed status message row else row) box

abbrev pub fail_sync_mutation : String → String → List SyncOutboxRecord → List SyncOutboxRecord
fail_sync_mutation id message box = update_failure_state id failed message box

abbrev pub dead_letter_sync_mutation :
    String → String → List SyncOutboxRecord → List SyncOutboxRecord
dead_letter_sync_mutation id message box = update_failure_state id dead_letter message box

unfoldable pub retry_dead_letter_sync_mutation :
    String → List SyncOutboxRecord → List SyncOutboxRecord
retry_dead_letter_sync_mutation id box =
    map
      (λ row.
        if str_eq row.id id && is_dead_letter row
        then record row { status = pending; last_error = none }
        else row)
      box
