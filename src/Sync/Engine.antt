-- ===== src/Sync/Engine.antt =====
-- src/client/sync/engine.ts: one run of the synchronisation of a workspace on a device. The answers
-- of the server and the replacement of the local tables by a snapshot are parameters. The commands of
-- the device take no lock of the workspace, so each transaction of a run on the local stores is a
-- statement, before which others may have changed all of them; a request is awaited between two.
pub mod Runs
mod Tests
use sozan.Common.{
  ℕ, ◌+◌, max, ltb, String, Bool, true, false, not, Option, none, some, List, [], ◌∷◌, length,
  select, if◌then◌else◌, or_default,
}
use sozan.Common.Results.{Result, ok, err, Error, cloud_initialization_incomplete}
use sozan.Common.Order.{Collation}
use sozan.Common.Exec.{Exec, pure, lift, ◌>>=◌, ◌>>◌}
use sozan.Common.Interleave.{World, statement}
use sozan.Sync.Push.{MutationResult, Status, applied, duplicate, failed}
use sozan.Sync.Outbox.{
  SyncOutboxRecord, list_pending_sync_mutations, list_dead_letter_sync_mutations,
  remove_sync_mutation, fail_sync_mutation, dead_letter_sync_mutation, is_failed,
}
use sozan.Sync.Operation.{Shared, with_workspace_operation, on_content}

-- The link of a workspace to the cloud, as far as the engine uses it.
pub record CloudLink : Type 0 where
  pub provisioning : Bool
  pub server_revision : ℕ
  pub last_cloud_push_at : Option String
  pub last_cloud_pull_at : Option String

-- The stores of the device: the outbox, the link and the other tables.
pub record Local (T : Type 0) : Type 0 where
  pub outbox : List SyncOutboxRecord
  pub link : Option CloudLink
  pub tables : T

pub record PushResponse : Type 0 where
  pub results : List MutationResult
  pub server_time : String
  pub revision : ℕ

pub record Snapshot (T : Type 0) : Type 0 where
  pub generated_at : String
  pub revision : ℕ
  -- `applySnapshot`, the change that it makes to the tables.
  pub apply : T → T

pub record SyncRunResult : Type 0 where
  pub pushed : ℕ
  pub pulled : Bool
  pub pending : ℕ
  pub failed : ℕ
  pub dead_letters : ℕ
  pub synced_at : Option String

-- One result of a push: what it does to the outbox, and whether it counts as pushed or as failed.
abbrev pub settle_result : MutationResult → List SyncOutboxRecord → List SyncOutboxRecord
settle_result result box = elim result.status [
  | applied ↦ remove_sync_mutation result.mutation_id box
  | duplicate ↦ remove_sync_mutation result.mutation_id box
  | failed error retryable ↦
      if retryable
      then fail_sync_mutation result.mutation_id error box
      else dead_letter_sync_mutation result.mutation_id error box
]

abbrev pub counts_pushed : MutationResult → ℕ
counts_pushed result = elim result.status [
  | applied ↦ 1
  | duplicate ↦ 1
  | failed error retryable ↦ 0
]

abbrev pub counts_failed : MutationResult → ℕ
counts_failed result = elim result.status [
  | applied ↦ 0
  | duplicate ↦ 0
  | failed error retryable ↦ if retryable then 1 else 0
]

module _ {T : Type 0} where
  abbrev pub update_cloud_link : (CloudLink → CloudLink) → Local T → Local T
  update_cloud_link f l = record l {
    link = elim l.link [ none ↦ none | some link ↦ some (f link) ];
  }

  -- `row?.initializationState === 'provisioning'`
  abbrev pub is_provisioning : Local T → Bool
  is_provisioning l = elim l.link [ none ↦ false | some link ↦ link.provisioning ]

  -- A transaction that reads, and one that writes.
  abbrev pub ask : {A : Type 0} → (Local T → A) → Exec (World (Local T)) A
  ask q = statement (λ l. (ok (q l), l))

  abbrev pub change : (Local T → Local T) → Exec (World (Local T)) (Unit {0})
  change f = statement (λ l. (ok tt, f l))

  abbrev pub assert_cloud_initialization_ready : Exec (World (Local T)) (Unit {0})
  assert_cloud_initialization_ready = ask is_provisioning >>= λ provisioning.
      lift (if provisioning then err cloud_initialization_incomplete else ok tt)

  abbrev pub cloud_revision : Local T → ℕ
  cloud_revision l = elim l.link [ none ↦ 0 | some link ↦ link.server_revision ]

  -- The loop over the results: `pushed` and `failed`.
  unfoldable pub settle_results : List MutationResult → Exec (World (Local T)) (ℕ × ℕ)
  settle_results [] = pure (0, 0)
  settle_results (r ∷ rs) = do
    change (λ l. record l { outbox = settle_result r l.outbox })
    counts ← settle_results rs
    pure (counts_pushed r + counts.0, counts_failed r + counts.1)

  -- The answer of a push, worked into the stores: `pushed` and `failed`.
  unfoldable pub take_response : PushResponse → Exec (World (Local T)) (ℕ × ℕ)
  take_response response = do
    counts ← settle_results response.results
    change (
        update_cloud_link (λ link. record link {
          server_revision = response.revision;
          last_cloud_push_at =
              if ltb 0 counts.0 then some response.server_time else link.last_cloud_push_at;
        }))
    pure counts

module _ {T : Type 0} (post_push : ℕ → List SyncOutboxRecord → Result PushResponse) where
  -- `if (pending.length) { ... }`
  unfoldable pub push_pending : List SyncOutboxRecord → Exec (World (Local T)) (ℕ × ℕ)
  push_pending [] = pure (0, 0)
  push_pending (row ∷ rows) = do
    base_revision ← ask cloud_revision
    response ← lift (post_push base_revision (row ∷ rows))
    take_response response

module _ {T : Type 0} (get_snapshot : Result (Snapshot T)) where
  abbrev pub take_snapshot : ℕ → ℕ → Exec (World (Local T)) SyncRunResult
  take_snapshot pushed dead_letters = do
    snapshot ← lift get_snapshot
    change (λ l. record l { tables = snapshot.apply l.tables })
    change (
        update_cloud_link (λ link. record link {
          last_cloud_pull_at = some snapshot.generated_at;
          server_revision = snapshot.revision;
        }))
    pure (record {
      pushed = pushed;
      pulled = true;
      pending = 0;
      failed = 0;
      dead_letters = dead_letters;
      synced_at = some snapshot.generated_at;
    })

  -- The part after the push.
  abbrev pub finish_run : ℕ × ℕ → ℕ → List SyncOutboxRecord → Exec (World (Local T)) SyncRunResult
  finish_run counts dead_letters [] = take_snapshot counts.0 dead_letters
  finish_run counts dead_letters (row ∷ rows) = pure (record {
    pushed = counts.0;
    pulled = false;
    pending = length (row ∷ rows);
    failed = max counts.1 (length (select is_failed (row ∷ rows)));
    dead_letters = dead_letters;
    synced_at = none;
  })

module _ {T : Type 0} (c : Collation) (post_push : ℕ → List SyncOutboxRecord → Result PushResponse)
    (get_snapshot : Result (Snapshot T)) where
  unfoldable pub run_workspace_sync_unlocked : String → Exec (World (Local T)) SyncRunResult
  unfolding push_pending
  run_workspace_sync_unlocked workspace_id = do
    assert_cloud_initialization_ready
    waiting ← ask (λ l. list_pending_sync_mutations c workspace_id l.outbox)
    counts ← push_pending post_push waiting
    remaining ← ask (λ l. list_pending_sync_mutations c workspace_id l.outbox)
    dead ← ask (λ l. list_dead_letter_sync_mutations c workspace_id l.outbox)
    finish_run get_snapshot counts (length dead) remaining

  unfoldable pub run_workspace_sync :
      (ℕ → String) → String → Exec (Shared (World (Local T))) SyncRunResult
  run_workspace_sync uuid workspace_id =
      with_workspace_operation uuid workspace_id "sync"
        (on_content (run_workspace_sync_unlocked workspace_id))
