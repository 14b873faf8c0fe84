-- ===== src/Sync/Engine/Tests.antt =====
-- Runs of the engine, and the theorems at concrete inputs.
use Prim.Native.Nat.{Ordering}
use sozan.Common.{ℕ, ◌≡◌, ◌+◌, refl, String, false, none, some, List, [], ◌∷◌, select}
use sozan.Common.Results.{Result, ok}
use sozan.Common.Order.{Collation}
use sozan.Sync.Push.{MutationResult, Status, applied}
use sozan.Sync.Outbox.{
  SyncOutboxRecord, pending, list_pending_sync_mutations, list_workspace_sync_mutations,
}
use sozan.Sync.Engine.{Local, PushResponse, Snapshot, run_workspace_sync_unlocked}
use sozan.Common.Interleave.{World}
use sozan.Common.Interleave.Triples.{Outcome, Holds}
use sozan.Sync.Engine.Runs.{IsAside, Ended, run_workspace_sync-Outcome}

abbrev row : String → SyncOutboxRecord
row id = record {
  id = id;
  workspace_id = "w";
  module_key = "core";
  operation = "op";
  entity_type = "t";
  entity_id = "e";
  payload = "p";
  created_at = "now";
  status = pending;
  attempts = 0;
  last_error = none;
}

abbrev answers : List MutationResult
answers =
    record { mutation_id = "a"; status = applied }
    ∷ record { mutation_id = "b"; status = Status.failed "SYNC_REVISION_CONFLICT" false }
    ∷ []

-- Any order serves for one mutation.
abbrev device : Local ℕ
device = record {
  outbox = row "a" ∷ [];
  tables = 3;
  link = some (record {
    provisioning = false;
    server_revision = 4;
    last_cloud_push_at = none;
    last_cloud_pull_at = none;
  });
}

abbrev answer : ℕ → List SyncOutboxRecord → Result PushResponse
answer base rows = ok (record {
  results = record { mutation_id = "a"; status = applied } ∷ [];
  server_time = "t";
  revision = base + 1;
})

abbrev snapshot : Result (Snapshot ℕ)
snapshot = ok (record { generated_at = "u"; revision = 5; apply = λ n. 8 })

-- No two of these texts differ for this order.
abbrev all_alike : Collation
all_alike = record {
  locale_compare = λ a b. Ordering.eq;
  compare_flip = λ a b. refl;
  compare_trans = λ a b d h k. refl;
}

-- Before the first transaction another part of the device enqueues a mutation of another workspace.
abbrev elsewhere : Local ℕ → Local ℕ
elsewhere l = record l { outbox = record (row "z") { workspace_id = "v" } ∷ l.outbox }

abbrev busy : World (Local ℕ)
busy = (device, elsewhere ∷ [])

elsewhere-IsAside : IsAside all_alike (λ n. n ≡ 3) "w" elsewhere
unfolding list_pending_sync_mutations list_workspace_sync_mutations select
elsewhere-IsAside = record { waits = λ l. refl; keeps = λ l h. h }

busy-Holds : Holds (IsAside all_alike (λ n. n ≡ 3) "w") (λ l. l.tables ≡ 3) busy
busy-Holds = record { here = refl; others = (elsewhere-IsAside, tt) }

run_workspace_sync-Outcome_example :
    Outcome
      (Ended all_alike (λ n. n ≡ 3) "w")
      (λ l. l.tables ≡ 3)
      (run_workspace_sync_unlocked all_alike answer snapshot "w" busy).0
      (run_workspace_sync_unlocked all_alike answer snapshot "w" busy).1.0
run_workspace_sync-Outcome_example =
    run_workspace_sync-Outcome all_alike (λ n. n ≡ 3) "w" answer snapshot busy busy-Holds

-- A command of the device: it changes the tables and enqueues its mutation.
abbrev command : Local ℕ → Local ℕ
command l = record l { outbox = row "b" ∷ l.outbox; tables = 6 }

abbrev settled : Local ℕ
settled = record device { outbox = [] }
