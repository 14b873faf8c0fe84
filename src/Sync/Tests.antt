-- ===== src/Sync/Tests.antt =====
-- Runs of the lease and of the client's queues, and the theorems at concrete inputs.
use sozan.Common.{ℕ, ◌+◌, ◌≡◌, refl, true, false, ◌&&◌, none, some, [], ◌∷◌, List, map, String}
use sozan.Common.Results.{Result, ok, err, sync_write_in_progress}
use sozan.Common.Interleave.{World}
use sozan.Common.{every, includes, find_first}
use sozan.Sync.Revision.{finalize_workspace_write}
use sozan.Sync.Revision.{
  Server, read_stable_workspace_revision, finalize_row, update_row, reserve_workspace_write,
  with_stable_workspace_read, with_workspace_write,
}
use sozan.Sync.Revision.History.{Site, Step, History, revision_of, is_leased}
use sozan.Sync.Revision.Moments.{Follows, Honest, run_queries}
use sozan.Sync.Revision.Snapshot.{with_stable_workspace_read-snapshot}
use sozan.Sync.Push.{
  SyncMutation, MutationResult, Store, Handler, applied, push, is_duplicate, fails_with,
  apply_mutation, apply_mutations, completed_mutation_ids, partition_by_completed_idempotency,
  run_hooks,
}
use sozan.Sync.Push.Keys.{is_done, insert_or_ignore, mark_done}
use sozan.Sync.Push.Retry.{Pushed, push-Pushed, push_retry}
use sozan.Sync.Revision.Quiet.{with_stable_workspace_read_quiet}
use sozan.Sync.Revision.Lease.{server_at, write_of, with_workspace_write-advances}

-- Another writer holds the lease and has changed the data; it finishes before the first statement.
abbrev writing : Site ℕ
writing = record { server = server_at 3 (some "x") (some 100) 160 7; dirty = true }

abbrev finish : Server ℕ → Server ℕ
finish s = record s { row = update_row (finalize_row "x") s.row }

finish-Honest : Honest finish
finish-Honest s v = (
  record { server = finish s.server; dirty = s.dirty && is_leased (finish s.server).row },
  History.next History.here (Step.finalize "x" refl refl refl),
  refl,
)

abbrev busy_world : World (Server ℕ)
busy_world = (writing.server, finish ∷ [])

busy_world-Follows : Follows writing busy_world
busy_world-Follows = record {
  at = refl;
  sound = record { leased = λ _. refl };
  honest = (finish-Honest, tt);
}

abbrev queries : List (ℕ → ℕ)
queries = (λ n. n) ∷ (λ n. n) ∷ []

stable_read-run :
    (with_stable_workspace_read (run_queries queries) 3 busy_world).0 ≡ ok (4, 7 ∷ 7 ∷ [])
unfolding with_stable_workspace_read run_queries read_stable_workspace_revision
stable_read-run = refl

with_stable_workspace_read-snapshot_example :
    (◌≡◌ {A = ℕ} 4
      (revision_of (with_stable_workspace_read (run_queries queries) 3 busy_world).1.0.row))
    × (7 ∷ 7 ∷ []
        ≡ map
            (λ q. q (with_stable_workspace_read (run_queries queries) 3 busy_world).1.0.store)
            queries)
unfolding with_stable_workspace_read run_queries read_stable_workspace_revision
with_stable_workspace_read-snapshot_example =
    with_stable_workspace_read-snapshot queries 3 writing busy_world {out = (4, 7 ∷ 7 ∷ [])}
      busy_world-Follows refl

abbrev busy_server : Server ℕ
busy_server = server_at 3 (some "x") (some 100) 160 7

abbrev stale_server : Server ℕ
stale_server = server_at 3 (some "x") (some 100) 701 7

abbrev freed_server : Server ℕ
freed_server = server_at 4 none none 701 7

abbrev fails : ℕ → Result ℕ × ℕ
fails n = (err sync_write_in_progress, n + 1)

abbrev free_world : World (Server ℕ)
free_world = (server_at 3 none none 5 7, [])

abbrev written_world : World (Server ℕ)
written_world = (server_at 4 none none 5 8, [])

with_workspace_write-advances_example :
    with_workspace_write "y" (write_of fails) free_world
    ≡ (err sync_write_in_progress, written_world)
with_workspace_write-advances_example = with_workspace_write-advances "y" fails 3 5 7

-- A push of three mutations: one is applied, one has no handler, and one is pushed twice.
abbrev add_one : Handler ℕ
add_one = record { module_key = "core"; apply = λ ws m n. (ok tt, n + 1) }

abbrev mutation : String → String → SyncMutation
mutation id module_key = record {
  id = id;
  workspace_id = "w";
  module_key = module_key;
  operation = "op";
  entity_type = "t";
  entity_id = "e";
  payload = "";
  created_at = "now";
}

abbrev empty_store : Store ℕ
empty_store = record { keys = []; data_of = 0 }

abbrev three : List SyncMutation
three = mutation "a" "core" ∷ mutation "b" "none" ∷ mutation "a" "core" ∷ []

push-run :
    (push (add_one ∷ []) [] "t" "w" 5 three (server_at 5 none none 9 empty_store, [])).0
    ≡ ok (
      record { mutation_id = "a"; status = applied }
          ∷ fails_with "b" "SYNC_MODULE_UNSUPPORTED" false
          ∷ is_duplicate "a"
          ∷ [],
      6,
    )
unfolding push completed_mutation_ids partition_by_completed_idempotency includes is_done find_first
    reserve_workspace_write finalize_workspace_write apply_mutations apply_mutation run_hooks
    mark_done insert_or_ignore
push-run = refl

abbrev two : List SyncMutation
two = mutation "a" "core" ∷ mutation "a" "core" ∷ []

push-Pushed_example : Pushed (add_one ∷ []) [] "w" "t" 5 9 three empty_store
push-Pushed_example = push-Pushed (add_one ∷ []) [] "w" "t" 5 9 three empty_store

abbrev once_pushed : Result (List MutationResult × ℕ) × World (Server (Store ℕ))
once_pushed = push (add_one ∷ []) [] "t" "w" 5 two (server_at 5 none none 9 empty_store, [])

push_retry_example :
    push (add_one ∷ []) [] "u" "w" 2 two once_pushed.1
    ≡ (ok (is_duplicate "a" ∷ is_duplicate "a" ∷ [], 6), once_pushed.1)
unfolding push completed_mutation_ids partition_by_completed_idempotency includes is_done find_first
    reserve_workspace_write finalize_workspace_write apply_mutations apply_mutation run_hooks
    mark_done insert_or_ignore every
push_retry_example =
    push_retry (add_one ∷ []) [] "w" "t" "u" 5 2 9 two empty_store
      {rs = record { mutation_id = "a"; status = applied } ∷ is_duplicate "a" ∷ []} {revision = 6}
      refl refl

with_stable_workspace_read_quiet_example :
    with_stable_workspace_read (run_queries queries) 3 (server_at 4 none none 9 6, [])
    ≡ (ok (4, 6 ∷ 6 ∷ []), (server_at 4 none none 9 6, []))
with_stable_workspace_read_quiet_example = with_stable_workspace_read_quiet queries 2 4 9 6
