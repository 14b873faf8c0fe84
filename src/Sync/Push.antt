-- ===== src/Sync/Push.antt =====
-- src/server/sync/routes.ts, with contracts.ts and revision-policy.ts: the push of a device's
-- mutations. A mutation is known by its idempotency key; one that is done is acknowledged and never
-- applied again. The handlers of the domains and the hooks after them are parameters: each works on
-- the data of its workspace as one step, under the lease.
pub mod Keys
pub mod Applied
pub mod Retry
use sozan.Common.{
  ℕ, ◌+◌, ltb, String, Bool, true, false, ◌&&◌, ◌||◌, not, Option, none, some, is_some, List, [],
  ◌∷◌, map, length, find_first, includes, str_eq, if◌then◌else◌,
}
use sozan.Common.Results.{
  Result, ok, err, Error, sync_write_in_progress, sync_revision_conflict, sync_workspace_mismatch,
  sync_module_unsupported,
}
use sozan.Common.Exec.{Exec, pure, throw, continue, ◌>>=◌, ◌>>◌}
use sozan.Common.Interleave.{World, statement}
use sozan.Sync.Revision.{
  Server, Reservation, granted, refused, reserve_workspace_write, finalize_workspace_write,
  read_stable_workspace_revision,
}
use sozan.Sync.Push.Keys.{
  Key, is_done, insert_or_ignore, mark_done, message_of, is_terminal, classified_code,
}

pub record SyncMutation : Type 0 where
  pub id : String
  pub workspace_id : String
  pub module_key : String
  pub operation : String
  pub entity_type : String
  pub entity_id : String
  pub payload : String
  pub created_at : String

pub data Status : Type 0 where
  applied duplicate : Status
  failed : String → Bool → Status

pub record MutationResult : Type 0 where
  pub mutation_id : String
  pub status : Status

-- What the statements of a push see: the idempotency keys and the data of the domains.
pub record Store (D : Type 0) : Type 0 where
  pub keys : List Key
  pub data_of : D

pub record Handler (D : Type 0) : Type 0 where
  pub module_key : String
  pub apply : String → SyncMutation → Exec D (Unit {0})

pub record Hook (D : Type 0) : Type 0 where
  pub supports : SyncMutation → Bool
  pub after_apply : String → SyncMutation → Exec D (Unit {0})

pub record IdempotencyPartition : Type 0 where
  pub done : List SyncMutation
  pub unapplied : List SyncMutation

-- `partitionByCompletedIdempotency`
unfoldable pub partition_by_completed_idempotency :
    List SyncMutation → List String → IdempotencyPartition
partition_by_completed_idempotency [] completed = record { done = []; unapplied = [] }
partition_by_completed_idempotency (m ∷ ms) completed =
    let rest = partition_by_completed_idempotency ms completed in
    if includes m.id completed
    then record { done = m ∷ rest.done; unapplied = rest.unapplied }
    else record { done = rest.done; unapplied = m ∷ rest.unapplied }

abbrev pub requires_revision_reservation : IdempotencyPartition → Bool
requires_revision_reservation partition = ltb 0 (length partition.unapplied)

abbrev pub fails_with : String → String → Bool → MutationResult
fails_with id error retryable = record { mutation_id = id; status = failed error retryable }

abbrev pub is_duplicate : String → MutationResult
is_duplicate id = record { mutation_id = id; status = duplicate }

-- `classifyMutationError`, as the result of the mutation.
abbrev pub classified : String → Error → MutationResult
classified id error = fails_with id (classified_code error) (not (is_terminal error))

-- The `finally`: an error of the release goes before the results.
abbrev pub finished : Result (List MutationResult) → Result ℕ → Result (List MutationResult × ℕ)
finished results (err e) = err e
finished (err e) (ok revision) = err e
finished (ok results) (ok revision) = ok (results, revision)

module _ {D : Type 0} where
  -- A step of the domains, on the data alone.
  abbrev pub on_data : Exec D (Unit {0}) → Exec (World (Server (Store D))) (Unit {0})
  on_data f = statement (λ s. (
    (f s.store.data_of).0,
    record s { store = record s.store { data_of = (f s.store.data_of).1 } },
  ))

  abbrev pub on_keys : (List Key → List Key) → Exec (World (Server (Store D))) (Unit {0})
  on_keys f =
      statement (λ s. (ok tt, record s { store = record s.store { keys = f s.store.keys } }))

  abbrev pub read_done : String → String → Exec (World (Server (Store D))) Bool
  read_done workspace_id id = statement (λ s. (ok (is_done workspace_id id s.store.keys), s))

  unfoldable pub run_hooks :
      List (Hook D) → String → SyncMutation → Exec (World (Server (Store D))) (Unit {0})
  run_hooks [] workspace_id mutation = pure tt
  run_hooks (hook ∷ rest) workspace_id mutation =
      let others = run_hooks rest workspace_id mutation in
      if hook.supports mutation
      then on_data (hook.after_apply workspace_id mutation) >> others
      else others

  -- The `try` with its `catch`.
  abbrev pub result_of :
      String
      → Result (Unit {0}) × World (Server (Store D))
      → Result MutationResult × World (Server (Store D))
  result_of id (ok u, w) = (ok (record { mutation_id = id; status = applied }), w)
  result_of id (err e, w) = (ok (classified id e), w)

  unfoldable pub completed_mutation_ids :
      String → List SyncMutation → Exec (World (Server (Store D))) (List String)
  completed_mutation_ids workspace_id [] = pure []
  completed_mutation_ids workspace_id (m ∷ ms) = do
    this ← read_done workspace_id m.id
    rest ← completed_mutation_ids workspace_id ms
    pure (if this then m.id ∷ rest else rest)

module _ {D : Type 0} (handlers : List (Handler D)) where
  -- `getSyncHandler(syncHandlers, mutation.moduleKey).apply(...)`
  abbrev pub apply_handler : String → SyncMutation → Exec D (Unit {0})
  apply_handler workspace_id mutation =
      elim (find_first (λ h. str_eq h.module_key mutation.module_key) handlers) [
        | none ↦ throw sync_module_unsupported
        | some h ↦ h.apply workspace_id mutation
      ]

module _ {D : Type 0} (handlers : List (Handler D)) (hooks : List (Hook D)) where
  -- The body of the `try`.
  unfoldable pub apply_work : String → SyncMutation → Exec (World (Server (Store D))) (Unit {0})
  apply_work workspace_id mutation = do
    on_data (apply_handler handlers workspace_id mutation)
    run_hooks hooks workspace_id mutation
    on_keys (mark_done workspace_id mutation.id)

  unfoldable pub apply_mutation :
      String → SyncMutation → Exec (World (Server (Store D))) MutationResult
  unfolding apply_work
  apply_mutation workspace_id mutation =
      if not (str_eq mutation.workspace_id workspace_id)
      then pure (fails_with mutation.id (message_of sync_workspace_mismatch) false)
      else do
        previous ← read_done workspace_id mutation.id
        if previous then pure (is_duplicate mutation.id) else do
          on_keys (insert_or_ignore workspace_id mutation.id)
          λ w. result_of mutation.id (apply_work workspace_id mutation w)

  -- The loop under the lease.
  unfoldable pub apply_mutations :
      String
      → List String
      → List SyncMutation
      → Exec (World (Server (Store D))) (List MutationResult)
  apply_mutations workspace_id done_ids [] = pure []
  apply_mutations workspace_id done_ids (m ∷ ms) = do
    result ←
        (if includes m.id done_ids then pure (is_duplicate m.id) else apply_mutation workspace_id m)
    results ← apply_mutations workspace_id done_ids ms
    pure (result ∷ results)

  abbrev pub push_reserved :
      String
      → List String
      → List SyncMutation
      → Reservation
      → Exec (World (Server (Store D))) (List MutationResult × ℕ)
  push_reserved workspace_id done_ids mutations (refused revision busy) w =
      pure
        (
          map
              (λ m.
                if includes m.id done_ids
                then is_duplicate m.id
                else fails_with m.id
                    (message_of (if busy then sync_write_in_progress else sync_revision_conflict))
                    busy)
              mutations,
          revision,
        )
        w
  push_reserved workspace_id done_ids mutations (granted token base) w =
      let loop = apply_mutations workspace_id done_ids mutations w in
      let released = finalize_workspace_write token loop.1 in
      (finished loop.0 released.0, released.1)

  -- The route, for a caller with access and a body of the right shape: results and revision.
  unfoldable pub push :
      String
      → String
      → ℕ
      → List SyncMutation
      → Exec (World (Server (Store D))) (List MutationResult × ℕ)
  push token workspace_id base_revision mutations = do
    done_ids ← completed_mutation_ids workspace_id mutations
    if requires_revision_reservation (partition_by_completed_idempotency mutations done_ids)
        then (reserve_workspace_write base_revision token >>= λ reserved.
            push_reserved workspace_id done_ids mutations reserved)
        else (read_stable_workspace_revision >>= λ revision.
            pure (map (λ m. is_duplicate m.id) mutations, revision))
