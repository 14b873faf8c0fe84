-- ===== src/Sync/Engine/Runs.antt =====
-- When a run replaces the local tables, and which mutations wait in the outbox then.
use sozan.Common.{
  ℕ, ◌<◌, ◌≡◌, refl, ap, ◌∙◌, ◌⊎◌, inl, inr, String, true, false, List, [], ◌∷◌, length, arith,
}
use sozan.Common.Results.{Result}
use sozan.Common.Order.{Collation}
use sozan.Common.Interleave.{World}
use sozan.Common.Interleave.Triples.{
  Outcome, Holds, Runs, statement-Runs, pure-Runs, lift-Runs, bind-Runs,
}
use sozan.Sync.Push.{MutationResult}
use sozan.Sync.Outbox.{SyncOutboxRecord, list_pending_sync_mutations}
use sozan.Sync.Engine.{
  Local, PushResponse, Snapshot, SyncRunResult, ask, change, settle_results, push_pending,
  take_response, finish_run, run_workspace_sync_unlocked, assert_cloud_initialization_ready,
}

module _ {T : Type 0} (c : Collation) (P : T → Type 0) (ws : String) where
  abbrev waiting : Local T → List SyncOutboxRecord
  waiting l = list_pending_sync_mutations c ws l.outbox

  -- A change that leaves the mutations that wait as they are, and keeps what `P` says of the tables.
  pub record IsAside (g : Local T → Local T) : Type 0 where
    pub waits : (l : Local T) → waiting (g l) ≡ waiting l
    pub keeps : (l : Local T) → P l.tables → P (g l).tables

  -- The tables are as `P` says.
  abbrev pub Kept : Local T → Type 0
  Kept l = P l.tables

  -- The same, and these rows wait.
  abbrev Waiting : List SyncOutboxRecord → Local T → Type 0
  Waiting rows l = P l.tables × (waiting l ≡ rows)

  -- What a run that returned leaves.
  abbrev pub Ended : SyncRunResult → Local T → Type 0
  Ended r l =
      ((r.pulled ≡ true) × (waiting l ≡ []))
      ⊎ ((r.pulled ≡ false) × P l.tables × (length (waiting l) ≡ r.pending) × (0 < r.pending))

  ask-Runs : {A : Type 0} (q : Local T → A) → Runs IsAside Kept Kept (λ a. Kept) (ask q)
  ask-Runs q = statement-Runs _ (λ g a l h. a.keeps l h) (λ l h. h)

  change-Runs :
      (f : Local T → Local T)
      → ((l : Local T) → (f l).tables ≡ l.tables)
      → Runs IsAside Kept Kept (λ a. Kept) (change f)
  change-Runs f e = statement-Runs _ (λ g a l h. a.keeps l h) (λ l h. rw (e l) h)

  -- The transactions of the push touch no other table.
  settle_results-Runs :
      (rs : List MutationResult) → Runs IsAside Kept Kept (λ a. Kept) (settle_results rs)
  unfolding settle_results
  settle_results-Runs [] = pure-Runs _ (λ l h. h)
  settle_results-Runs (r ∷ rs) =
      bind-Runs (λ a. Kept) _ _ (change-Runs _ (λ l. refl))
        (λ u. bind-Runs (λ a. Kept) _ _ (settle_results-Runs rs) (λ counts. pure-Runs _ (λ l h. h)))

  take_response-Runs :
      (response : PushResponse) → Runs IsAside Kept Kept (λ a. Kept) (take_response response)
  unfolding take_response
  take_response-Runs response =
      bind-Runs (λ a. Kept) _ _ (settle_results-Runs response.results)
        (λ counts.
          bind-Runs (λ a. Kept) _ _ (change-Runs _ (λ l. refl)) (λ u. pure-Runs _ (λ l h. h)))

  push_pending-Runs :
      (post_push : ℕ → List SyncOutboxRecord → Result PushResponse) (rows : List SyncOutboxRecord)
      → Runs IsAside Kept Kept (λ a. Kept) (push_pending post_push rows)
  unfolding push_pending
  push_pending-Runs post_push [] = pure-Runs _ (λ l h. h)
  push_pending-Runs post_push (row ∷ rows) =
      bind-Runs (λ a. Kept) _ _ (ask-Runs _)
        (λ base.
          bind-Runs (λ a. Kept) _ _ (lift-Runs _ (λ a e l h. h) (λ l h. h)) take_response-Runs)

  -- From here the rows that wait are those that the run has read.
  remaining-Runs :
      Runs IsAside Kept Kept Waiting (ask (λ l. list_pending_sync_mutations c ws l.outbox))
  remaining-Runs = statement-Runs _ (λ g a l h. a.keeps l h) (λ l h. (h, refl))

  dead-Runs :
      {A : Type 0} (rows : List SyncOutboxRecord) (q : Local T → A)
      → Runs IsAside Kept (Waiting rows) (λ a. Waiting rows) (ask q)
  dead-Runs rows q = statement-Runs _ (λ g a l h. (a.keeps l h.0, a.waits l ∙ h.1)) (λ l h. h)

  -- What is left to say of the rows once the tables are replaced.
  Empty-Runs :
      {R : Local T → Type 0} (f : Local T → Local T)
      → ((l : Local T) → (f l).outbox ≡ l.outbox)
      → ((l : Local T) → R l → waiting l ≡ [])
      → ((g : Local T → Local T) → IsAside g → (l : Local T) → R l → R (g l))
      → Runs IsAside Kept R (λ a l. waiting l ≡ []) (change f)
  Empty-Runs f e k respected = statement-Runs _ respected (λ l h. rw (e l) (k l h))

  module _ (get_snapshot : Result (Snapshot T)) where
    finish_run-Runs :
        (counts : ℕ × ℕ) (dead : ℕ) (rows : List SyncOutboxRecord)
        → Runs IsAside Kept (Waiting rows) Ended (finish_run get_snapshot counts dead rows)
    finish_run-Runs counts dead [] =
        bind-Runs (λ a. Waiting []) _ _ (lift-Runs _ (λ a e l h. h) (λ l h. h.0))
          (λ snapshot.
            bind-Runs (λ a l. waiting l ≡ []) _ _
              (Empty-Runs _ (λ l. refl) (λ l h. h.1) (λ g a l h. (a.keeps l h.0, a.waits l ∙ h.1)))
              (λ u.
                bind-Runs (λ a l. waiting l ≡ []) _ _
                  (Empty-Runs _ (λ l. refl) (λ l h. h) (λ g a l h. a.waits l ∙ h))
                  (λ v. pure-Runs _ (λ l h. inl (refl, h)))))
    finish_run-Runs counts dead (row ∷ rows) =
        pure-Runs _ (λ l h. inr (refl, h.0, ap length h.1, omega arith))

  module _ (post_push : ℕ → List SyncOutboxRecord → Result PushResponse)
      (get_snapshot : Result (Snapshot T)) where
    ready-Runs : Runs IsAside Kept Kept (λ a. Kept) assert_cloud_initialization_ready
    ready-Runs = bind-Runs (λ a. Kept) _ _ (ask-Runs _) (λ p. lift-Runs _ (λ a e l k. k) (λ l k. k))

    run_workspace_sync-Runs :
        Runs IsAside Kept Kept Ended (run_workspace_sync_unlocked c post_push get_snapshot ws)
    unfolding run_workspace_sync_unlocked
    run_workspace_sync-Runs =
        bind-Runs (λ a. Kept) _ _ ready-Runs
          (λ ready.
            bind-Runs (λ a. Kept) _ _ (ask-Runs _)
              (λ rows.
                bind-Runs (λ a. Kept) _ _ (push_pending-Runs post_push rows)
                  (λ counts. bind-Runs Waiting _ _ remaining-Runs (λ left.
                    bind-Runs (λ a. Waiting left) _ _ (dead-Runs left _)
                      (λ dead. finish_run-Runs get_snapshot counts (length dead) left)))))

    -- Let `P` hold of the other tables, and let the others change neither that nor the mutations of the
    -- workspace that wait. Then a run that returns either pulled, and no mutation of the workspace
    -- waits, or it did not, `P` holds of the tables, and its `pending` counts the mutations that wait,
    -- at least one. After a run that throws, also where a request fails, `P` holds of the tables.
    pub run_workspace_sync-Outcome :
        (w : World (Local T))
        → Holds IsAside Kept w
        → Outcome Ended Kept
            (run_workspace_sync_unlocked c post_push get_snapshot ws w).0
            (run_workspace_sync_unlocked c post_push get_snapshot ws w).1.0
    run_workspace_sync-Outcome w h = (run_workspace_sync-Runs.run w h).0

module _ {T : Type 0} where
  -- The stores, where others change them by `g` while the request of the snapshot is awaited: the run
  -- makes four queries before it.
  abbrev pub requested : Local T → (Local T → Local T) → World (Local T)
  requested l g = (l, (λ x. x) ∷ (λ x. x) ∷ (λ x. x) ∷ (λ x. x) ∷ g ∷ [])
