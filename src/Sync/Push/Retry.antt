-- ===== src/Sync/Push/Retry.antt =====
-- A whole push where nobody else interferes: what it answers, and what a device that lost the answer
-- gets when it sends the same mutations again.
use sozan.Common.{
  ℕ, ◌+◌, String, true, false, ◌≡◌, refl, ap, sym, ◌∙◌, none, some, List, [], ◌∷◌, map, every,
  includes, All, length, str_eq, if◌then◌else◌, inl, inr, Bool-cases, arith, ◌==◌, ltb, lt→ltb, suc,
  eq_iff,
}
use text.Mathlib.TextPositions.{eq_refl}
use sozan.Common.Results.{Result, ok}
use sozan.Sync.Revision.{
  Server, granted, reserve_workspace_write, read_stable_workspace_revision,
  finalize_workspace_write, read_workspace_revision_state, take_lease, ensure_revision_row,
  recover_stale_write_lease,
}
use sozan.Sync.Revision.Lease.{server_at}
use sozan.Sync.Push.{
  SyncMutation, MutationResult, Store, Handler, Hook, partition_by_completed_idempotency,
  completed_mutation_ids, is_duplicate, push,
}
use sozan.Sync.Push.Keys.{Key, is_done}
use sozan.Sync.Push.Applied.{is_settled, apply_mutations-AppliedAll}

-- The identifiers of the mutations that are done.
done_among : String → List Key → List SyncMutation → List String
done_among ws keys [] = []
done_among ws keys (m ∷ ms) =
    let rest = done_among ws keys ms in if is_done ws m.id keys then m.id ∷ rest else rest

completed-done_among :
    {D : Type 0} (ws : String) (ms : List SyncMutation) (s : Server (Store D))
    → completed_mutation_ids ws ms (s, []) ≡ (ok (done_among ws s.store.keys ms), (s, []))
unfolding completed_mutation_ids done_among
completed-done_among ws [] s = refl
completed-done_among ws (m ∷ ms) s = rw (completed-done_among ws ms s)

done_among_sound :
    (ws id : String) (keys : List Key) (ms : List SyncMutation)
    → includes id (done_among ws keys ms) ≡ true
    → is_done ws id keys ≡ true
unfolding done_among includes
done_among_sound ws id keys [] h = cc
done_among_sound ws id keys (m ∷ ms) h = elim (Bool-cases (is_done ws m.id keys)) [
  | inr open_ ↦ done_among_sound ws id keys ms (rw open_ at h)
  | inl done ↦ elim (Bool-cases (str_eq m.id id)) [
    | inl same ↦ let p : m.id ≡ id = ground (arith, eq_iff m.id id) in rw (← p) done
    | inr other ↦ done_among_sound ws id keys ms (rw (done, other) at h)
  ]
]

-- When all are done, none is left to apply.
included_grow :
    (x : String) (xs ys : List String) (ms : List SyncMutation)
    → ys ≡ x ∷ xs
    → All (λ m. includes m.id xs ≡ true) ms
    → All (λ m. includes m.id ys ≡ true) ms
unfolding includes
included_grow x xs ys [] e h = tt
included_grow x xs ys (m ∷ ms) e h = (rw (e, h.0) (ground arith), included_grow x xs ys ms e h.1)

All-included :
    (ws : String) (keys : List Key) (ms : List SyncMutation)
    → All (λ m. is_done ws m.id keys ≡ true) ms
    → All (λ m. includes m.id (done_among ws keys ms) ≡ true) ms
unfolding done_among includes
All-included ws keys [] h = tt
All-included ws keys (m ∷ ms) h =
    let first : done_among ws keys (m ∷ ms) ≡ m.id ∷ done_among ws keys ms = rw h.0 in
    (rw (first, eq_refl m.id), included_grow m.id _ _ ms first (All-included ws keys ms h.1))

All-sound :
    (ws : String) (keys : List Key) (all ms : List SyncMutation)
    → All (λ m. includes m.id (done_among ws keys all) ≡ true) ms
    → All (λ m. is_done ws m.id keys ≡ true) ms
All-sound ws keys all [] h = tt
All-sound ws keys all (m ∷ ms) h =
    (done_among_sound ws m.id keys all h.0, All-sound ws keys all ms h.1)

unapplied_nothing :
    (ms : List SyncMutation) (done : List String)
    → ltb 0 (length (partition_by_completed_idempotency ms done).unapplied) ≡ false
    → All (λ m. includes m.id done ≡ true) ms
unfolding partition_by_completed_idempotency
unapplied_nothing [] done h = tt
unapplied_nothing (m ∷ ms) done h = elim (Bool-cases (includes m.id done)) [
  | inl known ↦ (known, unapplied_nothing ms done (rw known at h))
  | inr new_ ↦
      let absurd : true ≡ false =
        sym (
          lt→ltb 0 (suc (length (partition_by_completed_idempotency ms done).unapplied))
            (omega arith))
        ∙ rw new_ at h in
      (cc, unapplied_nothing ms done cc)
]

duplicate_names :
    (ms : List SyncMutation)
    → map (λ r. r.mutation_id) (map (λ m. is_duplicate m.id) ms) ≡ map (λ m. m.id) ms
duplicate_names [] = refl
duplicate_names (m ∷ ms) = rw (duplicate_names ms)

nothing_unapplied :
    (ms : List SyncMutation) (done : List String)
    → All (λ m. includes m.id done ≡ true) ms
    → (partition_by_completed_idempotency ms done).unapplied ≡ []
unfolding partition_by_completed_idempotency
nothing_unapplied [] done h = refl
nothing_unapplied (m ∷ ms) done h = rw h.0 (nothing_unapplied ms done h.1)

results_of :
    {a b : List MutationResult} {m n : ℕ}
    → ◌≡◌ {A = Result (List MutationResult × ℕ)} (ok (a, m)) (ok (b, n))
    → a ≡ b
results_of h = cc

revision_of :
    {a b : List MutationResult} {m n : ℕ}
    → ◌≡◌ {A = Result (List MutationResult × ℕ)} (ok (a, m)) (ok (b, n))
    → m ≡ n
revision_of h = cc

module _ {D : Type 0} (handlers : List (Handler D)) (hooks : List (Hook D)) (ws : String) where
  -- A push of mutations that are all done, at a server that nobody writes to: whatever revision the
  -- device has, it gets a duplicate for each, and nothing changes.
  All-done :
      (token : String) (n base now : ℕ) (ms : List SyncMutation) (store : Store D)
      → All (λ m. is_done ws m.id store.keys ≡ true) ms
      → push handlers hooks token ws base ms (server_at n none none now store, [])
        ≡ (ok (map (λ m. is_duplicate m.id) ms, n), (server_at n none none now store, []))
  unfolding push read_stable_workspace_revision
  All-done token n base now ms store h = rw (
    completed-done_among ws ms (server_at n none none now store),
    nothing_unapplied ms (done_among ws store.keys ms) (All-included ws store.keys ms h),
  )

  -- How a push at the revision of the server ends.
  pub record Pushed (token : String) (n now : ℕ) (ms : List SyncMutation) (store : Store D)
      : Type 0 where
    pub results : List MutationResult
    pub revision : ℕ
    pub after : Store D
    pub returns :
        push handlers hooks token ws n ms (server_at n none none now store, [])
        ≡ (ok (results, revision), (server_at revision none none now after, []))
    pub names : map (λ r. r.mutation_id) results ≡ map (λ m. m.id) ms
    pub settles : every is_settled results ≡ true → All (λ m. is_done ws m.id after.keys ≡ true) ms
    pub keeps : (id : String) → is_done ws id store.keys ≡ true → is_done ws id after.keys ≡ true

  -- The writer gets the lease of a free row at its revision.
  reserved :
      (token : String) (n now : ℕ) (store : Store D)
      → reserve_workspace_write n token (server_at n none none now store, [])
        ≡ (ok (granted token n), (server_at n (some token) (some now) now store, []))
  unfolding reserve_workspace_write read_workspace_revision_state take_lease ensure_revision_row
      recover_stale_write_lease
  reserved token n now store = let same : (n == n) ≡ true = ground arith in simp same

  released :
      (token : String) (n since now : ℕ) (store : Store D)
      → finalize_workspace_write token (server_at n (some token) (some since) now store, [])
        ≡ (ok (n + 1), (server_at (n + 1) none none now store, []))
  unfolding finalize_workspace_write
  released token n since now store = simp (eq_refl token)

  -- Where nobody else interferes, a push at the revision of a free row always returns. Its results
  -- name the mutations one by one in their order; when all are applied or duplicates, every mutation
  -- has a done key; no done key is lost; and the row is free again, at the revision that is answered.
  pub push-Pushed :
      (token : String) (n now : ℕ) (ms : List SyncMutation) (store : Store D)
      → Pushed token n now ms store
  unfolding push read_stable_workspace_revision
  push-Pushed token n now ms store =
      let ids = done_among ws store.keys ms in
      let start = server_at n none none now store in
      let read = completed-done_among ws ms start in
      elim (Bool-cases (ltb 0 (length (partition_by_completed_idempotency ms ids).unapplied))) [
        | inr none_left ↦ record {
          results = map (λ m. is_duplicate m.id) ms;
          revision = n;
          after = store;
          returns = rw (read, none_left);
          names = duplicate_names ms;
          settles = λ h. All-sound ws store.keys ms ms (unapplied_nothing ms ids none_left);
          keeps = λ id h. h;
        }
        | inl some_left ↦
            let held = server_at n (some token) (some now) now store in
            let loop =
              apply_mutations-AppliedAll handlers hooks ws ids ms held
                (λ id h. done_among_sound ws id store.keys ms h) in
            let after : Store D = record { keys = loop.keys; data_of = loop.data_of } in
            record {
              results = loop.results;
              revision = n + 1;
              after = after;
              returns = rw (
                read,
                some_left,
                reserved token n now store,
                loop.returns,
                released token n now now after,
              );
              names = loop.names;
              settles = loop.settles;
              keeps = loop.keeps;
            }
      ]

  -- Where nobody else interferes, a device whose push was acknowledged in full but which lost the
  -- answer sends the same mutations again, with any old revision: it gets a duplicate for each of
  -- them, with the same revision as in the lost answer, and the second push changes nothing.
  pub push_retry :
      (token again : String) (n base now : ℕ) (ms : List SyncMutation) (store : Store D)
      {rs : List MutationResult} {revision : ℕ}
      → (push handlers hooks token ws n ms (server_at n none none now store, [])).0
        ≡ ok (rs, revision)
      → every is_settled rs ≡ true
      → push handlers hooks again ws base ms
          (push handlers hooks token ws n ms (server_at n none none now store, [])).1
        ≡ (
          ok (map (λ m. is_duplicate m.id) ms, revision),
          (push handlers hooks token ws n ms (server_at n none none now store, [])).1,
        )
  push_retry token again n base now ms store {rs} {revision} h settled =
      let p = push-Pushed token n now ms store in
      let e : ◌≡◌ {A = Result (List MutationResult × ℕ)} (ok (p.results, p.revision))
          (ok (rs, revision)) =
        ap (λ x. x.0) (sym p.returns) ∙ h in
      let same : p.results ≡ rs = results_of e in
      let number : p.revision ≡ revision = revision_of e in
      rw (p.returns, ← number)
        (All-done again p.revision base now ms p.after (p.settles (rw same settled)))
