-- ===== src/Sync/Push/Applied.antt =====
-- What the loop of a push does where nobody else interferes: one result for each mutation, in their
-- order, and a done key for each mutation that it acknowledges.
use sozan.Common.{
  String, Bool, true, false, ◌≡◌, refl, List, [], ◌∷◌, map, every, includes, All, str_eq,
  if◌then◌else◌, inl, inr, Bool-cases, ◌⊎◌,
}
use sozan.Common.Results.{Result, Result-cases, ok, err, Error, sync_workspace_mismatch}
use sozan.Common.Exec.{pure}
use sozan.Common.Interleave.{World}
use sozan.Sync.Revision.{Server}
use sozan.Sync.Push.{
  SyncMutation, MutationResult, applied, duplicate, failed, Store, Handler, Hook, apply_handler,
  run_hooks, apply_work, apply_mutation, apply_mutations, is_duplicate, fails_with, classified,
}
use sozan.Sync.Push.Keys.{
  Key, is_done, insert_or_ignore, mark_done, message_of, insert_or_ignore_keeps, mark_done_keeps,
  mark_done-insert_or_ignore,
}

abbrev pub is_settled : MutationResult → Bool
is_settled r = elim r.status [ applied ↦ true | duplicate ↦ true | failed e b ↦ false ]

module _ {D : Type 0} where
  -- A server with these keys and these data.
  abbrev pub at : Server (Store D) → List Key → D → Server (Store D)
  at s keys d = record { row = s.row; now = s.now; store = record { keys = keys; data_of = d } }

  run_hooks_data :
      (hooks : List (Hook D)) (ws : String) (m : SyncMutation) (s : Server (Store D))
      → (d : D) × ((run_hooks hooks ws m (s, [])).1 ≡ (at s s.store.keys d, []))
  unfolding run_hooks
  run_hooks_data [] ws m s = (s.store.data_of, refl)
  run_hooks_data (hook ∷ rest) ws m s = elim (Bool-cases (hook.supports m)) [
    | inr skipped ↦ rw skipped (run_hooks_data rest ws m s)
    | inl run ↦ rw run (elim (Result-cases (hook.after_apply ws m s.store.data_of).0) [
      | inl (u, e) ↦
          rw e
            (run_hooks_data rest ws m (at s s.store.keys (hook.after_apply ws m s.store.data_of).1))
      | inr (x, e) ↦ rw e ((hook.after_apply ws m s.store.data_of).1, refl)
    ])
  ]

module _ {D : Type 0} (handlers : List (Handler D)) (hooks : List (Hook D)) where
  -- How the body of the `try` ends: it throws and leaves the keys as they were, or the key is done.
  apply_work-cases :
      (ws : String) (m : SyncMutation) (s : Server (Store D))
      → ((d : D) × (e : Error) × (apply_work handlers hooks ws m (s, [])
            ≡ (err e, (at s s.store.keys d, []))))
        ⊎ ((d : D) × (apply_work handlers hooks ws m (s, [])
              ≡ (ok tt, (at s (mark_done ws m.id s.store.keys) d, []))))
  unfolding apply_work
  apply_work-cases ws m s = elim (Result-cases (apply_handler handlers ws m s.store.data_of).0) [
    | inr (x, e) ↦ inl ((apply_handler handlers ws m s.store.data_of).1, x, rw e)
    | inl (u, e) ↦
        let t : Server (Store D) =
          at s s.store.keys (apply_handler handlers ws m s.store.data_of).1 in
        let (d, e1) = run_hooks_data hooks ws m t in
        elim (Result-cases (run_hooks hooks ws m (t, [])).0) [
          | inr (x, e2) ↦ inl (d, x, rw (e, e2, e1))
          | inl (v, e2) ↦ inr (d, rw (e, e2, e1))
        ]
  ]

  pub record Applied (ws : String) (m : SyncMutation) (s : Server (Store D))
      (out : Result MutationResult × World (Server (Store D))) : Type 0 where
    pub keys : List Key
    pub data_of : D
    pub result : MutationResult
    pub returns : out ≡ (ok result, (at s keys data_of, []))
    pub names : result.mutation_id ≡ m.id
    pub settles : is_settled result ≡ true → is_done ws m.id keys ≡ true
    pub keeps : (id : String) → is_done ws id s.store.keys ≡ true → is_done ws id keys ≡ true

  apply_mutation-Applied :
      (ws : String) (m : SyncMutation) (s : Server (Store D))
      → Applied ws m s (apply_mutation handlers hooks ws m (s, []))
  unfolding apply_mutation
  apply_mutation-Applied ws m s = elim (Bool-cases (str_eq m.workspace_id ws)) [
    | inr other ↦ record {
      keys = s.store.keys;
      data_of = s.store.data_of;
      result = fails_with m.id (message_of sync_workspace_mismatch) false;
      returns = rw other;
      names = refl;
      settles = λ h. cc;
      keeps = λ id h. h;
    }
    | inl same ↦ elim (Bool-cases (is_done ws m.id s.store.keys)) [
      | inl done ↦ record {
        keys = s.store.keys;
        data_of = s.store.data_of;
        result = is_duplicate m.id;
        returns = rw (same, done);
        names = refl;
        settles = λ h. done;
        keeps = λ id h. h;
      }
      | inr open_ ↦
          let present = insert_or_ignore ws m.id s.store.keys in
          elim (apply_work-cases ws m (at s present s.store.data_of)) [
            | inl (d, e, ends) ↦ record {
              keys = present;
              data_of = d;
              result = classified m.id e;
              returns = rw (same, open_, ends);
              names = refl;
              settles = λ h. cc;
              keeps = λ id h. insert_or_ignore_keeps ws id ws m.id _ h;
            }
            | inr (d, ends) ↦ record {
              keys = mark_done ws m.id present;
              data_of = d;
              result = record { mutation_id = m.id; status = applied };
              returns = rw (same, open_, ends);
              names = refl;
              settles = λ h. mark_done-insert_or_ignore ws m.id _;
              keeps = λ id h.
                  mark_done_keeps ws id ws m.id _ (insert_or_ignore_keeps ws id ws m.id _ h);
            }
          ]
    ]
  ]

  pub record AppliedAll (ws : String) (ms : List SyncMutation) (s : Server (Store D))
      (out : Result (List MutationResult) × World (Server (Store D))) : Type 0 where
    pub keys : List Key
    pub data_of : D
    pub results : List MutationResult
    pub returns : out ≡ (ok results, (at s keys data_of, []))
    pub names : map (λ r. r.mutation_id) results ≡ map (λ m. m.id) ms
    pub settles : every is_settled results ≡ true → All (λ m. is_done ws m.id keys ≡ true) ms
    pub keeps : (id : String) → is_done ws id s.store.keys ≡ true → is_done ws id keys ≡ true

  one_round :
      (ws : String) (done_ids : List String) (m : SyncMutation) (s : Server (Store D))
      → ((id : String) → includes id done_ids ≡ true → is_done ws id s.store.keys ≡ true)
      → Applied ws m s (
          (if includes m.id done_ids
              then pure (is_duplicate m.id)
              else apply_mutation handlers hooks ws m)
            (s, []))
  one_round ws done_ids m s sound = elim (Bool-cases (includes m.id done_ids)) [
    | inr new_ ↦ rw new_ (apply_mutation-Applied ws m s)
    | inl known ↦ rw known (record {
      keys = s.store.keys;
      data_of = s.store.data_of;
      result = is_duplicate m.id;
      returns = refl;
      names = refl;
      settles = λ h. sound m.id known;
      keeps = λ id h. h;
    })
  ]

  pub apply_mutations-AppliedAll :
      (ws : String) (done_ids : List String) (ms : List SyncMutation) (s : Server (Store D))
      → ((id : String) → includes id done_ids ≡ true → is_done ws id s.store.keys ≡ true)
      → AppliedAll ws ms s (apply_mutations handlers hooks ws done_ids ms (s, []))
  unfolding apply_mutations every
  apply_mutations-AppliedAll ws done_ids [] s sound = record {
    keys = s.store.keys;
    data_of = s.store.data_of;
    results = [];
    returns = refl;
    names = refl;
    settles = λ h. tt;
    keeps = λ id h. h;
  }
  apply_mutations-AppliedAll ws done_ids (m ∷ ms) s sound =
      let a = one_round ws done_ids m s sound in
      let b =
        apply_mutations-AppliedAll ws done_ids ms (at s a.keys a.data_of)
          (λ id h. a.keeps id (sound id h)) in
      record {
        keys = b.keys;
        data_of = b.data_of;
        results = a.result ∷ b.results;
        returns = rw (a.returns, b.returns);
        names = rw (a.names, b.names);
        settles = λ h. elim (Bool-cases (is_settled a.result)) [
          | inl good ↦ (b.keeps m.id (a.settles good), b.settles (rw good at h))
          | inr bad ↦ cc (rw bad at h)
        ];
        keeps = λ id h. b.keeps id (a.keeps id h);
      }
