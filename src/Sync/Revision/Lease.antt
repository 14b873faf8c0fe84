-- ===== src/Sync/Revision/Lease.antt =====
-- The lease of the writer: who gets it, who is refused, and how it is given back.
use sozan.Common.{
  ℕ, ◌+◌, ◌≤◌, ◌≡◌, refl, ap, ◌∙◌, String, true, false, Option, none, some, is_some, List, [], ◌∷◌,
  arith, ge→ltb, lt→ltb, ◌<◌, ◌==◌, inl, inr, Bool-cases, ◌&&◌, not,
}
use text.Mathlib.TextPositions.{eq_refl}
use sozan.Common.Results.{Result, Result-cases, ok}
use sozan.Common.Exec.{Exec}
use sozan.Common.Interleave.{World, statement}
use sozan.Sync.Revision.{
  Row, Server, granted, refused, read_workspace_revision_state, take_lease, reserve_workspace_write,
  with_workspace_write, acquire_workspace_write, finalize_workspace_write, reserve_row, update_row,
  changes, settle, stale_write_seconds,
}

ok-injective : {A : Type 0} {a b : A} → ok a ≡ ok b → a ≡ b
ok-injective h = cc

granted-injective :
    {t u : String} {a b : ℕ} → ok (granted t a) ≡ ok (granted u b) → (u ≡ t) × (b ≡ a)
granted-injective h = (cc, cc)

reserved_row :
    (o : Option Row) (now expected : ℕ) (token : String)
    → changes (λ r. r.revision == expected && not (is_some r.writer_token)) o ≡ true
    → (row : Row) × (update_row (reserve_row now expected token) o ≡ some row)
      × (row.writer_token ≡ some token)
      × (row.revision ≡ expected)
reserved_row none now expected token h = cc
reserved_row (some r) now expected token h =
    (record r { writer_token = some token; write_started_at = some now }, rw h, refl, ground arith)

module _ {Data : Type 0} where
  -- The row is held by `token` at `revision`.
  pub record IsHeld (token : String) (revision : ℕ) (w : World (Server Data)) : Type 0 where
    pub row : Row
    pub present : w.0.row ≡ some row
    pub held : row.writer_token ≡ some token
    pub base : row.revision ≡ revision

  taken :
      (expected : ℕ) (token : String) (s : Server Data) (gs : List (Server Data → Server Data))
      → changes (λ r. r.revision == expected && not (is_some r.writer_token)) s.row ≡ true
      → IsHeld token expected
          (record s { row = update_row (reserve_row s.now expected token) s.row }, gs)
  taken expected token s gs h =
      let (row, present, held, base) = reserved_row s.row s.now expected token h in
      record { row = row; present = present; held = held; base = base }

  take_lease-IsHeld :
      (expected : ℕ) (token : String) (w : World (Server Data))
      → (take_lease expected token w).0 ≡ ok true
      → IsHeld token expected (take_lease expected token w).1
  unfolding take_lease
  take_lease-IsHeld expected token (s, []) h = taken expected token s [] (ok-injective h)
  take_lease-IsHeld expected token (s, g ∷ gs) h = taken expected token (g s) gs (ok-injective h)

  -- Whatever others do between its statements, a reservation that reports success has the lease:
  -- the row then carries its token, at just the revision that the caller expected.
  pub reserve_workspace_write-IsHeld :
      (expected : ℕ) (token : String) (w : World (Server Data)) {t : String} {base : ℕ}
      → (reserve_workspace_write expected token w).0 ≡ ok (granted t base)
      → IsHeld t base (reserve_workspace_write expected token w).1 × (t ≡ token) × (base ≡ expected)
  unfolding reserve_workspace_write
  reserve_workspace_write-IsHeld expected token w {t} {base} h =
      elim (Result-cases (read_workspace_revision_state w).0) [
        | inr (e, failed) ↦ cc (rw failed at h)
        | inl (state, e) ↦
            let h1 = rw e at h in
            rw e (elim (Bool-cases (is_some state.writer_token)) [
              | inl busy ↦ cc (rw busy at h1)
              | inr free ↦
                  let h2 = rw free at h1 in
                  rw free (elim (Bool-cases (state.revision == expected)) [
                    | inr moved ↦ cc (rw moved at h2)
                    | inl same ↦
                        let h3 = rw same at h2 in
                        rw same
                          (elim (Result-cases
                            (take_lease expected token (read_workspace_revision_state w).1).0) [
                              | inr (e', failed) ↦ cc (rw failed at h3)
                              | inl (b, e') ↦
                                  let h4 = rw e' at h3 in
                                  rw e' (elim (Bool-cases b) [
                                    | inl won ↦
                                        let got = granted-injective (rw won at h4) in
                                        rw (won, got.0, got.1)
                                          (
                                            take_lease-IsHeld expected token _ (e' ∙ ap ok won),
                                            refl,
                                            refl,
                                          )
                                    | inr lost ↦
                                        let h5 = rw lost at h4 in
                                        elim (Result-cases
                                          (read_workspace_revision_state
                                            (take_lease expected token
                                              (read_workspace_revision_state w).1).1).0) [
                                                | inl (current, e5) ↦ cc (rw e5 at h5)
                                                | inr (x, failed) ↦ cc (rw failed at h5)
                                              ]
                                  ])
                            ])
                  ])
            ])
      ]

  -- A server whose row has these fields.
  abbrev pub server_at : ℕ → Option String → Option ℕ → ℕ → Data → Server Data
  server_at revision token since now store = record {
    row = some (record { revision = revision; writer_token = token; write_started_at = since });
    now = now;
    store = store;
  }

  -- Where nobody else interferes, a row that a writer holds, and has held for no longer than the
  -- stale limit, is left as it is: the reservation is refused as busy, also at the expected revision.
  pub reserve_workspace_write-busy :
      (expected : ℕ) (token holder : String) (revision since now : ℕ) (store : Data)
      → now ≤ since + stale_write_seconds
      → reserve_workspace_write expected token
          (server_at revision (some holder) (some since) now store, [])
        ≡ (
          ok (refused revision true),
          (server_at revision (some holder) (some since) now store, []),
        )
  unfolding reserve_workspace_write
  reserve_workspace_write-busy expected token holder revision since now store fresh =
      rw (ge→ltb (since + stale_write_seconds) now fresh)

  -- Past the stale limit a reservation at the old revision is refused, but no longer as busy: the
  -- abandoned lease is gone and the revision has moved on by one.
  pub reserve_workspace_write-stale :
      (token holder : String) (revision since now : ℕ) (store : Data)
      → since + stale_write_seconds < now
      → reserve_workspace_write revision token
          (server_at revision (some holder) (some since) now store, [])
        ≡ (ok (refused (revision + 1) false), (server_at (revision + 1) none none now store, []))
  unfolding reserve_workspace_write
  reserve_workspace_write-stale token holder revision since now store old =
      let moved : (revision + 1 == revision) ≡ false = ground arith in
      rw (lt→ltb (since + stale_write_seconds) now old) (rw moved)

  -- A change of the data that may throw, as the write of a lease.
  abbrev pub write_of : {A : Type 0} → (Data → Result A × Data) → Exec (World (Server Data)) A
  write_of change = statement (λ s. ((change s.store).0, record s { store = (change s.store).1 }))

  -- Where nobody else interferes and the row is free, a guarded write ends with the lease given back
  -- at the next revision, whether the write returned or threw; what it threw is thrown on.
  pub with_workspace_write-advances :
      {A : Type 0} (token : String) (change : Data → Result A × Data) (revision now : ℕ)
      (store : Data)
      → with_workspace_write token (write_of change) (server_at revision none none now store, [])
        ≡ (
          settle (change store).0 (ok (revision + 1)),
          (server_at (revision + 1) none none now (change store).1, []),
        )
  unfolding with_workspace_write acquire_workspace_write finalize_workspace_write
  with_workspace_write-advances token change revision now store =
      let same : (revision == revision) ≡ true = ground arith in simp (same, eq_refl)
