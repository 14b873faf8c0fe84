-- ===== src/Sync/Revision.antt =====
-- src/server/sync/workspace-revision.ts: the revision of a workspace and the lease of its writer,
-- one row of core_workspace_sync_revisions. Each SQL statement is one atomic change of the row;
-- between two statements others may have changed it. Times are seconds.
pub mod History
pub mod Moments
pub mod Snapshot
pub mod Lease
pub mod Quiet
use sozan.Common.{
  ℕ, zero, suc, ◌+◌, ◌*◌, String, Bool, true, false, ◌&&◌, not, Option, none, some, is_some,
  or_default, List, [], ◌∷◌, ltb, ◌==◌, str_eq, if◌then◌else◌,
}
use sozan.Common.Results.{
  Result, ok, err, Error, sync_write_in_progress, sync_write_lease_lost, sync_snapshot_unstable,
  sync_revision_conflict,
}
use sozan.Common.Exec.{Exec, pure, throw, continue, ◌>>=◌, ◌>>◌}
use sozan.Common.Interleave.{World, statement}

pub record Row : Type 0 where
  pub revision : ℕ
  pub writer_token : Option String
  pub write_started_at : Option ℕ

-- What the statements see: the row of the workspace, if there is one, the clock of the database,
-- and the data of the workspace.
pub record Server (Data : Type 0) : Type 0 where
  pub row : Option Row
  pub now : ℕ
  pub store : Data

-- `STALE_WRITE_MINUTES`, in seconds.
abbrev pub stale_write_seconds : ℕ
stale_write_seconds = 10 * 60

abbrev pub is_stale : Row → ℕ → Bool
is_stale row now = elim row.write_started_at [
  | none ↦ false
  | some t ↦ is_some row.writer_token && ltb (t + stale_write_seconds) now
]

-- The row as `INSERT OR IGNORE ... VALUES(?1, 0)` makes it.
abbrev pub first_row : Row
first_row = record { revision = 0; writer_token = none; write_started_at = none }

-- `SET revision=revision+1, writer_token=NULL, write_started_at=NULL`
abbrev pub advanced : Row → Row
advanced row = record { revision = row.revision + 1; writer_token = none; write_started_at = none }

-- `writer_token=?2`, which no NULL meets.
abbrev pub held_by : String → Row → Bool
held_by token row = elim row.writer_token [ none ↦ false | some t ↦ str_eq t token ]

abbrev pub recover_row : ℕ → Row → Row
recover_row now row = if is_stale row now then advanced row else row

abbrev pub reserve_row : ℕ → ℕ → String → Row → Row
reserve_row now expected token row =
    if row.revision == expected && not (is_some row.writer_token)
    then record row { writer_token = some token; write_started_at = some now }
    else row

abbrev pub abort_row : String → Row → Row
abort_row token row =
    if held_by token row then record row { writer_token = none; write_started_at = none } else row

abbrev pub finalize_row : String → Row → Row
finalize_row token row = if held_by token row then advanced row else row

abbrev pub update_row : (Row → Row) → Option Row → Option Row
update_row f none = none
update_row f (some row) = some (f row)

-- `result.meta.changes !== 0` of an UPDATE with this condition.
abbrev pub changes : (Row → Bool) → Option Row → Bool
changes p none = false
changes p (some row) = p row

pub record RevisionState : Type 0 where
  pub revision : ℕ
  pub writer_token : Option String
  pub write_started_at : Option ℕ

abbrev pub state_of : Option Row → RevisionState
state_of none = record { revision = 0; writer_token = none; write_started_at = none }
state_of (some row) = record {
  revision = row.revision;
  writer_token = row.writer_token;
  write_started_at = row.write_started_at;
}

pub data Reservation : Type 0 where
  granted : String → ℕ → Reservation
  refused : ℕ → Bool → Reservation

module _ {Data : Type 0} where
  abbrev set_row : (Option Row → Option Row) → Server Data → Server Data
  set_row f s = record s { row = f s.row }

  unfoldable pub ensure_revision_row : Exec (World (Server Data)) (Unit {0})
  ensure_revision_row = statement (λ s. (ok tt, set_row (λ r. some (or_default r first_row)) s))

  unfoldable pub recover_stale_write_lease : Exec (World (Server Data)) (Unit {0})
  recover_stale_write_lease = statement (λ s. (ok tt, set_row (update_row (recover_row s.now)) s))

  unfoldable pub read_workspace_revision_state : Exec (World (Server Data)) RevisionState
  unfolding ensure_revision_row recover_stale_write_lease
  read_workspace_revision_state = do
    ensure_revision_row
    recover_stale_write_lease
    statement (λ s. (ok (state_of s.row), s))

  unfoldable pub read_stable_workspace_revision : Exec (World (Server Data)) ℕ
  unfolding read_workspace_revision_state
  read_stable_workspace_revision = do
    state ← read_workspace_revision_state
    if is_some state.writer_token then throw sync_write_in_progress else pure state.revision

  -- The compare-and-set; whether it changed the row.
  unfoldable pub take_lease : ℕ → String → Exec (World (Server Data)) Bool
  take_lease expected token = statement (λ s. (
    ok (changes (λ r. r.revision == expected && not (is_some r.writer_token)) s.row),
    set_row (update_row (reserve_row s.now expected token)) s,
  ))

  unfoldable pub reserve_workspace_write : ℕ → String → Exec (World (Server Data)) Reservation
  unfolding read_workspace_revision_state take_lease
  reserve_workspace_write expected token = do
    state ← read_workspace_revision_state
    if is_some state.writer_token then pure (refused state.revision true) else do
      if not (state.revision == expected) then pure (refused state.revision false) else do
        taken ← take_lease expected token
        if taken then pure (granted token expected) else do
          current ← read_workspace_revision_state
          pure (refused current.revision (is_some current.writer_token))

  unfoldable pub acquire_workspace_write : String → Exec (World (Server Data)) Reservation
  unfolding reserve_workspace_write
  acquire_workspace_write token = do
    state ← read_workspace_revision_state
    if is_some state.writer_token
        then pure (refused state.revision true)
        else reserve_workspace_write state.revision token

  unfoldable pub abort_workspace_write : String → Exec (World (Server Data)) (Unit {0})
  abort_workspace_write token = do
    changed ←
        statement
          (λ s. (ok (changes (held_by token) s.row), set_row (update_row (abort_row token)) s))
    if changed then pure tt else throw sync_write_lease_lost

  unfoldable pub finalize_workspace_write : String → Exec (World (Server Data)) ℕ
  unfolding read_stable_workspace_revision
  finalize_workspace_write token = do
    changed ←
        statement
          (λ s. (ok (changes (held_by token) s.row), set_row (update_row (finalize_row token)) s))
    if changed then read_stable_workspace_revision else throw sync_write_lease_lost

abbrev pub is_busy : Error → Bool
is_busy sync_write_in_progress = true
is_busy _ = false

abbrev caught {ℓ} : {A : Type ℓ} → Result A → Result (Option A)
caught (ok a) = ok (some a)
caught (err e) = if is_busy e then ok none else err e

abbrev pub same_revision : ℕ → Option ℕ → Bool
same_revision before none = false
same_revision before (some after) = before == after

-- How `withWorkspaceWrite` ends: an error of the write goes before an error of the release.
abbrev pub settle {ℓ} : {A : Type ℓ} → Result A → Result ℕ → Result (ℕ × A)
settle (ok value) (ok revision) = ok (revision, value)
settle (ok value) (err e) = err e
settle (err e) _ = err e

module _ {Data A : Type 0} where
  -- `try { ... } catch (error) { if (error is not SYNC_WRITE_IN_PROGRESS) throw error; }`
  abbrev pub catch_busy : Exec (World (Server Data)) A → Exec (World (Server Data)) (Option A)
  catch_busy m w = (caught (m w).0, (m w).1)

module _ {Data A : Type 0} (read : Exec (World (Server Data)) A) where
  -- One attempt after the revision was read; `again` are the attempts that follow.
  abbrev pub read_between :
      Exec (World (Server Data)) (ℕ × A) → Option ℕ → Exec (World (Server Data)) (ℕ × A)
  read_between again none = again
  read_between again (some before) = do
    value ← read
    after ← catch_busy read_stable_workspace_revision
    if same_revision before after then pure (before, value) else again

  unfoldable pub with_stable_workspace_read : ℕ → Exec (World (Server Data)) (ℕ × A)
  with_stable_workspace_read zero = throw sync_snapshot_unstable
  with_stable_workspace_read (suc attempts) = do
    before ← catch_busy read_stable_workspace_revision
    read_between (with_stable_workspace_read attempts) before

module _ {Data A : Type 0} where
  abbrev pub write_reserved :
      Exec (World (Server Data)) A → Reservation → Exec (World (Server Data)) (ℕ × A)
  write_reserved write (refused revision busy) w =
      throw (if busy then sync_write_in_progress else sync_revision_conflict) w
  write_reserved write (granted token base) w =
      let written = write w in
      let released = finalize_workspace_write token written.1 in
      (settle written.0 released.0, released.1)

  unfoldable pub with_workspace_write :
      String → Exec (World (Server Data)) A → Exec (World (Server Data)) (ℕ × A)
  with_workspace_write token write = do
    reserved ← acquire_workspace_write token
    write_reserved write reserved
