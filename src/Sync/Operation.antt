-- ===== src/Sync/Operation.antt =====
-- src/client/sync/workspace-operation.ts: one operation at a time for each workspace of a device. The
-- map of the active operations is shared by all parts of the client; what an operation runs is a
-- method on this map and the other data, which may contain what others do while it waits.
pub mod Exclusive
pub mod Polling
mod Tests
use sozan.Common.{
  ℕ, zero, suc, ◌+◌, String, Bool, true, false, Option, none, some, List, [], ◌∷◌, leb, str_eq,
  if◌then◌else◌,
}
use sozan.Common.Results.{Result, ok, err, workspace_operation_busy}
use sozan.Common.Exec.{Exec}

pub record WorkspaceOperation : Type 0 where
  pub name : String
  pub token : String

pub record Shared (S : Type 0) : Type 0 where
  pub active : String → Option WorkspaceOperation
  -- How many tokens have been made.
  pub minted : ℕ
  pub content : S

-- `activeOperations.set(workspaceId, operation)`, or `delete` where it is none.
abbrev pub put_active :
    String
    → Option WorkspaceOperation
    → (String → Option WorkspaceOperation)
    → String
    → Option WorkspaceOperation
put_active workspace_id o active w = if str_eq w workspace_id then o else active w

-- `latest?.token === token`
abbrev pub has_token : Option WorkspaceOperation → String → Bool
has_token none token = false
has_token (some o) token = str_eq o.token token

module _ {S : Type 0} where
  abbrev pub current_workspace_operation : String → Shared S → Option WorkspaceOperation
  current_workspace_operation workspace_id s = s.active workspace_id

  -- The function that `beginWorkspaceOperation` returns.
  unfoldable pub release : String → String → Shared S → Shared S
  release workspace_id token s =
      if has_token (s.active workspace_id) token
      then record s { active = put_active workspace_id none s.active }
      else s

  module _ (uuid : ℕ → String) where
    abbrev pub operation : String → Shared S → WorkspaceOperation
    operation name s = record { name = name; token = uuid s.minted }

    abbrev pub entered : String → String → Shared S → Shared S
    entered workspace_id name s = record {
      active = put_active workspace_id (some (operation name s)) s.active;
      minted = s.minted + 1;
      content = s.content;
    }

    abbrev pub begin_where : Option WorkspaceOperation → String → String → Exec (Shared S) String
    begin_where (some o) workspace_id name s = (err workspace_operation_busy, s)
    begin_where none workspace_id name s = (ok (uuid s.minted), entered workspace_id name s)

    -- The result is the token that the release closes over.
    unfoldable pub begin_workspace_operation : String → String → Exec (Shared S) String
    begin_workspace_operation workspace_id name s =
        begin_where (s.active workspace_id) workspace_id name s

    -- `try { return await run(); } finally { release(); }`
    abbrev pub run_begun :
        {A : Type 0} → Result String → String → Exec (Shared S) A → Exec (Shared S) A
    run_begun (err e) workspace_id run s = (err e, s)
    run_begun (ok token) workspace_id run s = ((run s).0, release workspace_id token (run s).1)

    unfoldable pub with_workspace_operation :
        {A : Type 0} → String → String → Exec (Shared S) A → Exec (Shared S) A
    with_workspace_operation workspace_id name run s =
        let begun = begin_workspace_operation workspace_id name s in
        run_begun begun.0 workspace_id run begun.1

-- A method on the other data alone.
abbrev pub on_content : {S A : Type 0} → Exec S A → Exec (Shared S) A
on_content m s = ((m s.content).0, record s { content = (m s.content).1 })

-- How the wait for a free workspace ends; `exhausted` is no outcome of the code.
pub data Waited (S : Type 0) : Type 0 where
  free timed_out : Shared S → Waited S
  exhausted : Waited S

module _ {S : Type 0} (times : ℕ → ℕ) (others : ℕ → Shared S → Shared S) where
  abbrev pub wait_where : Option WorkspaceOperation → Bool → Shared S → Waited S → Waited S
  wait_where none late s more = free s
  wait_where (some o) late s more = if late then timed_out s else more

  -- The loop from its n-th turn on. `times` gives what `Date.now()` says in each turn, and `others`
  -- what changes during each `sleep(100)`.
  unfoldable pub wait : ℕ → ℕ → ℕ → String → Shared S → Waited S
  wait zero n deadline workspace_id s = exhausted
  wait (suc turns) n deadline workspace_id s =
      wait_where (current_workspace_operation workspace_id s) (leb deadline (times n)) s
        (wait turns (n + 1) deadline workspace_id (others n s))

  abbrev pub run_waited :
      {A : Type 0} → Waited S → (Shared S → Result A × Shared S) → Option (Result A × Shared S)
  run_waited (free s) run = some (run s)
  run_waited (timed_out s) run = some (err workspace_operation_busy, s)
  run_waited exhausted run = none

  -- None only when the loop needs more turns than these; `started` is the time of the call.
  unfoldable pub with_workspace_operation_when_free :
      {A : Type 0}
      → (ℕ → String)
      → ℕ
      → ℕ
      → ℕ
      → String
      → String
      → Exec (Shared S) A
      → Shared S
      → Option (Result A × Shared S)
  with_workspace_operation_when_free uuid turns started wait_ms workspace_id name run s =
      run_waited (wait turns 0 (started + wait_ms) workspace_id s)
        (with_workspace_operation uuid workspace_id name run)
