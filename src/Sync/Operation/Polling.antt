-- ===== src/Sync/Operation/Polling.antt =====
-- The wait for a free workspace ends.
use native.Mathlib.Nat.{lt-div-mul-add}
use sozan.Common.{
  ℕ, zero, suc, ◌+◌, ◌*◌, ◌/◌, ◌≤◌, ◌≡◌, ◌≢◌, refl, String, Bool, true, false, Option, none, some,
  leb, le→leb, arith,
}
use sozan.Common.Results.{Result}
use sozan.Common.Exec.{Exec}
use sozan.Sync.Operation.{
  WorkspaceOperation, Shared, Waited, free, timed_out, exhausted, wait_where, wait, run_waited,
  with_workspace_operation, with_workspace_operation_when_free,
}

module _ {S : Type 0} (times : ℕ → ℕ) (others : ℕ → Shared S → Shared S)
    (slow : (n : ℕ) → times n + 100 ≤ times (n + 1)) where
  where-ends :
      (o : Option WorkspaceOperation) (late : Bool) (s : Shared S) (more : Waited S)
      → (late ≡ false → more ≢ exhausted)
      → wait_where times others o late s more ≢ exhausted
  where-ends none late s more h e = cc
  where-ends (some o) true s more h e = cc
  where-ends (some o) false s more h e = h refl e

  wait-ends :
      (turns n deadline : ℕ) (ws : String) (s : Shared S)
      → deadline ≤ times n + 100 * turns
      → wait times others (suc turns) n deadline ws s ≢ exhausted
  unfolding wait
  wait-ends zero n deadline ws s enough =
      where-ends (s.active ws) (leb deadline (times n)) s _
        (λ late e. cc (le→leb deadline (times n) (omega arith)))
  wait-ends (suc turns) n deadline ws s enough =
      where-ends (s.active ws) (leb deadline (times n)) s _
        (λ late. wait-ends turns (n + 1) deadline ws (others n s) (omega (arith, slow n)))

  waited-ends :
      {A : Type 0} (w : Waited S) (run : Shared S → Result A × Shared S)
      → w ≢ exhausted
      → run_waited times others w run ≢ none
  waited-ends (free s) run h e = cc
  waited-ends (timed_out s) run h e = cc
  waited-ends exhausted run h e = h refl

  -- When every turn of the loop takes the 100 milliseconds of its sleep at least, the wait ends after
  -- one turn for each 100 milliseconds of the time allowed, and two more: the workspace is free, or
  -- the call is refused as busy.
  pub with_workspace_operation_when_free-ends :
      {A : Type 0} (uuid : ℕ → String) (started wait_ms : ℕ) (ws name : String)
      (run : Exec (Shared S) A) (s : Shared S)
      → started ≤ times 0
      → with_workspace_operation_when_free times others uuid
          (suc (suc (wait_ms / 100)))
          started
          wait_ms
          ws
          name
          run
          s
        ≢ none
  unfolding with_workspace_operation_when_free
  with_workspace_operation_when_free-ends uuid started wait_ms ws name run s begun =
      waited-ends _ (with_workspace_operation uuid ws name run) (
        wait-ends (suc (wait_ms / 100)) 0 (started + wait_ms) ws s
          (omega (arith, lt-div-mul-add {a = wait_ms} {b = 100} (omega arith))))
