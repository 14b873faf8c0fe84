-- ===== src/Sync/Operation/Tests.antt =====
-- The lock of a workspace at concrete inputs.
use sozan.Common.{
  if◌then◌else◌, str_eq, inl, inr, Bool-cases, ap, ℕ, suc, ◌+◌, ◌*◌, ◌/◌, ◌≡◌, ◌≢◌, refl, none,
  some, arith,
}
use sozan.Common.Results.{Result, ok}
use sozan.Common.Exec.{Exec}
use sozan.Sync.Operation.{
  WorkspaceOperation, Shared, on_content, with_workspace_operation,
  with_workspace_operation_when_free,
}
use sozan.Sync.Operation.Exclusive.{Taken, Shows, exclusive, with_workspace_operation-refines}
use sozan.Sync.Operation.Polling.{with_workspace_operation_when_free-ends}

abbrev sync_of : WorkspaceOperation
sync_of = record { name = "sync"; token = "t" }

-- The workspace "w" is taken.
abbrev taken_map : Shared ℕ
taken_map = record {
  active = λ w. if str_eq w "w" then some sync_of else none;
  minted = 0;
  content = 7;
}

abbrev taken_view : Taken ℕ
taken_view = record { taken = λ w. str_eq w "w"; content = 7 }

taken-Shows : Shows taken_map taken_view
taken-Shows = record {
  taken = λ w. elim (Bool-cases (str_eq w "w")) [ inl e ↦ rw e | inr e ↦ rw e ];
  content = refl;
}

abbrev bump : Exec ℕ ℕ
bump n = (ok n, n + 1)

abbrev bump_view : Taken ℕ → Result ℕ × Taken ℕ
bump_view a = (ok a.content, record a { content = a.content + 1 })

with_workspace_operation-refines_example :
    ((with_workspace_operation (λ n. "u") "v" "import" (on_content bump) taken_map).0
      ≡ (exclusive "v" bump_view taken_view).0)
    × Shows
        (with_workspace_operation (λ n. "u") "v" "import" (on_content bump) taken_map).1
        (exclusive "v" bump_view taken_view).1
with_workspace_operation-refines_example =
    with_workspace_operation-refines (λ n. "u") "v" "import" (on_content bump) bump_view
      (λ s a h. (ap ok h.content, record { taken = h.taken; content = ap (λ n. n + 1) h.content }))
      (λ w o s e. e) taken_map taken_view taken-Shows

with_workspace_operation_when_free-ends_example :
    with_workspace_operation_when_free
      (λ n. 100 * n)
      (λ n s. s)
      (λ n. "u")
      (suc (suc (15000 / 100)))
      0
      15000
      "w"
      "import"
      (on_content bump)
      taken_map
    ≢ none
with_workspace_operation_when_free-ends_example =
    with_workspace_operation_when_free-ends (λ n. 100 * n) (λ n s. s) (λ n. omega arith) (λ n. "u")
      0 15000 "w" "import" (on_content bump) taken_map (omega arith)
