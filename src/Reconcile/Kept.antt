-- ===== src/Reconcile/Kept.antt =====
-- The reconciliation keeps the tables of finance valid.
use sozan.Common.{
  ℕ, ◌≤◌, String, Bool, is_some, List, [], ◌∷◌, inl, inr, Bool-cases, Option-cases, All-select,
  select, sum_by, str_eq, arith,
}
use sozan.Common.Exec.Keeps.{Keeps, bind-Keeps}
use sozan.Common.Order.{Collation}
use sozan.Finance.Gateway.{Db, Receipt, get_receipt_allocated_total}
use sozan.Finance.Gateway.Conserved.{IsValid}
use sozan.Finance.Allocation.Bounds.{collect-IsValid}
use sozan.Sync.Push.{SyncMutation}
use sozan.Reconcile.{
  Ledger, CurrentCycle, is_complete, completion_date, normalize_cycle, normalize_each,
  normalize_cycles,
}
use sozan.Reconcile.Students.{
  collect_one, collect_each, reconcile_student_financial_state, delete_allocations,
  rebuild_student_financial_state, reconcile_students, after_apply,
}

abbrev Paid : Ledger → Type 0
Paid ledger = IsValid ledger.finance

sum_by-select :
    {A : Type 0} (f : A → ℕ) (p : A → Bool) (xs : List A) → sum_by f (select p xs) ≤ sum_by f xs
unfolding select
sum_by-select f p [] = omega arith
sum_by-select f p (x ∷ xs) = elim (Bool-cases (p x)) [
  | inl e ↦ rw e (omega (arith, sum_by-select f p xs))
  | inr e ↦ rw e (omega (arith, sum_by-select f p xs))
]

module _ (before : String → String → Bool) (workspace_id : String) where
  normalize_cycle-Keeps : (c : CurrentCycle) → Keeps Paid (normalize_cycle before workspace_id c)
  unfolding normalize_cycle
  normalize_cycle-Keeps c s h = elim (Bool-cases (is_complete c.cycle)) [
    | inr open_yet ↦ rw open_yet h
    | inl full ↦ elim (Option-cases (completion_date before workspace_id c)) [
      | inl missing ↦ rw (full, missing) h
      | inr (date, e) ↦ rw (full, e) h
    ]
  ]

  normalize_each-Keeps :
      (cycles : List CurrentCycle) → Keeps Paid (normalize_each before workspace_id cycles)
  unfolding normalize_each
  normalize_each-Keeps [] = λ s h. h
  normalize_each-Keeps (c ∷ cycles) =
      bind-Keeps Paid (normalize_cycle before workspace_id c) _ (normalize_cycle-Keeps c)
        (λ u. normalize_each-Keeps cycles)

  module _ (new_id : ℕ → String) (c : Collation) where
    collect_each-Keeps :
        (student : String) (receipts : List Receipt)
        → Keeps Paid (collect_each before new_id c workspace_id student receipts)
    unfolding collect_each collect_one
    collect_each-Keeps student [] s h = h
    collect_each-Keeps student (r ∷ receipts) s h = elim (Bool-cases (is_some r.deleted_at)) [
      | inl deleted ↦ rw deleted (collect_each-Keeps student receipts s h)
      | inr live ↦ rw live (
          bind-Keeps Paid (collect_one before new_id c workspace_id student r) _
            (λ s h. collect-IsValid new_id c _ _ s.finance h)
            (λ result. collect_each-Keeps student receipts) s h)
    ]

    reconcile-Keeps :
        (student : String)
        → Keeps Paid (reconcile_student_financial_state before new_id c workspace_id student)
    unfolding reconcile_student_financial_state normalize_cycles
    reconcile-Keeps student s h =
        bind-Keeps Paid (collect_each before new_id c workspace_id student _) _
          (collect_each-Keeps student _) (λ u s h. normalize_each-Keeps _ s h) s h

    delete-IsValid :
        (student : String) (db : Db)
        → IsValid db
        → IsValid (delete_allocations before new_id c workspace_id student db)
    unfolding get_receipt_allocated_total
    delete-IsValid student db v = record {
      conserved = λ ws id r found.
          omega (arith, v.conserved ws id r found, sum_by-select _ _ db.allocations);
      no_orphans = All-select _ _ db.allocations v.no_orphans;
    }

    reconcile_students-Keeps :
        (students : List String)
        → Keeps Paid (reconcile_students before new_id c workspace_id students)
    unfolding reconcile_students
    reconcile_students-Keeps [] = λ s h. h
    reconcile_students-Keeps (student ∷ rest) =
        bind-Keeps Paid (reconcile_student_financial_state before new_id c workspace_id student) _
          (reconcile-Keeps student) (λ u. reconcile_students-Keeps rest)

-- After any mutation the hook keeps the tables of finance valid, whether it returns or throws: no live
-- receipt is allocated beyond its amount, and every allocation has its receipt.
pub after_apply-IsValid :
    (before : String → String → Bool) (new_id : ℕ → String) (c : Collation)
    (students : String → Ledger → List String) (workspace_id : String) (mutation : SyncMutation)
    (d : Ledger)
    → IsValid d.finance
    → IsValid (after_apply before new_id c students workspace_id mutation d).1.finance
unfolding after_apply rebuild_student_financial_state
after_apply-IsValid before new_id c students workspace_id mutation d h =
    elim (Bool-cases (str_eq mutation.operation "billing.configure")) [
      | inl configures ↦ rw configures (
          reconcile-Keeps before workspace_id new_id c mutation.entity_id _
            (delete-IsValid before workspace_id new_id c mutation.entity_id d.finance h))
      | inr other ↦
          rw other
            (reconcile_students-Keeps before workspace_id new_id c (students workspace_id d) d h)
    ]
