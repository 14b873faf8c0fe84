-- ===== src/Reconcile/Students.antt =====
-- What a student owes (tutoring-obligations.provider.ts, finance-target.ts), the reconciliation of a
-- student and of a workspace, and the hook of the synchronisation that calls them
-- (financial-reconcile.sync-hook.ts). Of the provider the branch of a family account is not modelled:
-- the reconciliation lists the obligations of students only.
use Prim.Native.Nat.{Ordering}
use Prim.Native.String
use sozan.Common.{
  ℕ, String, Bool, true, false, ◌&&◌, not, Option, none, some, is_some, or_default, List, [], ◌∷◌,
  ◌++◌, map, select, some_of, filter_map, str_eq, option_eq, ltb, if◌then◌else◌,
}
use sozan.Common.Order.{Collation, sort, then_by, compare_numbers}
use sozan.Common.Number.{pos}
use sozan.Common.Exec.{Exec, pure, gets, modify, ◌>>=◌, ◌>>◌}
use sozan.Billing.Repository.{
  CycleRow, CycleStatus, due, paid, is_of, is_package, is_lesson_completed,
}
use sozan.Finance.Contracts.{PayerReference}
use sozan.Finance.Gateway.{Db, Receipt, Allocation}
use sozan.Finance.Allocation.{
  FinancialObligation, ObligationProvider, CollectCommand, CollectionResult, collect,
}
use sozan.Sync.Push.{SyncMutation, Hook}
use sozan.Reconcile.{
  Ledger, Lesson, PriceSnapshot, per_student, total_session, other_basis, lesson_date,
  package_target, normalize_cycles,
}

abbrev pub is_owed : CycleStatus → Bool
is_owed due = true
is_owed paid = true
is_owed _ = false

abbrev pub in_family : String → String → Ledger → Bool
in_family workspace_id student_id ledger =
    some_of (λ m. str_eq m.workspace_id workspace_id && str_eq m.student_id student_id)
      ledger.families

-- `COALESCE(c.completed_on, c.started_on, c.created_at)`
abbrev pub cycle_due_at : Ledger → CycleRow → String
cycle_due_at ledger c = or_default c.completed_on (or_default c.started_on (ledger.created_at c.id))

abbrev pub package_obligations : String → String → Ledger → List FinancialObligation
package_obligations workspace_id student_id ledger =
    map
      (λ c. record {
        target = package_target c.id;
        due_at = cycle_due_at ledger c;
        amount_due_pence = c.price_pence;
      })
      (sort (λ a b. compare_numbers a.sequence_no b.sequence_no)
        (select
          (λ c.
            is_of workspace_id student_id c
            && is_owed c.status
            && not (in_family c.workspace_id c.student_id ledger))
          ledger.billing.cycles))

abbrev pub lesson_amount : PriceSnapshot → Lesson → ℕ
lesson_amount per_student o = or_default o.default_price_pence 0
lesson_amount total_session o = o.gross_pence
lesson_amount other_basis o = 0

abbrev pub is_charged : PriceSnapshot → String → Ledger → Lesson → Bool
is_charged per_student student_id ledger o =
    some_of
      (λ s.
        str_eq s.workspace_id o.workspace_id
        && str_eq s.occurrence_id o.id
        && str_eq s.student_id student_id)
      ledger.attended
is_charged total_session student_id ledger o = option_eq o.payer_student_id (some student_id)
is_charged other_basis student_id ledger o = false

abbrev pub pays_per_session : String → String → Ledger → Bool
pays_per_session workspace_id student_id ledger =
    some_of
      (λ p.
        str_eq p.workspace_id workspace_id
        && str_eq p.student_id student_id
        && not (is_package p.billing_mode))
      ledger.billing.plans

unfoldable pub student_occurrence_target_id : String → String → String
student_occurrence_target_id occurrence_id student_id =
    String.◌++◌ occurrence_id (String.◌++◌ ":" student_id)

module _ (before : String → String → Bool) where
  abbrev pub compare_texts : String → String → Ordering
  compare_texts a b =
      if before a b then Ordering.lt else if before b a then Ordering.gt else Ordering.eq

  abbrev pub lesson_obligations : String → String → Ledger → List FinancialObligation
  lesson_obligations workspace_id student_id ledger =
      filter_map
        (λ o.
          if ltb 0 (lesson_amount o.price_basis o)
          then some (record {
            target = record {
              module_key = "tutoring";
              type = "student_occurrence";
              id = student_occurrence_target_id o.id student_id;
            };
            due_at = or_default o.completed_at o.session_date;
            amount_due_pence = lesson_amount o.price_basis o;
          })
          else none)
        (sort
          (λ a b. then_by (compare_texts (lesson_date a) (lesson_date b)) (compare_texts a.id b.id))
          (select
            (λ o.
              str_eq o.workspace_id workspace_id
              && pays_per_session workspace_id student_id ledger
              && is_lesson_completed workspace_id o.id ledger.billing.occurrences
              && is_charged o.price_basis student_id ledger o)
            ledger.lessons))

  -- The provider for a payer that is a student.
  unfoldable pub list_open_obligations : Ledger → ObligationProvider
  list_open_obligations ledger workspace_id payer =
      if not (str_eq payer.type "tutoring.student")
      then []
      else package_obligations workspace_id payer.id ledger
        ++ lesson_obligations workspace_id payer.id ledger

  abbrev pub is_payer : String → Option PayerReference → Bool
  is_payer student_id none = false
  is_payer student_id (some p) = str_eq p.type "tutoring.student" && str_eq p.id student_id

  abbrev pub is_receipt_of : String → String → Receipt → Bool
  is_receipt_of workspace_id student_id r =
      str_eq r.workspace_id workspace_id && is_payer student_id r.payer

  -- A method of finance on its tables.
  abbrev pub on_finance : {A : Type 0} → Exec Db A → Exec Ledger A
  on_finance m ledger = let out = m ledger.finance in (out.0, record ledger { finance = out.1 })

  abbrev pub collect_command : String → String → Receipt → CollectCommand
  collect_command workspace_id student_id r = record {
    receipt_id = some r.id;
    workspace_id = workspace_id;
    payer = some (record { type = "tutoring.student"; id = student_id });
    amount_pence = pos r.amount_pence;
    received_at = r.received_at;
    payment_method = r.payment_method;
    source_kind = r.source_kind;
    source = r.source;
    note = r.note;
  }

  module _ (new_id : ℕ → String) (c : Collation) (workspace_id : String) where
    unfoldable pub collect_one : String → Receipt → Exec Ledger CollectionResult
    collect_one student_id r ledger =
        on_finance
          (collect new_id c (list_open_obligations ledger ∷ [])
            (collect_command workspace_id student_id r))
          ledger

    unfoldable pub collect_each : String → List Receipt → Exec Ledger (Unit {0})
    collect_each student_id [] = pure tt
    collect_each student_id (r ∷ receipts) =
        let rest = collect_each student_id receipts in
        if is_some r.deleted_at then rest else (collect_one student_id r >>= λ result. rest)

    abbrev pub receipts_of : String → Ledger → List Receipt
    receipts_of student_id ledger =
        sort (λ a b. then_by (compare_texts a.received_at b.received_at) (compare_texts a.id b.id))
          (select (is_receipt_of workspace_id student_id) ledger.finance.receipts)

    unfoldable pub reconcile_student_financial_state : String → Exec Ledger (Unit {0})
    reconcile_student_financial_state student_id = do
      receipts ← gets (receipts_of student_id)
      collect_each student_id receipts
      normalize_cycles before workspace_id student_id

    abbrev pub is_allocation_of : String → Db → Allocation → Bool
    is_allocation_of student_id db a =
        str_eq a.workspace_id workspace_id
        && some_of (λ r. is_receipt_of workspace_id student_id r && str_eq r.id a.receipt_id)
            db.receipts

    abbrev pub delete_allocations : String → Db → Db
    delete_allocations student_id db = record db {
      allocations = select (λ a. not (is_allocation_of student_id db a)) db.allocations;
    }

    unfoldable pub rebuild_student_financial_state : String → Exec Ledger (Unit {0})
    rebuild_student_financial_state student_id = do
      modify (λ ledger. record ledger { finance = delete_allocations student_id ledger.finance })
      reconcile_student_financial_state student_id

    unfoldable pub reconcile_students : List String → Exec Ledger (Unit {0})
    reconcile_students [] = pure tt
    reconcile_students (student_id ∷ rest) =
        reconcile_student_financial_state student_id >> reconcile_students rest

    -- The students of the workspace that are not deleted are an argument.
    abbrev pub reconcile_workspace_financial_state : (Ledger → List String) → Exec Ledger (Unit {0})
    reconcile_workspace_financial_state students = gets students >>= reconcile_students

  unfoldable pub after_apply :
      (ℕ → String)
      → Collation
      → (String → Ledger → List String)
      → String
      → SyncMutation
      → Exec Ledger (Unit {0})
  after_apply new_id c students workspace_id mutation =
      if str_eq mutation.operation "billing.configure"
      then rebuild_student_financial_state new_id c workspace_id mutation.entity_id
      else reconcile_workspace_financial_state new_id c workspace_id (students workspace_id)

  abbrev pub financial_reconcile_sync_hook :
      (ℕ → String) → Collation → (String → Ledger → List String) → Hook Ledger
  financial_reconcile_sync_hook new_id c students = record {
    supports = λ mutation. str_eq mutation.module_key "tutoring";
    after_apply = after_apply new_id c students;
  }
