-- ===== src/Reconcile.antt =====
-- src/server/integrations/financial-reconcile.ts and the obligations of a student in
-- tutoring-obligations.provider.ts beside it: the receipts of a student are collected again against the
-- packages and lessons that are owed, and the states of the packages follow from the lessons and the
-- allocations. A reconciliation runs without interference; its tables are those of the packages and of
-- finance, and of the lessons and families the columns that are read here.
pub mod Normalized
pub mod Students
pub mod Kept
pub mod Twice
mod Tests
use Prim.Native.Nat.{Ordering}
use sozan.Common.{
  ℕ, ◌+◌, ◌<◌, String, Bool, true, false, ◌&&◌, ◌||◌, not, Option, none, some, is_some, or_default,
  or_else, List, [], ◌∷◌, ◌++◌, map, select, some_of, filter_map, str_eq, option_eq, ltb, leb,
  if◌then◌else◌,
}
use sozan.Common.Results.{Result, ok, err, billing_cycle_completion_date_missing}
use sozan.Common.Order.{Collation, sort, then_by, compare_numbers}
use sozan.Common.Number.{pos}
use sozan.Common.Exec.{Exec, pure, throw, gets, modify, continue, ◌>>=◌, ◌>>◌}
use sozan.Billing.Repository.{
  BillingDb, CycleRow, CycleStatus, opened, due, paid, BillingCycle, OccurrenceRow, is_of, is_row,
  is_cancelled, is_link_completed, is_lesson_completed, is_package, links_of, map_cycle,
  update_cycles, Link,
}
use sozan.Finance.Contracts.{ExternalReference, PayerReference, same_ref}
use sozan.Finance.Gateway.{Db, Receipt, Allocation, get_allocated_total, live_receipt}
use sozan.Finance.Allocation.{FinancialObligation, CollectCommand, collect}

pub data PriceSnapshot : Type 0 where
  per_student total_session other_basis : PriceSnapshot

-- The columns of tutoring_occurrences that only the reconciliation reads; its status is that of the
-- row of the same lesson in the tables of the packages.
pub record Lesson : Type 0 where
  pub workspace_id : String
  pub id : String
  pub session_date : String
  pub rescheduled_to_date : Option String
  pub completed_at : Option String
  pub price_basis : PriceSnapshot
  pub default_price_pence : Option ℕ
  pub gross_pence : ℕ
  pub payer_student_id : Option String

-- A row of tutoring_occurrence_students of a student who attended.
pub record Attendance : Type 0 where
  pub workspace_id : String
  pub occurrence_id : String
  pub student_id : String

-- An active member of an active family account.
pub record FamilyMember : Type 0 where
  pub workspace_id : String
  pub student_id : String

pub record Ledger : Type 0 where
  pub billing : BillingDb
  pub finance : Db
  pub lessons : List Lesson
  pub attended : List Attendance
  pub families : List FamilyMember
  -- The column created_at of the cycle with this identifier.
  pub created_at : String → String

abbrev pub lesson_date : Lesson → String
lesson_date o = or_default o.rescheduled_to_date o.session_date

-- `MAX` of texts, in the order of the database.
abbrev pub later_text : (String → String → Bool) → String → Option String → String
later_text before a none = a
later_text before a (some b) = if before a b then b else a

unfoldable pub max_text : (String → String → Bool) → List String → Option String
max_text before [] = none
max_text before (a ∷ rest) = some (later_text before a (max_text before rest))

-- The dates of the completed lessons of a cycle.
abbrev pub completed_dates : CycleRow → Ledger → List String
completed_dates c ledger =
    filter_map
      (λ o.
        if some_of
          (λ l.
            str_eq l.workspace_id o.workspace_id
            && str_eq l.occurrence_id o.id
            && is_link_completed ledger.billing.occurrences l)
          (links_of c ledger.billing.links)
        then some (lesson_date o)
        else none)
      ledger.lessons

abbrev pub package_target : String → ExternalReference
package_target cycle_id = record { module_key = "tutoring"; type = "package_cycle"; id = cycle_id }

abbrev received_date : Option Receipt → Option String
received_date none = none
received_date (some r) = some r.received_at

-- When the live receipts of the allocations to a target were received.
abbrev pub received_dates : String → ExternalReference → Db → List String
received_dates workspace_id target db =
    filter_map
      (λ a.
        if str_eq a.workspace_id workspace_id && same_ref a.target target
        then received_date (live_receipt a.workspace_id a.receipt_id db.receipts)
        else none)
      db.allocations

-- A cycle as the reconciliation reads it.
pub record CurrentCycle : Type 0 where
  pub cycle : BillingCycle
  pub latest_completed : Option String

-- `WHERE c.workspace_id=?1 AND c.student_id=?2 AND c.status<>'cancelled'`
abbrev pub is_current : String → String → CycleRow → Bool
is_current workspace_id student_id c =
    is_of workspace_id student_id c && not (is_cancelled c.status)

abbrev pub is_complete : BillingCycle → Bool
is_complete c = leb c.row.session_limit (c.row.opening_completed_count + c.real_completed_count)

-- `!completedOn`
abbrev pub given : Option String → Option String
given none = none
given (some text) = if str_eq text "" then none else some text

abbrev pub set_state : CycleStatus → Option String → Option String → CycleRow → CycleRow
set_state status completed_on paid_on c = record c {
  status = status;
  completed_on = completed_on;
  paid_on = paid_on;
}

abbrev pub on_cycles : (BillingDb → BillingDb) → Exec Ledger (Unit {0})
on_cycles f = modify (λ ledger. record ledger { billing = f ledger.billing })

module _ (before : String → String → Bool) (workspace_id : String) where
  -- `cycle.completed_on ?? cycle.latest_completed ?? cycle.started_on`
  abbrev pub completion_date : CurrentCycle → Option String
  completion_date c =
      given (or_else c.cycle.row.completed_on (or_else c.latest_completed c.cycle.row.started_on))

  abbrev pub is_paid : CycleRow → Ledger → Bool
  is_paid c ledger =
      leb c.price_pence (get_allocated_total workspace_id (package_target c.id) ledger.finance)

  abbrev pub paid_date : CycleRow → String → Ledger → Option String
  paid_date c completed_on ledger =
      or_else (max_text before (received_dates workspace_id (package_target c.id) ledger.finance))
        (some completed_on)

  -- The part of the loop's body that has a date.
  abbrev pub state_complete : CycleRow → Ledger → String → CycleRow → CycleRow
  state_complete c ledger completed_on =
      if is_paid c ledger
      then set_state paid (some completed_on) (paid_date c completed_on ledger)
      else set_state due (some completed_on) none

  abbrev pub normalize_complete : BillingCycle → Option String → Exec Ledger (Unit {0})
  normalize_complete c none ledger = throw billing_cycle_completion_date_missing ledger
  normalize_complete c (some completed_on) ledger =
      on_cycles
        (update_cycles (is_row workspace_id c.row.id) (state_complete c.row ledger completed_on))
        ledger

  -- The body of the loop.
  unfoldable pub normalize_cycle : CurrentCycle → Exec Ledger (Unit {0})
  normalize_cycle c ledger =
      if is_complete c.cycle
      then normalize_complete c.cycle (completion_date c) ledger
      else on_cycles
          (update_cycles (is_row workspace_id c.cycle.row.id) (set_state opened none none)) ledger

  unfoldable pub normalize_each : List CurrentCycle → Exec Ledger (Unit {0})
  normalize_each [] = pure tt
  normalize_each (c ∷ cycles) = normalize_cycle c >> normalize_each cycles

  abbrev pub read_cycle : Ledger → CycleRow → CurrentCycle
  read_cycle ledger c = record {
    cycle = map_cycle ledger.billing c;
    latest_completed = max_text before (completed_dates c ledger);
  }

  abbrev pub current_cycles : String → Ledger → List CurrentCycle
  current_cycles student_id ledger = map (read_cycle ledger) (
      sort (λ a b. compare_numbers a.sequence_no b.sequence_no)
        (select (is_current workspace_id student_id) ledger.billing.cycles))

  unfoldable pub normalize_cycles : String → Exec Ledger (Unit {0})
  normalize_cycles student_id = do cycles ← gets (current_cycles student_id); normalize_each cycles
