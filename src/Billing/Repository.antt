-- ===== src/Billing/Repository.antt =====
-- src/server/adapters/d1/tutoring-billing.repository.ts and src/modules/tutoring/domain/billing-plan.ts:
-- the plans, cycles and linked lessons of packages in the cloud database, each query read from its
-- SQL. A table is the list of its rows. Every statement is one step, and between two of them others
-- may change the tables. Of the schema, the unique keys and the checks of the two tables that are
-- written are modelled; foreign keys are not.
mod Tables
pub mod Valid
pub mod Linked
pub mod Terms
pub mod Earned
pub mod Reopened
unfoldable pub use Tables.*
use sozan.Common.{
  ℕ, ◌+◌, String, Bool, true, false, ◌&&◌, ◌||◌, not, Option, none, some, is_some, or_default, List,
  [], ◌∷◌, map, select, find_first, some_of, sum_by, length, max, str_eq, ltb, leb, ◌==◌,
  if◌then◌else◌,
}
use sozan.Common.Results.{
  Result, ok, err, billing_cycle_insert_failed, opening_progress_locked, billing_cycle_not_found,
  package_cycle_already_complete, package_position_conflict, unique_constraint_failed,
}
use sozan.Common.Number.{max_safe_integer}
use sozan.Common.Exec.{Exec, pure, throw, continue, ◌>>=◌, ◌>>◌}
use sozan.Common.Interleave.{World, statement}

abbrev pub query : {A : Type 0} → (BillingDb → A) → Exec (World BillingDb) A
query f = statement (λ db. (ok (f db), db))

abbrev pub run_sql : (BillingDb → BillingDb) → Exec (World BillingDb) (Unit {0})
run_sql f = statement (λ db. (ok tt, f db))

unfoldable pub get_plan : String → String → Exec (World BillingDb) (Option BillingPlan)
get_plan workspace_id student_id = query (λ db.
    find_first (λ p. str_eq p.workspace_id workspace_id && str_eq p.student_id student_id) db.plans)

-- `ON CONFLICT(student_id) DO UPDATE`
unfoldable pub put_plan : BillingPlan → List BillingPlan → List BillingPlan
put_plan plan [] = plan ∷ []
put_plan plan (p ∷ ps) =
    let rest = put_plan plan ps in
    if str_eq p.student_id plan.student_id then plan ∷ ps else p ∷ rest

unfoldable pub upsert_plan : BillingPlan → Exec (World BillingDb) (Unit {0})
upsert_plan plan = run_sql (λ db. record db { plans = put_plan plan db.plans })

abbrev pub is_history : OccurrenceStatus → Bool
is_history scheduled = false
is_history _ = true

unfoldable pub has_billing_history : String → String → Exec (World BillingDb) Bool
has_billing_history workspace_id student_id = query (λ db.
    some_of (is_of workspace_id student_id) db.cycles
    || some_of
        (λ o.
          some_of
            (λ ss.
              str_eq ss.workspace_id o.workspace_id
              && str_eq ss.recurring_session_id o.recurring_session_id
              && str_eq o.workspace_id workspace_id
              && str_eq ss.student_id student_id
              && is_history o.status)
            db.session_students)
        db.occurrences)

unfoldable pub get_current_cycle : String → String → Exec (World BillingDb) (Option BillingCycle)
get_current_cycle workspace_id student_id = query (current_cycle workspace_id student_id)

unfoldable pub get_open_cycle : String → String → Exec (World BillingDb) (Option BillingCycle)
get_open_cycle workspace_id student_id = query (open_cycle workspace_id student_id)

unfoldable pub get_cycle_for_occurrence :
    String → String → String → Exec (World BillingDb) (Option BillingCycle)
get_cycle_for_occurrence workspace_id student_id occurrence_id =
    query (cycle_for_occurrence workspace_id student_id occurrence_id)

unfoldable pub get_next_sequence_no : String → String → Exec (World BillingDb) ℕ
get_next_sequence_no workspace_id student_id =
    query (λ db. max_sequence workspace_id student_id db.cycles + 1)

-- The part of `createCycle` after its queries.
abbrev pub inserted : Option BillingCycle → Exec (World BillingDb) BillingCycle
inserted none = throw billing_cycle_insert_failed
inserted (some cycle) = pure cycle

unfoldable pub create_cycle : CycleRow → Exec (World BillingDb) BillingCycle
create_cycle input = do
  run_sql (insert_cycle input)
  cycle ← query (
      if is_open input.status
      then open_cycle input.workspace_id input.student_id
      else current_cycle input.workspace_id input.student_id)
  inserted cycle

-- The row that an UPDATE writes, for the rows that its condition meets.
abbrev pub update_cycles : (CycleRow → Bool) → (CycleRow → CycleRow) → BillingDb → BillingDb
update_cycles p f db = record db { cycles = map (λ c. if p c then f c else c) db.cycles }

abbrev pub opening_changes : String → String → BillingDb → CycleRow → Bool
opening_changes workspace_id cycle_id db c =
    is_row workspace_id cycle_id c
    && not (is_some c.opening_progress_locked_at)
    && not (
        some_of (λ l. is_link_of workspace_id cycle_id l && is_link_completed db.occurrences l)
          db.links)

unfoldable pub update_opening_progress :
    String → String → ℕ → CycleStatus → Option String → Exec (World BillingDb) (Unit {0})
update_opening_progress workspace_id cycle_id opening status completed_on = do
  changed ← statement (λ db. (
    ok (some_of (opening_changes workspace_id cycle_id db) db.cycles),
    update_cycles (opening_changes workspace_id cycle_id db)
        (λ c. record c {
          opening_completed_count = opening;
          status = status;
          completed_on = completed_on;
          paid_on = none;
        })
        db,
  ))
  if changed then pure tt else throw opening_progress_locked

-- The guard of the INSERT: the cycle is open, the position is the next one and fits, and the lesson
-- is not linked yet.
abbrev pub takes_link : Link → BillingDb → CycleRow → Bool
takes_link l db c =
    is_row l.workspace_id l.billing_cycle_id c
    && is_open c.status
    && l.position == c.opening_completed_count + length (links_of c db.links) + 1
    && leb l.position c.session_limit
    && not (is_linked c.workspace_id c.id l.occurrence_id db.links)

abbrev pub meets_key : Link → Link → Bool
meets_key l k =
    str_eq k.billing_cycle_id l.billing_cycle_id
    && (str_eq k.occurrence_id l.occurrence_id || k.position == l.position)

-- The INSERT; whether it inserted a row.
abbrev pub insert_link : Link → BillingDb → Result Bool × BillingDb
insert_link l db =
    if some_of (takes_link l db) db.cycles
    then (if some_of (meets_key l) db.links
        then (err unique_constraint_failed, db)
        else (ok true, record db { links = l ∷ db.links }))
    else (ok false, db)

-- The part of `addOccurrenceToCycle` that explains why nothing was inserted.
abbrev pub refused_link : Option CycleRow → ℕ → Exec (World BillingDb) (Unit {0})
refused_link none count = throw billing_cycle_not_found
refused_link (some c) count =
    if leb c.session_limit (c.opening_completed_count + count)
    then throw package_cycle_already_complete
    else throw package_position_conflict

abbrev pub count_links : BillingDb → Option CycleRow → Option CycleRow × ℕ
count_links db none = (none, 0)
count_links db (some c) = (some c, length (links_of c db.links))

unfoldable pub explain_refusal : Link → Exec (World BillingDb) (Unit {0})
explain_refusal l = do
  linked ← query (λ db. is_linked l.workspace_id l.billing_cycle_id l.occurrence_id db.links)
  if linked
      then pure tt
      else (query
            (λ db. count_links db (find_first (is_row l.workspace_id l.billing_cycle_id) db.cycles))
          >>= λ found. refused_link found.0 found.1)

abbrev pub lock_opening : String → CycleRow → CycleRow
lock_opening now c = record c {
  opening_progress_locked_at = some (or_default c.opening_progress_locked_at now);
}

unfoldable pub add_occurrence_to_cycle : Link → Exec (World BillingDb) (Unit {0})
unfolding explain_refusal
add_occurrence_to_cycle l = do
  existing ← query (λ db. is_linked l.workspace_id l.billing_cycle_id l.occurrence_id db.links)
  if existing then pure tt else do
    changed ← statement (insert_link l)
    if changed
        then run_sql (λ db.
          update_cycles (is_row l.workspace_id l.billing_cycle_id) (lock_opening db.now) db)
        else explain_refusal l

abbrev pub due_row : String → String → CycleRow → CycleRow
due_row now completed_on c =
    lock_opening now (record c { status = due; completed_on = some completed_on })

unfoldable pub mark_cycle_due : String → String → String → Exec (World BillingDb) (Unit {0})
mark_cycle_due workspace_id cycle_id completed_on = run_sql (λ db.
    update_cycles (λ c. is_row workspace_id cycle_id c && is_open c.status)
      (due_row db.now completed_on) db)
