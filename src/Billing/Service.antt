-- ===== src/Billing/Service.antt =====
-- src/modules/tutoring/services/billing.service.ts: the plan of a student, and the booking of a
-- completed lesson into a package. Inputs have passed their schema, so counts and prices are natural
-- numbers. Others may change the tables between any two statements.
pub mod Honest
pub mod Configuration
pub mod Keeps
pub mod Accepted
pub mod Booked
pub mod Configured
use sozan.Common.{
  ℕ, zero, suc, ◌+◌, String, Bool, true, false, ◌&&◌, ◌||◌, not, Option, none, some, is_some,
  or_default, or_else, ltb, leb, ◌==◌, if◌then◌else◌,
}
use sozan.Common.Results.{
  Result, ok, err, Error, opening_progress_locked, package_cycle_already_complete,
  package_position_conflict, package_plan_invalid, billing_mode_locked,
  opening_progress_exceeds_package,
}
use sozan.Common.Number.{Number, pos}
use sozan.Common.Exec.{Exec, pure, throw, lift, continue, ◌>>=◌, ◌>>◌, throw_when, catching}
use sozan.Common.Interleave.{World, statement}
use sozan.Billing.Package.{
  PackageProgress, package_progress, package_unit_share, can_change_opening_progress,
}
use sozan.Billing.Plan.{
  ConfigureBillingInput, per_session_from, package_from, StudentBillingSnapshot, snapshot_of,
  check_opening,
}
use sozan.Billing.Repository.{
  BillingMode, per_session, by_package, CycleStatus, opened, due, BillingPlan, CycleRow,
  BillingCycle, Link, BillingDb, is_open, is_package, get_plan, upsert_plan, has_billing_history,
  get_current_cycle, get_open_cycle, get_cycle_for_occurrence, get_next_sequence_no, create_cycle,
  update_opening_progress, add_occurrence_to_cycle, mark_cycle_due,
}

unfoldable pub get_student_billing : String → String → Exec (World BillingDb) StudentBillingSnapshot
get_student_billing workspace_id student_id = do
  plan ← get_plan workspace_id student_id
  cycle ← get_current_cycle workspace_id student_id
  lift (snapshot_of plan cycle)

-- `PACKAGE_POSITION_CONFLICT` and `PACKAGE_CYCLE_ALREADY_COMPLETE` start the next attempt.
abbrev pub is_retried : Error → Bool
is_retried package_position_conflict = true
is_retried package_cycle_already_complete = true
is_retried _ = false

abbrev pub is_full : BillingCycle → Bool
is_full c = leb c.row.session_limit (c.row.opening_completed_count + c.real_completed_count)

-- The lesson is linked already.
unfoldable pub finish_linked :
    String → String → String → BillingCycle → Exec (World BillingDb) StudentBillingSnapshot
finish_linked workspace_id student_id occurred_on c = do
  (if is_full c && is_open c.row.status
      then mark_cycle_due workspace_id c.row.id occurred_on
      else pure tt)
  get_student_billing workspace_id student_id

-- The position that a lesson would take.
abbrev pub next_position : BillingCycle → ℕ
next_position c = c.row.opening_completed_count + c.real_completed_count + 1

abbrev pub link_to : String → String → BillingCycle → ℕ → Link
link_to workspace_id occurrence_id c share = record {
  workspace_id = workspace_id;
  billing_cycle_id = c.row.id;
  occurrence_id = occurrence_id;
  position = next_position c;
  earned_pence = share;
}

-- `packageUnitShare(...)` and `addOccurrenceToCycle(...)`
unfoldable pub book : String → String → BillingCycle → Exec (World BillingDb) (Unit {0})
book workspace_id occurrence_id c = do
  share ←
      lift (
        package_unit_share (pos c.row.price_pence) (pos c.row.session_limit)
          (pos (next_position c)))
  add_occurrence_to_cycle (link_to workspace_id occurrence_id c share)

-- The end of an attempt, when the lesson was booked.
abbrev pub finish_booked :
    String
    → String
    → String
    → BillingCycle
    → Exec (World BillingDb) StudentBillingSnapshot
    → Option (Unit {0})
    → Exec (World BillingDb) StudentBillingSnapshot
finish_booked workspace_id student_id occurred_on c again none = again
finish_booked workspace_id student_id occurred_on c again (some u) = do
  (if next_position c == c.row.session_limit
      then mark_cycle_due workspace_id c.row.id occurred_on
      else pure tt)
  get_student_billing workspace_id student_id

-- The part of an attempt that has a cycle; `again` are the attempts that follow.
abbrev pub book_in :
    String
    → String
    → String
    → String
    → Exec (World BillingDb) StudentBillingSnapshot
    → Option BillingCycle
    → Exec (World BillingDb) StudentBillingSnapshot
book_in workspace_id student_id occurrence_id occurred_on again none = again
book_in workspace_id student_id occurrence_id occurred_on again (some c) =
    if ltb c.row.session_limit (next_position c)
    then again
    else (catching is_retried (book workspace_id occurrence_id c) >>= λ booked.
        finish_booked workspace_id student_id occurred_on c again booked)

module _ (new_id : ℕ → String) where
  -- `this.idFactory()`
  abbrev pub mint : Exec (World BillingDb) String
  mint (db, gs) = (ok (new_id db.minted), (record db { minted = db.minted + 1 }, gs))

  abbrev pub next_cycle : String → String → String → ℕ → ℕ → ℕ → String → CycleRow
  next_cycle id workspace_id student_id sequence size price occurred_on = record {
    id = id;
    workspace_id = workspace_id;
    student_id = student_id;
    sequence_no = sequence;
    session_limit = size;
    price_pence = price;
    opening_completed_count = 0;
    opening_progress_locked_at = none;
    status = opened;
    started_on = some occurred_on;
    completed_on = none;
    paid_on = none;
  }

  unfoldable pub create_next :
      String → String → ℕ → ℕ → String → Exec (World BillingDb) BillingCycle
  create_next workspace_id student_id size price occurred_on = do
    id ← mint
    sequence ← get_next_sequence_no workspace_id student_id
    create_cycle (next_cycle id workspace_id student_id sequence size price occurred_on)

  -- The open cycle, or a new one; none where the creation failed.
  abbrev pub cycle_or_new :
      String
      → String
      → ℕ
      → ℕ
      → String
      → Option BillingCycle
      → Exec (World BillingDb) (Option BillingCycle)
  cycle_or_new workspace_id student_id size price occurred_on (some cycle) = pure (some cycle)
  cycle_or_new workspace_id student_id size price occurred_on none =
      catching (λ e. true) (create_next workspace_id student_id size price occurred_on)

  abbrev pub attempt_from :
      String
      → String
      → String
      → String
      → ℕ
      → ℕ
      → Exec (World BillingDb) StudentBillingSnapshot
      → Option BillingCycle
      → Exec (World BillingDb) StudentBillingSnapshot
  attempt_from workspace_id student_id occurrence_id occurred_on size price again (some linked) =
      finish_linked workspace_id student_id occurred_on linked
  attempt_from workspace_id student_id occurrence_id occurred_on size price again none = do
    found ← get_open_cycle workspace_id student_id
    cycle ← cycle_or_new workspace_id student_id size price occurred_on found
    book_in workspace_id student_id occurrence_id occurred_on again cycle

  -- The loop, with this many attempts left.
  unfoldable pub book_attempts :
      String → String → String → String → ℕ → ℕ → ℕ → Exec (World BillingDb) StudentBillingSnapshot
  book_attempts workspace_id student_id occurrence_id occurred_on size price zero =
      throw package_position_conflict
  book_attempts workspace_id student_id occurrence_id occurred_on size price (suc attempts) = do
    linked ← get_cycle_for_occurrence workspace_id student_id occurrence_id
    attempt_from workspace_id student_id occurrence_id occurred_on size price
        (book_attempts workspace_id student_id occurrence_id occurred_on size price attempts) linked

  abbrev pub book_under :
      String
      → String
      → String
      → String
      → Option ℕ
      → Option ℕ
      → Exec (World BillingDb) StudentBillingSnapshot
  book_under workspace_id student_id occurrence_id occurred_on (some size) (some price) =
      book_attempts workspace_id student_id occurrence_id occurred_on size price 4
  book_under workspace_id student_id occurrence_id occurred_on _ _ = throw package_plan_invalid

  abbrev pub book_planned :
      String
      → String
      → String
      → String
      → Option BillingPlan
      → Exec (World BillingDb) StudentBillingSnapshot
  book_planned workspace_id student_id occurrence_id occurred_on none =
      get_student_billing workspace_id student_id
  book_planned workspace_id student_id occurrence_id occurred_on (some plan) =
      if is_package plan.billing_mode
      then book_under workspace_id student_id occurrence_id occurred_on plan.package_size
          plan.package_price_pence
      else get_student_billing workspace_id student_id

  unfoldable pub record_completed_occurrence :
      String → String → String → String → Exec (World BillingDb) StudentBillingSnapshot
  unfolding book_attempts
  record_completed_occurrence workspace_id student_id occurrence_id occurred_on = do
    plan ← get_plan workspace_id student_id
    book_planned workspace_id student_id occurrence_id occurred_on plan
