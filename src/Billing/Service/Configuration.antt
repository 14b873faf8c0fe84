-- ===== src/Billing/Service/Configuration.antt =====
-- `configure` of src/modules/tutoring/services/billing.service.ts: the plan of a student and the first
-- cycle of a package, or the change of the opening count of the current one.
use sozan.Common.{
  ℕ, ◌+◌, String, Bool, true, false, ◌&&◌, not, Option, none, some, or_default, ◌==◌, if◌then◌else◌,
}
use sozan.Common.Results.{billing_mode_locked}
use sozan.Common.Exec.{Exec, pure, lift, ◌>>=◌, ◌>>◌, throw_when}
use sozan.Common.Interleave.{World}
use sozan.Billing.Plan.{
  ConfigureBillingInput, per_session_from, package_from, StudentBillingSnapshot, check_opening,
}
use sozan.Billing.Repository.{
  BillingMode, per_session, by_package, opened, due, BillingPlan, CycleRow, BillingCycle, BillingDb,
  get_plan, upsert_plan, has_billing_history, get_current_cycle, create_cycle,
  update_opening_progress,
}
use sozan.Billing.Service.{get_student_billing, mint}

abbrev pub mode_of : ConfigureBillingInput → BillingMode
mode_of (per_session_from date) = per_session
mode_of (package_from size price date anchor opening) = by_package

abbrev pub same_mode : BillingMode → BillingMode → Bool
same_mode per_session per_session = true
same_mode by_package by_package = true
same_mode _ _ = false

-- `existing && hasHistory && existing.billingMode !== parsed.billingMode`
abbrev pub is_locked_mode : Option BillingPlan → Bool → BillingMode → Bool
is_locked_mode none history mode = false
is_locked_mode (some plan) history mode = history && not (same_mode plan.billing_mode mode)

abbrev pub plan_of : String → String → ConfigureBillingInput → BillingPlan
plan_of workspace_id student_id (per_session_from date) = record {
  workspace_id = workspace_id;
  student_id = student_id;
  billing_mode = per_session;
  package_size = none;
  package_price_pence = none;
  cycle_anchor_date = none;
  effective_from = date;
}
plan_of workspace_id student_id (package_from size price date anchor opening) = record {
  workspace_id = workspace_id;
  student_id = student_id;
  billing_mode = by_package;
  package_size = some size;
  package_price_pence = some price;
  cycle_anchor_date = anchor;
  effective_from = date;
}

-- The change of the opening count of the current cycle.
unfoldable pub change_opening :
    String → Option BillingCycle → ConfigureBillingInput → Exec (World BillingDb) (Unit {0})
change_opening workspace_id (some c) (package_from size price date anchor opening) =
    let full = opening + c.real_completed_count == c.row.session_limit in
    if c.row.opening_completed_count == opening
    then pure tt
    else update_opening_progress workspace_id c.row.id opening (if full then due else opened)
        (if full then some (or_default c.row.completed_on date) else none)
change_opening workspace_id _ _ = pure tt

module _ (new_id : ℕ → String) where
  abbrev pub first_cycle : String → String → String → ℕ → ℕ → String → Option String → ℕ → CycleRow
  first_cycle id workspace_id student_id size price date anchor opening = record {
    id = id;
    workspace_id = workspace_id;
    student_id = student_id;
    sequence_no = 1;
    session_limit = size;
    price_pence = price;
    opening_completed_count = opening;
    opening_progress_locked_at = none;
    status = if opening == size then due else opened;
    started_on = some (or_default anchor date);
    completed_on = if opening == size then some date else none;
    paid_on = none;
  }

  unfoldable pub start_first_cycle :
      String
      → String
      → Option BillingCycle
      → ConfigureBillingInput
      → Exec (World BillingDb) (Unit {0})
  start_first_cycle workspace_id student_id none (package_from size price date anchor opening) = do
    id ← mint new_id
    cycle ← create_cycle (first_cycle id workspace_id student_id size price date anchor opening)
    pure tt
  start_first_cycle workspace_id student_id _ _ = pure tt

  -- The current cycle, which only a package reads.
  abbrev pub current_for :
      String → String → ConfigureBillingInput → Exec (World BillingDb) (Option BillingCycle)
  current_for workspace_id student_id (per_session_from date) = pure none
  current_for workspace_id student_id (package_from size price date anchor opening) =
      get_current_cycle workspace_id student_id

  unfoldable pub configure :
      String → String → ConfigureBillingInput → Exec (World BillingDb) StudentBillingSnapshot
  configure workspace_id student_id input = do
    existing ← get_plan workspace_id student_id
    history ← has_billing_history workspace_id student_id
    current ← current_for workspace_id student_id input
    throw_when (is_locked_mode existing history (mode_of input)) billing_mode_locked
    lift (check_opening current input)
    change_opening workspace_id current input
    upsert_plan (plan_of workspace_id student_id input)
    start_first_cycle workspace_id student_id current input
    get_student_billing workspace_id student_id
