-- ===== src/Billing/Plan.antt =====
-- src/modules/tutoring/domain/billing-plan.ts, and the checks that services/billing.service.ts makes
-- without the database: the input of a configuration and the snapshot of a student's billing.
use sozan.Common.{ℕ, String, not, Option, none, some, is_some, ltb}
use sozan.Common.Results.{
  Result, ok, ◌>>=◌, ◌>>◌, throw_if, opening_progress_locked, opening_progress_exceeds_package,
}
use sozan.Common.Number.{pos}
use sozan.Billing.Package.{PackageProgress, package_progress, can_change_opening_progress}
use sozan.Billing.Repository.{BillingPlan, BillingCycle}

pub data ConfigureBillingInput : Type 0 where
  per_session_from : String → ConfigureBillingInput
  -- Size, price, effective date, anchor date, opening count.
  package_from : ℕ → ℕ → String → Option String → ℕ → ConfigureBillingInput

pub record StudentBillingSnapshot : Type 0 where
  pub plan : Option BillingPlan
  pub current_cycle : Option (BillingCycle × PackageProgress)

abbrev pub snapshot_cycle : BillingCycle → Result (BillingCycle × PackageProgress)
snapshot_cycle cycle =
    package_progress (pos cycle.row.session_limit) (pos cycle.row.opening_completed_count)
      (pos cycle.real_completed_count)
    >>= λ progress. ok (cycle, progress)

abbrev pub snapshot_of : Option BillingPlan → Option BillingCycle → Result StudentBillingSnapshot
snapshot_of plan none = ok (record { plan = plan; current_cycle = none })
snapshot_of plan (some cycle) =
    snapshot_cycle cycle >>= λ snapshot. ok (record { plan = plan; current_cycle = some snapshot })

-- The checks of an opening count against the current cycle.
abbrev pub check_opening : Option BillingCycle → ConfigureBillingInput → Result (Unit {0})
check_opening current (per_session_from date) = ok tt
check_opening none (package_from size price date anchor opening) =
    throw_if (ltb size opening) opening_progress_exceeds_package
check_opening (some c) (package_from size price date anchor opening) =
    throw_if (ltb c.row.session_limit opening) opening_progress_exceeds_package
    >> (can_change_opening_progress (pos c.row.opening_completed_count) (pos opening)
          (pos c.real_completed_count) (is_some c.row.opening_progress_locked_at)
        >>= λ allowed. throw_if (not allowed) opening_progress_locked)
