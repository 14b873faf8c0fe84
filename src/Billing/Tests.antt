-- ===== src/Billing/Tests.antt =====
-- The packages of a student on concrete tables: runs of the booking of a lesson, and the theorems at
-- these tables.
use sozan.Common.{
  ℕ, ◌≡◌, refl, String, none, some, List, [], ◌∷◌, arith, some_of, select, find_first,
}
use sozan.Common.Results.{Result}
use sozan.Common.Interleave.{World}
use sozan.Billing.Package.{unit_share, package_unit_share}
use sozan.Billing.Repository.{
  BillingCycle, BillingPlan, by_package, CycleRow, opened, Link, BillingDb, completed,
  OccurrenceRow, real_completed, links_of, get_plan, get_cycle_for_occurrence, get_open_cycle,
  latest, add_occurrence_to_cycle, mark_cycle_due, get_current_cycle,
}
use sozan.Billing.Repository.Valid.{nothing, next, IsCounted, IsValid}
use sozan.Billing.Repository.Earned.{earned_pence_of, whole_cycle-price}
use sozan.Billing.Plan.{StudentBillingSnapshot, ConfigureBillingInput, package_from}
use sozan.Billing.Service.{book, get_student_billing, record_completed_occurrence}
use sozan.Billing.Service.Booked.{with_lesson, record_completed_occurrence-books}
use sozan.Billing.Service.Configuration.{configure}
use sozan.Billing.Service.Configured.{configure-IsValid}
use sozan.Billing.Service.Honest.{Honest}
use sozan.Billing.Service.Keeps.{record_completed_occurrence-IsValid}

abbrev lesson : String → OccurrenceRow
lesson id = record { id = id; workspace_id = "w"; recurring_session_id = "r"; status = completed }

abbrev link : String → ℕ → ℕ → Link
link id position earned = record {
  workspace_id = "w";
  billing_cycle_id = "c";
  occurrence_id = id;
  position = position;
  earned_pence = earned;
}

abbrev two_for_five : CycleRow
two_for_five = record {
  id = "c";
  workspace_id = "w";
  student_id = "s";
  sequence_no = 1;
  session_limit = 2;
  price_pence = 5;
  opening_completed_count = 0;
  opening_progress_locked_at = none;
  status = opened;
  started_on = none;
  completed_on = none;
  paid_on = none;
}

abbrev plan_of_two : BillingPlan
plan_of_two = record {
  workspace_id = "w";
  student_id = "s";
  billing_mode = by_package;
  package_size = some 2;
  package_price_pence = some 5;
  cycle_anchor_date = none;
  effective_from = "2026-01-01";
}

abbrev tables : List Link → BillingDb
tables links = record {
  plans = plan_of_two ∷ [];
  cycles = two_for_five ∷ [];
  links = links;
  occurrences = lesson "a" ∷ lesson "b" ∷ [];
  session_students = [];
  now = "t";
  minted = 0;
}

abbrev after_one : BillingDb
after_one = tables (link "a" 1 2 ∷ [])

abbrev after_two : BillingDb
after_two = tables (link "b" 2 3 ∷ link "a" 1 2 ∷ [])

-- Another session of the database moves its clock.
abbrev tick : BillingDb → BillingDb
tick d = record d { now = "later" }

tick-Honest : Honest tick
tick-Honest = record {
  valid = λ d v. record {
    counted = v.counted;
    distinct = v.distinct;
    owned = v.owned;
    taught = v.taught;
  };
  terms = λ c d h. h;
  lessons = λ ws id d h. h;
}

one_counted : IsCounted (link "a" 1 2 ∷ []) two_for_five
unfolding links_of unit_share some_of select
one_counted = (omega arith, next (link "a" 1 2) [] refl (omega arith) refl refl nothing)

two_counted : IsCounted (link "b" 2 3 ∷ link "a" 1 2 ∷ []) two_for_five
unfolding links_of unit_share some_of select
two_counted = (
  omega arith,
  next (link "b" 2 3) (link "a" 1 2 ∷ []) refl (omega arith) refl refl one_counted.1,
)

after_one-IsValid : IsValid after_one
unfolding some_of find_first
after_one-IsValid = record {
  counted = (one_counted, tt);
  distinct = (tt, tt);
  owned = (refl, tt);
  taught = (refl, tt);
}

after_two-IsValid : IsValid after_two
unfolding some_of find_first
after_two-IsValid = record {
  counted = (two_counted, tt);
  distinct = (tt, tt);
  owned = (refl, (refl, tt));
  taught = (refl, (refl, tt));
}

abbrev run : Result StudentBillingSnapshot × World BillingDb
run = record_completed_occurrence (λ n. "id") "w" "s" "b" "2026-02-01" (after_one, tick ∷ tick ∷ [])

-- The second lesson takes the second position and the remaining penny, and the package is due.
books_second : run.1.0.links ≡ link "b" 2 3 ∷ link "a" 1 2 ∷ []
unfolding record_completed_occurrence get_plan find_first get_cycle_for_occurrence some_of
    get_open_cycle latest select real_completed links_of book package_unit_share unit_share
    add_occurrence_to_cycle mark_cycle_due get_student_billing get_current_cycle
books_second = refl

record_completed_occurrence-IsValid_example : IsValid run.1.0
unfolding find_first
record_completed_occurrence-IsValid_example =
    record_completed_occurrence-IsValid "w" "b" (λ n. "id") "s" "2026-02-01"
      (after_one, tick ∷ tick ∷ [])
      (record { here = (after_one-IsValid, refl); others = (tick-Honest, (tick-Honest, tt)) })

whole_cycle-price_example : earned_pence_of two_for_five after_two ≡ 5
unfolding real_completed links_of select find_first
whole_cycle-price_example =
    whole_cycle-price after_two after_two-IsValid two_for_five two_counted (omega arith) refl refl

-- A new student gets a package of four lessons, of which one was had before.
abbrev four_lessons : ConfigureBillingInput
four_lessons = package_from 4 1000 "2026-02-01" none 1

configure-IsValid_example :
    IsValid (configure (λ n. "new") "w" "t" four_lessons (after_one, tick ∷ tick ∷ [])).1.0
configure-IsValid_example =
    configure-IsValid (λ n. "new") "w" "t" four_lessons (after_one, tick ∷ tick ∷ [])
      (record { here = after_one-IsValid; others = (tick-Honest, (tick-Honest, tt)) })

-- The package of two lessons after its first lesson.
abbrev half_done : BillingCycle
half_done = record { row = two_for_five; real_completed_count = 1 }

record_completed_occurrence-books_example :
    (record_completed_occurrence (λ n. "id") "w" "s" "b" "2026-02-01" (after_one, [])).1.0
    ≡ with_lesson "w" "b" "2026-02-01" half_done (unit_share 5 2 2) after_one
unfolding find_first some_of select latest real_completed links_of
record_completed_occurrence-books_example =
    record_completed_occurrence-books (λ n. "id") "w" "s" "b" "2026-02-01" plan_of_two half_done 2 5
      after_one after_one-IsValid refl refl refl refl refl refl (omega arith) (omega arith)
      (omega arith)
