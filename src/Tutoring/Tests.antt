-- ===== src/Tutoring/Tests.antt =====
-- Runs of the session rules, and the theorems at concrete inputs.
use sozan.Common.{ℕ, ◌≡◌, ◌↔◌, refl, String, true, none, some, [], ◌∷◌, All, arith, includes}
use Prim.Native.Nat.{Ordering}
use sozan.Common.Order.{Collation}
use sozan.Billing.Repository.{opened}
use sozan.Tutoring.Family.{
  BillingAccount, StudentProgressCycle, shared_occurrence, family_sequence_complete, CountingMode,
  BillingAccountMember,
}
use sozan.Tutoring.Family.Sequence.{IsRequired, HasDone, family_sequence_complete_iff}
use sozan.Tutoring.Session.{
  RecurringSession, SessionType, ScheduleStatus, PriceBasis, billing_student_ids_for_occurrence,
  archive_student_from_recurring_session,
}
use sozan.Tutoring.Session.Billed.{
  IsDistinct, IsPayerLinked, billing_student_ids-IsDistinct, archive_student-IsPayerLinked,
}
use sozan.Tutoring.Schedule.{
  split_travel_minutes, occupied_schedule_interval, same_weekday, sessions_conflict,
}
use sozan.Tutoring.Schedule.Overlap.{Occupies, sessions_conflict-shared}

-- A lesson of an hour with twenty minutes of travel, on Mondays at the hour `1h`.
abbrev at_hour : String → ℕ → RecurringSession
at_hour id h = record {
  id = id;
  workspace_id = "w";
  title = "Maths";
  session_type = SessionType.private_student_home;
  schedule_status = ScheduleStatus.confirmed;
  weekday = some 1;
  start_time = some (49 ∷ h ∷ 58 ∷ 48 ∷ 48 ∷ []);
  duration_minutes = 60;
  travel_minutes = 20;
  location = none;
  price_basis = PriceBasis.total_session;
  default_price_pence = 2000;
  expected_student_count = 2;
  center_cut_bps = 0;
  active = true;
  student_ids = "sara" ∷ "omar" ∷ [];
  payer_student_id = some "sara";
}

-- Lessons that follow at once conflict by their travel, lessons an hour apart do not.
conflict-run : sessions_conflict (at_hour "a" 50) (at_hour "b" 51) ≡ true
unfolding sessions_conflict occupied_schedule_interval split_travel_minutes
conflict-run = refl

sessions_conflict-shared_example : (sessions_conflict (at_hour "a" 50) (at_hour "b" 51) ≡ true) ↔ (
    (same_weekday (some 1) (some 1) ≡ true)
    × ((minute : ℕ) × Occupies (at_hour "a" 50) minute × Occupies (at_hour "b" 51) minute))
sessions_conflict-shared_example =
    sessions_conflict-shared (at_hour "a" 50) (at_hour "b" 51) (omega arith) (omega arith) refl

billing_student_ids-IsDistinct_example :
    IsDistinct (billing_student_ids_for_occurrence (at_hour "a" 50) ("omar" ∷ "omar" ∷ []))
    × All
        (λ id. includes id ("sara" ∷ "omar" ∷ []) ≡ true)
        (billing_student_ids_for_occurrence (at_hour "a" 50) ("omar" ∷ "omar" ∷ []))
billing_student_ids-IsDistinct_example =
    billing_student_ids-IsDistinct (at_hour "a" 50) ("omar" ∷ "omar" ∷ [])

payer-linked : IsPayerLinked (at_hour "a" 50)
unfolding includes
payer-linked payer h = let e : "sara" ≡ payer = cc in rw (← e)

archive_student-IsPayerLinked_example :
    IsPayerLinked (archive_student_from_recurring_session (at_hour "a" 50) "sara").1
archive_student-IsPayerLinked_example =
    archive_student-IsPayerLinked (at_hour "a" 50) "sara" payer-linked

-- A family of one counted student.
abbrev family : BillingAccount
family = record {
  id = "f";
  workspace_id = "w";
  display_name = "Family";
  counting_mode = shared_occurrence;
  primary_student_id = "sara";
  package_size = 4;
  package_price_pence = 8000;
  effective_from = "2026-01-01";
  active = true;
}

abbrev progress : StudentProgressCycle
progress = record {
  id = "c";
  student_id = "sara";
  sequence_no = 1;
  session_limit = 4;
  opening_completed_count = 1;
  real_completed_count = 3;
  status = opened;
  started_on = none;
  completed_on = none;
}

abbrev as_equal : Collation
as_equal = record {
  locale_compare = λ a b. Ordering.eq;
  compare_flip = λ a b. refl;
  compare_trans = λ a b c h k. refl;
}

-- An account whose every member has a quota, and its one member.
abbrev quota : BillingAccount
quota = record family { counting_mode = CountingMode.per_member_quota }

abbrev sara_member : BillingAccountMember
sara_member = record {
  id = "m";
  workspace_id = "w";
  billing_account_id = "f";
  student_id = "sara";
  position = 1;
  active = true;
}

family_sequence_complete_iff_example :
    (family_sequence_complete as_equal quota (sara_member ∷ []) (progress ∷ []) 1 ≡ true) ↔ (
      ((student : String) × IsRequired quota (sara_member ∷ []) student)
      × ((student : String)
          → IsRequired quota (sara_member ∷ []) student
          → (d : StudentProgressCycle) × HasDone (progress ∷ []) 1 student d))
family_sequence_complete_iff_example =
    family_sequence_complete_iff as_equal quota (sara_member ∷ []) (progress ∷ []) 1 (tt, tt)
