-- ===== src/Tutoring/Session.antt =====
-- src/modules/tutoring/domain/session.ts and student-lifecycle.ts: a recurring session, the students
-- who are billed for one of its lessons, and the archiving of a student. The minutes of a session
-- are natural numbers, as its schema has them.
pub mod Billed
use sozan.Common.{
  ℕ, ◌-◌, max, String, Bool, true, false, ◌&&◌, ◌||◌, not, Option, none, some, List, [], ◌∷◌,
  length, select, includes, option_eq, str_eq, if◌then◌else◌, ◌==◌,
}

pub data SessionType : Type 0 where
  private_student_home private_tutor_home online center_group own_group : SessionType

pub data ScheduleStatus : Type 0 where
  confirmed pending : ScheduleStatus

pub data PriceBasis : Type 0 where
  total_session per_student : PriceBasis

pub record RecurringSession : Type 0 where
  pub id : String
  pub workspace_id : String
  pub title : String
  pub session_type : SessionType
  pub schedule_status : ScheduleStatus
  pub weekday : Option ℕ
  -- The codes of the characters.
  pub start_time : Option (List ℕ)
  pub duration_minutes : ℕ
  pub travel_minutes : ℕ
  pub location : Option String
  pub price_basis : PriceBasis
  pub default_price_pence : ℕ
  pub expected_student_count : ℕ
  pub center_cut_bps : ℕ
  pub active : Bool
  pub student_ids : List String
  pub payer_student_id : Option String

-- The payer of a total-session lesson who is linked to it. An empty text counts as no payer.
abbrev pub linked_of : PriceBasis → Option String → List String → Option String
linked_of per_student payer ids = none
linked_of total_session none ids = none
linked_of total_session (some payer) ids =
    if not (str_eq payer "") && includes payer ids then some payer else none

abbrev pub linked_payer : RecurringSession → Option String
linked_payer session = linked_of session.price_basis session.payer_student_id session.student_ids

-- `[...new Set(ids)]`: the first of each, in their order.
unfoldable pub unique_from : List String → List String → List String
unique_from seen [] = []
unique_from seen (x ∷ xs) =
    let rest = unique_from seen xs in
    let fresh = unique_from (x ∷ seen) xs in if includes x seen then rest else x ∷ fresh

abbrev pub billed : Option String → List String → List String → List String
billed (some payer) linked participants = payer ∷ []
billed none linked participants = select (λ id. includes id linked) (unique_from [] participants)

unfoldable pub billing_student_ids_for_occurrence : RecurringSession → List String → List String
billing_student_ids_for_occurrence session participants =
    billed (linked_payer session) session.student_ids participants

abbrev pub only_one : List String → Option String
only_one (x ∷ []) = some x
only_one _ = none

abbrev pub owner_of : Option String → List String → Option String
owner_of (some payer) ids = some payer
owner_of none ids = only_one ids

unfoldable pub billing_owner_student_id : RecurringSession → Option String
billing_owner_student_id session = owner_of (linked_payer session) session.student_ids

pub data ArchiveKind : Type 0 where
  unchanged deactivated detached : ArchiveKind

abbrev pub without : String → List String → List String
without student ids = select (λ id. not (str_eq id student)) ids

abbrev pub detached_from : String → RecurringSession → RecurringSession
detached_from student session = record session {
  student_ids = without student session.student_ids;
  payer_student_id =
      if option_eq session.payer_student_id (some student) then none else session.payer_student_id;
  expected_student_count =
      max 1
        (max (length (without student session.student_ids)) (session.expected_student_count - 1));
}

unfoldable pub archive_student_from_recurring_session :
    RecurringSession → String → ArchiveKind × RecurringSession
archive_student_from_recurring_session session student =
    if not session.active || not (includes student session.student_ids)
    then (unchanged, session)
    else if length (without student session.student_ids) == 0
    then (deactivated, record session { active = false })
    else (detached, detached_from student session)
