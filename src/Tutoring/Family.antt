-- ===== src/Tutoring/Family.antt =====
-- src/modules/tutoring/domain/billing-account.ts: the family accounts, whose packages count the lessons
-- of one student or of every member. Counts are natural numbers; the order of `sort()` on texts is a
-- parameter.
pub mod Sequence
use Prim.Native.Nat.{Ordering}
use sozan.Common.{
  ℕ, ◌+◌, String, Bool, true, false, ◌&&◌, not, Option, none, some, List, [], ◌∷◌, map, select,
  find_first, every, filter_map, includes, max, str_eq, ◌==◌, leb, if◌then◌else◌,
}
use sozan.Common.Order.{Collation, sort, then_by, compare_numbers}
use sozan.Billing.Repository.{CycleStatus, is_cancelled}

pub data CountingMode : Type 0 where
  shared_occurrence per_member_quota : CountingMode

pub record BillingAccount : Type 0 where
  pub id : String
  pub workspace_id : String
  pub display_name : String
  pub counting_mode : CountingMode
  pub primary_student_id : String
  pub package_size : ℕ
  pub package_price_pence : ℕ
  pub effective_from : String
  pub active : Bool

pub record BillingAccountMember : Type 0 where
  pub id : String
  pub workspace_id : String
  pub billing_account_id : String
  pub student_id : String
  pub position : ℕ
  pub active : Bool

pub record StudentProgressCycle : Type 0 where
  pub id : String
  pub student_id : String
  pub sequence_no : ℕ
  pub session_limit : ℕ
  pub opening_completed_count : ℕ
  pub real_completed_count : ℕ
  pub status : CycleStatus
  pub started_on : Option String
  pub completed_on : Option String

abbrev pub completed_student_cycle_count : StudentProgressCycle → ℕ
completed_student_cycle_count cycle = cycle.opening_completed_count + cycle.real_completed_count

abbrev account_of_member : List BillingAccount → Option BillingAccountMember → Option BillingAccount
account_of_member accounts none = none
account_of_member accounts (some m) =
    find_first (λ a. a.active && str_eq a.id m.billing_account_id) accounts

unfoldable pub family_account_for_student :
    List BillingAccount → List BillingAccountMember → String → Option BillingAccount
family_account_for_student accounts members student_id =
    account_of_member accounts
      (find_first (λ m. m.active && str_eq m.student_id student_id) members)

abbrev pub cycle_matches : String → ℕ → StudentProgressCycle → Bool
cycle_matches student_id sequence_no c =
    str_eq c.student_id student_id && c.sequence_no == sequence_no && not (is_cancelled c.status)

abbrev pub student_cycle_for_sequence :
    List StudentProgressCycle → String → ℕ → Option StudentProgressCycle
student_cycle_for_sequence cycles student_id sequence_no =
    find_first (cycle_matches student_id sequence_no) cycles

abbrev pub has_lessons : Option StudentProgressCycle → Bool
has_lessons none = false
has_lessons (some c) = leb c.session_limit (completed_student_cycle_count c)

-- `.filter((value): value is string => Boolean(value))`
abbrev nonempty_date : Option String → Option String
nonempty_date none = none
nonempty_date (some date) = if str_eq date "" then none else some date

abbrev pub completion : Option StudentProgressCycle → Option String
completion none = none
completion (some c) = nonempty_date c.completed_on

-- `dates.at(-1)`
abbrev pub last_of : List String → Option String
last_of [] = none
last_of (date ∷ []) = some date
last_of (date ∷ next ∷ rest) = last_of (next ∷ rest)

abbrev pub is_nonempty : List String → Bool
is_nonempty [] = false
is_nonempty (x ∷ xs) = true

-- `Math.max(1, ...)` of the sequence numbers.
unfoldable pub greatest : List StudentProgressCycle → ℕ
greatest [] = 1
greatest (c ∷ cs) = max c.sequence_no (greatest cs)

module _ (c : Collation) where
  unfoldable pub active_family_members :
      List BillingAccountMember → String → List BillingAccountMember
  active_family_members members account_id =
      sort
        (λ a b.
          then_by (compare_numbers a.position b.position)
            (c.locale_compare a.student_id b.student_id))
        (select (λ m. m.active && str_eq m.billing_account_id account_id) members)

  abbrev pub required_ids : CountingMode → BillingAccount → List BillingAccountMember → List String
  required_ids shared_occurrence account members = account.primary_student_id ∷ []
  required_ids per_member_quota account members =
      map (λ m. m.student_id) (active_family_members members account.id)

  abbrev pub required_progress_student_ids :
      BillingAccount → List BillingAccountMember → List String
  required_progress_student_ids account members = required_ids account.counting_mode account members

  unfoldable pub family_sequence_complete :
      BillingAccount → List BillingAccountMember → List StudentProgressCycle → ℕ → Bool
  family_sequence_complete account members cycles sequence_no =
      let required = required_progress_student_ids account members in
      is_nonempty required
      && every (λ s. has_lessons (student_cycle_for_sequence cycles s sequence_no)) required

  unfoldable pub family_sequence_completed_on :
      (String → String → Ordering)
      → BillingAccount
      → List BillingAccountMember
      → List StudentProgressCycle
      → ℕ
      → Option String
  family_sequence_completed_on compare_texts account members cycles sequence_no =
      if family_sequence_complete account members cycles sequence_no
      then last_of (
          sort compare_texts (
            filter_map (λ s. completion (student_cycle_for_sequence cycles s sequence_no))
              (required_progress_student_ids account members)))
      else none

  unfoldable pub next_relevant_family_sequence :
      BillingAccount → List BillingAccountMember → List StudentProgressCycle → ℕ
  next_relevant_family_sequence account members cycles = greatest (
      select
        (λ row.
          includes row.student_id (required_progress_student_ids account members)
          && not (is_cancelled row.status))
        cycles)
