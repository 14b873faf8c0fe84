-- ===== src/Billing/Repository/Tables.antt =====
-- The rows of the plans, cycles and linked lessons, with the queries of
-- src/server/adapters/d1/tutoring-billing.repository.ts read from their SQL, as functions of the tables.
use sozan.Common.{
  ℕ, String, Bool, true, false, ◌&&◌, ◌||◌, not, Option, none, some, List, [], ◌∷◌, select,
  find_first, some_of, sum_by, max, str_eq, ltb, leb, ◌==◌, if◌then◌else◌,
}

pub data BillingMode : Type 0 where
  per_session by_package : BillingMode

pub data CycleStatus : Type 0 where
  opened due paid cancelled : CycleStatus

pub record BillingPlan : Type 0 where
  pub workspace_id : String
  pub student_id : String
  pub billing_mode : BillingMode
  pub package_size : Option ℕ
  pub package_price_pence : Option ℕ
  pub cycle_anchor_date : Option String
  pub effective_from : String

-- A row of tutoring_billing_cycles.
pub record CycleRow : Type 0 where
  pub id : String
  pub workspace_id : String
  pub student_id : String
  pub sequence_no : ℕ
  pub session_limit : ℕ
  pub price_pence : ℕ
  pub opening_completed_count : ℕ
  pub opening_progress_locked_at : Option String
  pub status : CycleStatus
  pub started_on : Option String
  pub completed_on : Option String
  pub paid_on : Option String

-- A cycle as the queries return it: its row and the number of its completed lessons.
pub record BillingCycle : Type 0 where
  pub row : CycleRow
  pub real_completed_count : ℕ

-- A row of tutoring_billing_cycle_occurrences.
pub record Link : Type 0 where
  pub workspace_id : String
  pub billing_cycle_id : String
  pub occurrence_id : String
  pub position : ℕ
  pub earned_pence : ℕ

pub data OccurrenceStatus : Type 0 where
  scheduled completed cancelled missed : OccurrenceStatus

-- The columns of tutoring_occurrences and of tutoring_session_students that the queries read.
pub record OccurrenceRow : Type 0 where
  pub id : String
  pub workspace_id : String
  pub recurring_session_id : String
  pub status : OccurrenceStatus

pub record SessionStudent : Type 0 where
  pub workspace_id : String
  pub recurring_session_id : String
  pub student_id : String

pub record BillingDb : Type 0 where
  pub plans : List BillingPlan
  pub cycles : List CycleRow
  pub links : List Link
  pub occurrences : List OccurrenceRow
  pub session_students : List SessionStudent
  -- `CURRENT_TIMESTAMP`, and how many identifiers have been made.
  pub now : String
  pub minted : ℕ

abbrev pub is_open : CycleStatus → Bool
is_open opened = true
is_open _ = false

abbrev pub is_cancelled : CycleStatus → Bool
is_cancelled cancelled = true
is_cancelled _ = false

abbrev pub is_package : BillingMode → Bool
is_package by_package = true
is_package per_session = false

abbrev pub is_completed : OccurrenceStatus → Bool
is_completed completed = true
is_completed _ = false

abbrev pub is_of : String → String → CycleRow → Bool
is_of workspace_id student_id c =
    str_eq c.workspace_id workspace_id && str_eq c.student_id student_id

abbrev pub is_row : String → String → CycleRow → Bool
is_row workspace_id cycle_id c = str_eq c.workspace_id workspace_id && str_eq c.id cycle_id

-- The link belongs to the cycle.
abbrev pub is_link_of : String → String → Link → Bool
is_link_of workspace_id cycle_id l =
    str_eq l.workspace_id workspace_id && str_eq l.billing_cycle_id cycle_id

abbrev pub has_completed : Option OccurrenceRow → Bool
has_completed none = false
has_completed (some o) = is_completed o.status

-- The occurrence with this workspace and identifier is completed.
abbrev pub is_lesson_completed : String → String → List OccurrenceRow → Bool
is_lesson_completed workspace_id id occurrences =
    has_completed
      (find_first (λ o. str_eq o.workspace_id workspace_id && str_eq o.id id) occurrences)

-- The occurrence of a link, as the queries join it.
abbrev pub is_link_completed : List OccurrenceRow → Link → Bool
is_link_completed occurrences l = is_lesson_completed l.workspace_id l.occurrence_id occurrences

unfoldable pub links_of : CycleRow → List Link → List Link
links_of c links = select (is_link_of c.workspace_id c.id) links

-- `SUM(CASE WHEN o.status='completed' THEN 1 ELSE 0 END)` over the links of a cycle.
unfoldable pub real_completed : CycleRow → BillingDb → ℕ
real_completed c db =
    sum_by (λ l. if is_link_completed db.occurrences l then 1 else 0) (links_of c db.links)

abbrev pub map_cycle : BillingDb → CycleRow → BillingCycle
map_cycle db c = record { row = c; real_completed_count = real_completed c db }

-- `ORDER BY sequence_no DESC LIMIT 1`
abbrev pub later_of : CycleRow → Option CycleRow → CycleRow
later_of c none = c
later_of c (some d) = if ltb c.sequence_no d.sequence_no then d else c

unfoldable pub latest : List CycleRow → Option CycleRow
latest [] = none
latest (c ∷ cs) = some (later_of c (latest cs))

abbrev pub mapped : BillingDb → Option CycleRow → Option BillingCycle
mapped db none = none
mapped db (some c) = some (map_cycle db c)

abbrev pub current_cycle : String → String → BillingDb → Option BillingCycle
current_cycle workspace_id student_id db = mapped db (
    latest (select (λ c. is_of workspace_id student_id c && not (is_cancelled c.status)) db.cycles))

abbrev pub open_cycle : String → String → BillingDb → Option BillingCycle
open_cycle workspace_id student_id db =
    mapped db (latest (select (λ c. is_of workspace_id student_id c && is_open c.status) db.cycles))

abbrev pub is_linked : String → String → String → List Link → Bool
is_linked workspace_id cycle_id occurrence_id links =
    some_of (λ l. is_link_of workspace_id cycle_id l && str_eq l.occurrence_id occurrence_id) links

abbrev pub cycle_for_occurrence : String → String → String → BillingDb → Option BillingCycle
cycle_for_occurrence workspace_id student_id occurrence_id db = mapped db (
    find_first
      (λ c. is_of workspace_id student_id c && is_linked c.workspace_id c.id occurrence_id db.links)
      db.cycles)

-- `COALESCE(MAX(sequence_no), 0) + 1`
abbrev pub max_sequence : String → String → List CycleRow → ℕ
max_sequence workspace_id student_id [] = 0
max_sequence workspace_id student_id (c ∷ cs) =
    if is_of workspace_id student_id c
    then max c.sequence_no (max_sequence workspace_id student_id cs)
    else max_sequence workspace_id student_id cs

-- What `INSERT OR IGNORE` inserts: a row within the checks of the table, that meets no unique key.
abbrev pub is_within_checks : CycleRow → Bool
is_within_checks c =
    ltb 0 c.sequence_no
    && leb 1 c.session_limit
    && leb c.session_limit 100
    && leb c.opening_completed_count c.session_limit

abbrev pub clashes : CycleRow → CycleRow → Bool
clashes new_row c =
    str_eq c.id new_row.id
    || str_eq c.student_id new_row.student_id && c.sequence_no == new_row.sequence_no

abbrev pub insert_cycle : CycleRow → BillingDb → BillingDb
insert_cycle c db =
    if is_within_checks c && not (some_of (clashes c) db.cycles)
    then record db { cycles = c ∷ db.cycles }
    else db
