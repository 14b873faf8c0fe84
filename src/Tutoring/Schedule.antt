-- ===== src/Tutoring/Schedule.antt =====
-- src/modules/tutoring/domain/schedule-conflict.ts: the minutes that a recurring session occupies on
-- its weekday, travel included, and when two sessions conflict.
pub mod Overlap
use sozan.Common.{
  ℕ, ◌+◌, ◌-◌, ◌*◌, ◌/◌, min, String, Bool, true, false, ◌&&◌, ◌||◌, not, Option, none, some,
  is_some, List, [], ◌∷◌, map, length, select, str_eq, ltb, leb, ◌==◌, if◌then◌else◌,
}
use sozan.Common.Results.{Result, throw_if, schedule_conflict}
use sozan.Tutoring.Session.{
  RecurringSession, SessionType, private_student_home, private_tutor_home, online, center_group,
  own_group, ScheduleStatus, confirmed, pending,
}

pub record ScheduleInterval : Type 0 where
  pub start : ℕ
  pub end : ℕ

pub record TravelBuffer : Type 0 where
  pub before : ℕ
  pub after : ℕ

unfoldable pub split_travel_minutes : ℕ → TravelBuffer
split_travel_minutes total = record { before = total / 2; after = total - total / 2 }

abbrev pub effective_travel_minutes : SessionType → ℕ → ℕ
effective_travel_minutes online total = 0
effective_travel_minutes private_tutor_home total = 0
effective_travel_minutes _ total = total

-- A digit by its character code.
abbrev pub is_digit : ℕ → Bool
is_digit c = leb 48 c && leb c 57

abbrev pub is_confirmed : ScheduleStatus → Bool
is_confirmed confirmed = true
is_confirmed pending = false

-- `[01]\d|2[0-3]`, then a colon, then `[0-5]\d`.
abbrev pub is_clock_time : ℕ → ℕ → ℕ → ℕ → ℕ → Bool
is_clock_time h k colon m n =
    ((h == 48 || h == 49) && is_digit k || h == 50 && leb 48 k && leb k 51)
    && colon == 58
    && leb 48 m
    && leb m 53
    && is_digit n

abbrev pub two_digits : ℕ → ℕ → ℕ
two_digits a b = (a - 48) * 10 + (b - 48)

-- `CLOCK_TIME.test(startTime)`, and then `hours * 60 + minutes`.
abbrev pub start_minute : List ℕ → Option ℕ
start_minute (h ∷ k ∷ colon ∷ m ∷ n ∷ []) =
    if is_clock_time h k colon m n then some (two_digits h k * 60 + two_digits m n) else none
start_minute _ = none

abbrev pub clock_of : Option (List ℕ) → Option ℕ
clock_of none = none
clock_of (some text) = start_minute text

abbrev pub interval_from : ℕ → ℕ → TravelBuffer → ScheduleInterval
interval_from start duration travel = record {
  start = start - travel.before;
  end = min (24 * 60) (start + duration + travel.after);
}

abbrev pub interval_at : RecurringSession → Option ℕ → Option ScheduleInterval
interval_at session none = none
interval_at session (some start) = some (
    interval_from start session.duration_minutes
      (split_travel_minutes (effective_travel_minutes session.session_type session.travel_minutes)))

unfoldable pub occupied_schedule_interval : RecurringSession → Option ScheduleInterval
occupied_schedule_interval session =
    if not (is_confirmed session.schedule_status) || not (is_some session.weekday)
    then none
    else interval_at session (clock_of session.start_time)

abbrev pub overlap : Option ScheduleInterval → Option ScheduleInterval → Bool
overlap (some a) (some b) = ltb a.start b.end && ltb b.start a.end
overlap _ _ = false

abbrev pub same_weekday : Option ℕ → Option ℕ → Bool
same_weekday (some a) (some b) = a == b
same_weekday _ _ = false

unfoldable pub sessions_conflict : RecurringSession → RecurringSession → Bool
sessions_conflict left right =
    if str_eq left.id right.id || not (same_weekday left.weekday right.weekday)
    then false
    else overlap (occupied_schedule_interval left) (occupied_schedule_interval right)

unfoldable pub conflicting_session_ids : RecurringSession → List RecurringSession → List String
conflicting_session_ids candidate existing =
    map (λ row. row.id) (select (sessions_conflict candidate) existing)

unfoldable pub assert_no_schedule_conflict :
    RecurringSession → List RecurringSession → Result (Unit {0})
assert_no_schedule_conflict candidate existing =
    throw_if (ltb 0 (length (conflicting_session_ids candidate existing))) schedule_conflict
