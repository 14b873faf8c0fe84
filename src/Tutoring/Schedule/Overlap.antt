-- ===== src/Tutoring/Schedule/Overlap.antt =====
-- Two sessions conflict when they share a minute of one weekday.
use sozan.Common.{
  ℕ, ◌+◌, ◌*◌, ◌≤◌, ◌<◌, max, ◌≡◌, ◌↔◌, refl, sym, ◌∙◌, inl, inr, Bool-cases, Option-cases, String,
  Bool, true, false, ◌||◌, not, Option, none, some, is_some, List, [], ◌∷◌, map, length, select,
  All, arith, str_eq, ltb, eq_iff,
}
use sozan.Common.Results.{ok}
use sozan.Tutoring.Session.{RecurringSession}
use sozan.Tutoring.Schedule.{
  ScheduleInterval, TravelBuffer, split_travel_minutes, occupied_schedule_interval, overlap,
  same_weekday, sessions_conflict, conflicting_session_ids, assert_no_schedule_conflict, clock_of,
  start_minute, interval_at, interval_from, is_confirmed,
}

-- The two halves of a travel allowance make the whole, and the later half is at most a minute longer.
pub split_travel_minutes-halves :
    (total : ℕ)
    → ((split_travel_minutes total).before + (split_travel_minutes total).after ≡ total)
      × ((split_travel_minutes total).before ≤ (split_travel_minutes total).after)
      × ((split_travel_minutes total).after ≤ (split_travel_minutes total).before + 1)
unfolding split_travel_minutes
split_travel_minutes-halves total = (omega arith, omega arith, omega arith)

-- The session occupies the minute, counted from midnight, of its weekday.
abbrev pub Occupies : RecurringSession → ℕ → Type 0
Occupies session minute =
    (i : ScheduleInterval) × (occupied_schedule_interval session ≡ some i)
    × (i.start ≤ minute)
    × (minute < i.end)

overlap_minute :
    (a b : ScheduleInterval)
    → a.start < a.end
    → b.start < b.end
    → overlap (some a) (some b) ≡ true
    → (minute : ℕ) × ((a.start ≤ minute) × (minute < a.end))
      × ((b.start ≤ minute) × (minute < b.end))
overlap_minute a b p q h =
    (max a.start b.start, (omega arith, ground arith), (omega arith, ground arith))

shared_minute :
    (a b : ScheduleInterval) (minute : ℕ)
    → a.start ≤ minute
    → minute < a.end
    → b.start ≤ minute
    → minute < b.end
    → overlap (some a) (some b) ≡ true
shared_minute a b minute p q r s = ground arith

-- A lesson that takes time and starts on a clock occupies at least a minute.
start_minute_bound : (text : List ℕ) {start : ℕ} → start_minute text ≡ some start → start < 24 * 60
start_minute_bound [] h = cc
start_minute_bound (a ∷ []) h = cc
start_minute_bound (a ∷ b ∷ []) h = cc
start_minute_bound (a ∷ b ∷ c ∷ []) h = cc
start_minute_bound (a ∷ b ∷ c ∷ d ∷ []) h = cc
start_minute_bound (a ∷ b ∷ c ∷ d ∷ e ∷ []) h = ground arith
start_minute_bound (a ∷ b ∷ c ∷ d ∷ e ∷ f ∷ g) h = cc

interval_from_bound :
    (start duration : ℕ) (travel : TravelBuffer)
    → start < 24 * 60
    → 0 < duration
    → (interval_from start duration travel).start < (interval_from start duration travel).end
interval_from_bound start duration travel p q = ground arith

some-injective {ℓ} : {A : Type ℓ} {a b : A} → some a ≡ some b → a ≡ b
some-injective h = cc

interval_at_bound :
    (session : RecurringSession) (o : Option ℕ) {i : ScheduleInterval}
    → ((start : ℕ) → o ≡ some start → start < 24 * 60)
    → 0 < session.duration_minutes
    → interval_at session o ≡ some i
    → i.start < i.end
interval_at_bound session none b p h = cc
interval_at_bound session (some start) b p h =
    rw (← some-injective h) (interval_from_bound start session.duration_minutes _ (b start refl) p)

clock_of_bound : (o : Option (List ℕ)) (start : ℕ) → clock_of o ≡ some start → start < 24 * 60
clock_of_bound none start h = cc
clock_of_bound (some text) start h = start_minute_bound text h

occupied_bound :
    (session : RecurringSession) {i : ScheduleInterval}
    → 0 < session.duration_minutes
    → occupied_schedule_interval session ≡ some i
    → i.start < i.end
unfolding occupied_schedule_interval
occupied_bound session p h =
    elim (Bool-cases
      (not (is_confirmed session.schedule_status) || not (is_some session.weekday))) [
        | inl unset ↦ cc (rw unset at h)
        | inr set_ ↦
            interval_at_bound session (clock_of session.start_time)
              (clock_of_bound session.start_time) p (rw set_ at h)
      ]

conflicting :
    (left right : RecurringSession)
    → 0 < left.duration_minutes
    → 0 < right.duration_minutes
    → str_eq left.id right.id ≡ false
    → sessions_conflict left right ≡ true
    → (same_weekday left.weekday right.weekday ≡ true)
      × ((minute : ℕ) × Occupies left minute × Occupies right minute)
unfolding sessions_conflict
conflicting left right p q other h = elim (Bool-cases (same_weekday left.weekday right.weekday)) [
  | inr apart ↦ cc (rw (other, apart) at h)
  | inl same ↦ elim (Option-cases (occupied_schedule_interval left)) [
    | inl free ↦ cc (rw (other, same, free) at h)
    | inr (a, e) ↦ elim (Option-cases (occupied_schedule_interval right)) [
      | inl free ↦ cc (rw (other, same, e, free) at h)
      | inr (b, f) ↦
          let (minute, l, r) =
            overlap_minute a b (occupied_bound left p e) (occupied_bound right q f)
              (rw (other, same, e, f) at h) in
          (same, (minute, (a, e, l.0, l.1), (b, f, r.0, r.1)))
    ]
  ]
]

sharing :
    (left right : RecurringSession)
    → str_eq left.id right.id ≡ false
    → (same_weekday left.weekday right.weekday ≡ true)
      × ((minute : ℕ) × Occupies left minute × Occupies right minute)
    → sessions_conflict left right ≡ true
unfolding sessions_conflict
sharing left right other (same, (minute, (a, e, l0, l1), (b, f, r0, r1))) =
    rw (other, same, e, f) (shared_minute a b minute l0 l1 r0 r1)

-- Two different sessions whose lessons take time conflict exactly when they have the same weekday
-- and there is a minute of the day that both occupy, their travel included.
pub sessions_conflict-shared :
    (left right : RecurringSession)
    → 0 < left.duration_minutes
    → 0 < right.duration_minutes
    → str_eq left.id right.id ≡ false
    → (sessions_conflict left right ≡ true) ↔ (
        (same_weekday left.weekday right.weekday ≡ true)
        × ((minute : ℕ) × Occupies left minute × Occupies right minute))
unfolding sessions_conflict
sessions_conflict-shared left right p q other =
    (conflicting left right p q other, sharing left right other)

str_eq_comm : (a b : String) → str_eq a b ≡ str_eq b a
str_eq_comm a b = elim (Bool-cases (str_eq a b)) [
  | inl same ↦ let p : a ≡ b = ground (arith, eq_iff a b) in rw p
  | inr other ↦ elim (Bool-cases (str_eq b a)) [
    | inr also ↦ other ∙ sym also
    | inl same ↦ let p : b ≡ a = ground (arith, eq_iff b a) in rw p
  ]
]

same_weekday_comm : (a b : Option ℕ) → same_weekday a b ≡ same_weekday b a
same_weekday_comm none none = refl
same_weekday_comm none (some b) = refl
same_weekday_comm (some a) none = refl
same_weekday_comm (some a) (some b) = ground arith

overlap_comm : (a b : Option ScheduleInterval) → overlap a b ≡ overlap b a
overlap_comm none none = refl
overlap_comm none (some b) = refl
overlap_comm (some a) none = refl
overlap_comm (some a) (some b) = ground arith

-- The test for a conflict does not depend on the order of the two sessions.
pub sessions_conflict_comm :
    (left right : RecurringSession) → sessions_conflict left right ≡ sessions_conflict right left
unfolding sessions_conflict
sessions_conflict_comm left right = cc (
  str_eq_comm left.id right.id,
  same_weekday_comm left.weekday right.weekday,
  overlap_comm (occupied_schedule_interval left) (occupied_schedule_interval right),
)

none_selected :
    (p : RecurringSession → Bool) (rows : List RecurringSession)
    → length (map (λ row. row.id) (select p rows)) ≡ 0
    → All (λ row. p row ≡ false) rows
unfolding select
none_selected p [] h = tt
none_selected p (row ∷ rows) h = elim (Bool-cases (p row)) [
  | inr left ↦ (left, none_selected p rows (rw left at h))
  | inl kept ↦ let absurd = rw kept at h in (cc, none_selected p rows (omega (arith, absurd)))
]

nothing_selected :
    (p : RecurringSession → Bool) (rows : List RecurringSession)
    → All (λ row. p row ≡ false) rows
    → select p rows ≡ []
unfolding select
nothing_selected p [] h = refl
nothing_selected p (row ∷ rows) h = rw h.0 (nothing_selected p rows h.1)

-- A session is accepted exactly when it conflicts with none of the existing ones.
pub assert_no_schedule_conflict-All :
    (candidate : RecurringSession) (existing : List RecurringSession)
    → (assert_no_schedule_conflict candidate existing ≡ ok tt)
      ↔ All (λ row. sessions_conflict candidate row ≡ false) existing
unfolding assert_no_schedule_conflict conflicting_session_ids
assert_no_schedule_conflict-All candidate existing = (
  λ h.
      elim (Bool-cases
        (ltb 0 (length (map (λ row. row.id) (select (sessions_conflict candidate) existing))))) [
          | inl some_ ↦ cc (rw some_ at h)
          | inr none_ ↦ none_selected (sessions_conflict candidate) existing (ground arith)
        ],
  λ h. rw (nothing_selected (sessions_conflict candidate) existing h),
)
