-- ===== src/Auth/RateLimit/Limited.antt =====
-- Ten attempts of a client are let through in a window, the others are refused, and a block ends.
use sozan.Common.{
  ℕ, zero, suc, ◌+◌, ◌-◌, ◌≤◌, ◌<◌, ◌≡◌, refl, ap, inl, inr, Bool-cases, Bool, true, false, Option,
  none, some, List, [], ◌∷◌, All, arith, ltb, leb,
}
use sozan.Common.Results.{Result, ok, err}
use sozan.Auth.RateLimit.{
  window_ms, block_ms, max_attempts, Bucket, is_after, counted, next_row, consume,
}

abbrev let_through : {A : Type 0} → Result A → Bool
let_through (ok a) = true
let_through (err e) = false

-- Which attempts at these times, one after the other, are let through.
unfoldable pub outcomes : List ℕ → Option Bucket → List Bool
outcomes [] row = []
outcomes (now ∷ times) row = let out = consume now row in let_through out.0 ∷ outcomes times out.1

-- As many as the budget, and then none.
abbrev pub budgeted : ℕ → List ℕ → List Bool
budgeted budget [] = []
budgeted zero (t ∷ ts) = false ∷ budgeted zero ts
budgeted (suc budget) (t ∷ ts) = true ∷ budgeted budget ts

abbrev pub IsWithin : ℕ → List ℕ → Type 0
IsWithin start times = All (λ t. (start ≤ t) × (t < start + window_ms)) times

outcomes-blocked :
    (start until : ℕ) (attempts : ℕ) (times : List ℕ)
    → start + window_ms ≤ until
    → IsWithin start times
    → outcomes times (
        some
          (record { window_started_at = start; attempts = attempts; blocked_until = some until }))
      ≡ budgeted zero times
unfolding outcomes consume
outcomes-blocked start until attempts [] le h = refl
outcomes-blocked start until attempts (t ∷ ts) le h =
    let late : ltb t until ≡ true = ground (arith, h.0.1) in
    rw late (ap (λ x. false ∷ x) (outcomes-blocked start until attempts ts le h.1))

outcomes-open :
    (start budget attempts : ℕ) (times : List ℕ)
    → attempts + budget ≡ max_attempts
    → IsWithin start times
    → outcomes times
        (some (record { window_started_at = start; attempts = attempts; blocked_until = none }))
      ≡ budgeted budget times
unfolding outcomes consume
outcomes-open start budget attempts [] e h = refl
outcomes-open start zero attempts (t ∷ ts) e h =
    let kept : leb window_ms (t - start) ≡ false = ground (arith, h.0) in
    let over : ltb max_attempts (attempts + 1) ≡ true = ground arith in
    rw (kept, over)
      (ap (λ x. false ∷ x)
        (outcomes-blocked start (t + block_ms) (attempts + 1) ts (omega (arith, h.0.0)) h.1))
outcomes-open start (suc budget) attempts (t ∷ ts) e h =
    let kept : leb window_ms (t - start) ≡ false = ground (arith, h.0) in
    let under : ltb max_attempts (attempts + 1) ≡ false = ground arith in
    rw (kept, under)
      (ap (λ x. true ∷ x) (outcomes-open start budget (attempts + 1) ts (omega arith) h.1))

-- Of the attempts that a new client makes within ten minutes of the first, the first ten are let
-- through and every other one is refused.
pub outcomes-budgeted :
    (start : ℕ) (times : List ℕ)
    → IsWithin start times
    → outcomes (start ∷ times) none ≡ budgeted max_attempts (start ∷ times)
unfolding outcomes consume
outcomes-budgeted start times h = ap (λ x. true ∷ x) (outcomes-open start 9 1 times refl h)

-- A row counts at most ten attempts and blocks nobody, or it has counted one more and blocks until the
-- window is over, at least.
pub data IsValid (row : Bucket) : Type 0 where
  counting : row.attempts ≤ max_attempts → row.blocked_until ≡ none → IsValid row
  blocking :
      (time : ℕ)
      → row.attempts ≡ max_attempts + 1
      → row.blocked_until ≡ some time
      → row.window_started_at + window_ms ≤ time
      → IsValid row

abbrev pub AllValid : Option Bucket → Type 0
AllValid none = Unit {0}
AllValid (some row) = IsValid row

counted-IsValid :
    (started attempts now : ℕ)
    → attempts ≤ max_attempts + 1
    → started ≤ now
    → IsValid (counted started attempts now)
counted-IsValid started attempts now le before = elim (Bool-cases (ltb max_attempts attempts)) [
  | inl over ↦ blocking (now + block_ms) (ground arith) (rw over) (omega arith)
  | inr under ↦ counting (ground arith) (rw under)
]

abbrev pub StartedBy : Option Bucket → ℕ → Type 0
StartedBy none now = Unit {0}
StartedBy (some row) now = row.window_started_at ≤ now

-- A row that has counted too many is out of its window when it blocks no longer.
still_few :
    (row : Bucket) (now : ℕ)
    → IsValid row
    → is_after row.blocked_until now ≡ false
    → leb window_ms (now - row.window_started_at) ≡ false
    → row.attempts ≤ max_attempts
still_few row now (counting le none_yet) free kept = le
still_few row now (blocking time many e le) free kept =
    let over : ltb now time ≡ false = rw e at free in let absurd : true ≡ false = ground arith in cc

next-IsValid :
    (row : Bucket) (now : ℕ)
    → IsValid row
    → row.window_started_at ≤ now
    → is_after row.blocked_until now ≡ false
    → IsValid (next_row (some row) now)
next-IsValid row now v before free =
    elim (Bool-cases (leb window_ms (now - row.window_started_at))) [
      | inl expired ↦ rw expired (counted-IsValid now 1 now (omega arith) (omega arith))
      | inr kept ↦ rw kept (
          counted-IsValid row.window_started_at (row.attempts + 1) now
            (omega (arith, still_few row now v free kept)) before)
    ]

-- At a time that is not before the start of its window, an attempt keeps the row valid.
pub consume-AllValid :
    (row : Option Bucket) (now : ℕ)
    → AllValid row
    → StartedBy row now
    → AllValid (consume now row).1
unfolding consume
consume-AllValid none now v before = counted-IsValid now 1 now (omega arith) (omega arith)
consume-AllValid (some row) now v before = elim (Bool-cases (is_after row.blocked_until now)) [
  | inl blocked ↦ rw blocked v
  | inr free ↦ rw free (next-IsValid row now v before free)
]

expired_by :
    (row : Bucket) (time now : ℕ)
    → IsValid row
    → row.blocked_until ≡ some time
    → time ≤ now
    → leb window_ms (now - row.window_started_at) ≡ true
expired_by row time now (counting le none_yet) e past = cc
expired_by row time now (blocking until many f le) e past =
    let same : until ≡ time = cc in ground arith

-- A client that was refused is let through again once its block is over, and a new window starts
-- then with this attempt alone.
pub consume-unblocked :
    (row : Bucket) (time now : ℕ)
    → IsValid row
    → row.blocked_until ≡ some time
    → time ≤ now
    → consume now (some row)
      ≡ (ok tt, some (record { window_started_at = now; attempts = 1; blocked_until = none }))
unfolding consume
consume-unblocked row time now v e past =
    let over : ltb now time ≡ false = ground arith in rw (e, over, expired_by row time now v e past)
