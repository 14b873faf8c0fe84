-- ===== src/Auth/Tests.antt =====
-- The limit of attempts at concrete inputs.
use sozan.Common.{ℕ, ◌≡◌, refl, none, some, [], ◌∷◌, arith, List}
use sozan.Auth.RateLimit.{Bucket, max_attempts}
use sozan.Auth.RateLimit.Limited.{outcomes, budgeted, outcomes-budgeted, IsValid, blocking}

-- Eleven attempts, a second apart.
abbrev later : List ℕ
later = 1000 ∷ 2000 ∷ 3000 ∷ 4000 ∷ 5000 ∷ 6000 ∷ 7000 ∷ 8000 ∷ 9000 ∷ 10000 ∷ []

outcomes-budgeted_example : outcomes (0 ∷ later) none ≡ budgeted max_attempts (0 ∷ later)
outcomes-budgeted_example = outcomes-budgeted 0 later (
  (omega arith, omega arith),
  (
    (omega arith, omega arith),
    (
      (omega arith, omega arith),
      (
        (omega arith, omega arith),
        (
          (omega arith, omega arith),
          (
            (omega arith, omega arith),
            (
              (omega arith, omega arith),
              (
                (omega arith, omega arith),
                ((omega arith, omega arith), ((omega arith, omega arith), tt)),
              ),
            ),
          ),
        ),
      ),
    ),
  ),
)

abbrev blocked_row : Bucket
blocked_row = record { window_started_at = 0; attempts = 11; blocked_until = some 910000 }

blocked_row-IsValid : IsValid blocked_row
blocked_row-IsValid = blocking 910000 refl refl (omega arith)
