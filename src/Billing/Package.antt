-- ===== src/Billing/Package.antt =====
-- src/modules/tutoring/domain/billing.ts: the share of a package price that one lesson earns, the
-- progress of a package, and when its opening progress may be changed.
pub mod Shares
pub mod Inverse
pub mod Progress
mod Tests
use sozan.Common.{
  ℕ, ◌+◌, ◌-◌, ◌*◌, ◌/◌, Bool, true, ◌||◌, ◌&&◌, not, Option, none, some, Result, ok, throw_if,
  ◌>>=◌, ◌>>◌, ltb, ◌==◌, if◌then◌else◌, package_price_invalid, package_size_invalid,
  package_position_outside, count_invalid, opening_exceeds_size, progress_exceeds_size,
}
use sozan.Common.Number.{Number, pos, is_safe_integer, number_lt, not_natural, to_nat}

-- `!Number.isSafeInteger(size) || size < 1 || size > 100`
abbrev pub bad_size : Number → Bool
bad_size size = not (is_safe_integer size) || number_lt size (pos 1) || number_lt (pos 100) size

-- The difference of the two floors; the later floor is never the smaller one. The products are exact,
-- as those of the source are while they stay below 2^53.
unfoldable pub unit_share : ℕ → ℕ → ℕ → ℕ
unit_share total size position = total * position / size - total * (position - 1) / size

unfoldable pub package_unit_share : Number → Number → Number → Result ℕ
package_unit_share total size position = do
  throw_if (not_natural total) package_price_invalid
  throw_if (bad_size size) package_size_invalid
  throw_if (not (is_safe_integer position) || number_lt position (pos 1) || number_lt size position)
      package_position_outside
  ok (unit_share (to_nat total) (to_nat size) (to_nat position))

pub record PackageProgress : Type 0 where
  pub size : ℕ
  pub opening_completed : ℕ
  pub real_completed : ℕ
  pub completed : ℕ
  pub remaining : ℕ
  pub next_position : Option ℕ
  pub due : Bool

abbrev assert_count : Number → Result (Unit {0})
assert_count value = throw_if (not_natural value) count_invalid

-- The part after the guards.
progress_of : ℕ → ℕ → ℕ → Result PackageProgress
progress_of size opening real = do
  throw_if (ltb size opening) opening_exceeds_size
  throw_if (ltb size (opening + real)) progress_exceeds_size
  let completed = opening + real
  let remaining = size - completed
  ok (record {
    size = size;
    opening_completed = opening;
    real_completed = real;
    completed = completed;
    remaining = remaining;
    next_position = if ltb 0 remaining then some (completed + 1) else none;
    due = completed == size;
  })

unfoldable pub package_progress : Number → Number → Number → Result PackageProgress
unfolding progress_of
package_progress size opening real = do
  throw_if (bad_size size) package_size_invalid
  assert_count opening
  assert_count real
  progress_of (to_nat size) (to_nat opening) (to_nat real)

unfoldable pub can_change_opening_progress : Number → Number → Number → Bool → Result Bool
can_change_opening_progress current requested real locked = do
  assert_count current
  assert_count requested
  assert_count real
  ok (to_nat current == to_nat requested || (not locked && to_nat real == 0))
