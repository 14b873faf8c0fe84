-- ===== src/Common/Number.antt =====
-- JavaScript numbers at the validators: a non-negative integer, a negative one, or a number that
-- is no integer (a fraction, an infinity or NaN).
use Prim.Native.Nat.{ℕ, suc}
use mathlib.Core.Bool.{Bool, true, false, not, ◌||◌}
use sozan.Common.Tests.{leb, ltb}

pub data Number : Type 0 where
  pos : ℕ → Number
  -- -(n + 1)
  negsuc : ℕ → Number
  nonint : Number

-- Number.MAX_SAFE_INTEGER
abbrev pub max_safe_integer : ℕ
max_safe_integer = 9007199254740991

abbrev pub is_safe_integer : Number → Bool
is_safe_integer (pos n) = leb n max_safe_integer
is_safe_integer (negsuc n) = leb (suc n) max_safe_integer
is_safe_integer nonint = false

-- The integer of a number that passed its test, where it is not negative.
abbrev pub to_nat : Number → ℕ
to_nat (pos n) = n
to_nat (negsuc n) = 0
to_nat nonint = 0

-- `a < b` between numbers that passed `Number.isSafeInteger`; a number that is no integer has
-- failed that test before any comparison is made.
abbrev pub number_lt : Number → Number → Bool
number_lt (pos a) (pos b) = ltb a b
number_lt (pos a) (negsuc b) = false
number_lt (negsuc a) (pos b) = true
number_lt (negsuc a) (negsuc b) = ltb b a
number_lt _ _ = false

-- `!Number.isSafeInteger(value) || value < 0`
abbrev pub not_natural : Number → Bool
not_natural value = not (is_safe_integer value) || number_lt value (pos 0)
