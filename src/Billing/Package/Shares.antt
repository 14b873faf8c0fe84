-- ===== src/Billing/Package/Shares.antt =====
-- The shares of a package price: they add up to the price and differ by a penny at most.
use native.Mathlib.Nat.{
  le-div_iff_mul-le, div-lt_iff_lt-mul, div-mul-le_self, lt-div-mul-add, mul-div_cancel,
}
use sozan.Common.{
  ℕ, zero, suc, ◌+◌, ◌-◌, ◌*◌, ◌/◌, ◌≤◌, ◌<◌, ◌≡◌, refl, ap, arith, ◌∙◌, Result, ok, ◌>>=◌, le→leb,
  ge→ltb,
}
use sozan.Common.Number.{pos, max_safe_integer}
use sozan.Billing.Package.{unit_share, package_unit_share}

-- The shares of the first `k` positions, added up.
abbrev pub shares_upto : ℕ → ℕ → ℕ → ℕ
shares_upto total size zero = 0
shares_upto total size (suc k) = shares_upto total size k + unit_share total size (suc k)

-- The floor of a sum is the sum of the floors, or one more.
floor_step_lower : (a t s : ℕ) → 0 < s → a / s + t / s ≤ (a + t) / s
floor_step_lower a t s h =
    (le-div_iff_mul-le h).1 (omega (arith, div-mul-le_self a s, div-mul-le_self t s))

floor_step_upper : (a t s : ℕ) → 0 < s → (a + t) / s < a / s + t / s + 2
floor_step_upper a t s h =
    (div-lt_iff_lt-mul h).1 (omega (arith, lt-div-mul-add {a = a} h, lt-div-mul-add {a = t} h))

unit_share-suc :
    (total size k : ℕ)
    → unit_share total size (suc k) ≡ (total * k + total) / size - total * k / size
unfolding unit_share
unit_share-suc total size k =
    let e : suc k - 1 ≡ k = omega arith in
    let f : total * suc k ≡ total * k + total = omega arith in rw (e, f)

shares_upto-floor : (total size k : ℕ) → 0 < size → shares_upto total size k ≡ total * k / size
shares_upto-floor total size zero h =
    omega (arith, (div-lt_iff_lt-mul {x = total * 0} {y = 1} h).1 (omega arith))
shares_upto-floor total size (suc k) h =
    let f : total * suc k ≡ total * k + total = omega arith in
    rw (f, unit_share-suc total size k)
      (omega (arith, shares_upto-floor total size k h, floor_step_lower (total * k) total size h))

-- The share of any position of a package of at least one lesson is the even share, rounded down,
-- or a penny more.
pub unit_share_even :
    (total size position : ℕ)
    → 0 < size
    → 0 < position
    → (total / size ≤ unit_share total size position)
      × (unit_share total size position ≤ total / size + 1)
unit_share_even total size zero h p = elim p [ ]
unit_share_even total size (suc k) h p = rw (unit_share-suc total size k) (
    omega
      (arith, floor_step_lower (total * k) total size h, floor_step_upper (total * k) total size h))

-- The shares of all positions add up to the price of the package.
pub shares_upto-size : (total size : ℕ) → 0 < size → shares_upto total size size ≡ total
shares_upto-size total size h = shares_upto-floor total size size h ∙ mul-div_cancel total h

-- Inside its bounds the checked function returns the difference of the floors.
pub package_unit_share-ok :
    (total size position : ℕ)
    → total ≤ max_safe_integer
    → 1 ≤ size
    → size ≤ 100
    → 1 ≤ position
    → position ≤ size
    → package_unit_share (pos total) (pos size) (pos position) ≡ ok (unit_share total size position)
unfolding package_unit_share
package_unit_share-ok total size position ht h1 h2 p1 p2 = rw (
  le→leb total max_safe_integer ht,
  ge→ltb total 0 (omega arith),
  le→leb size max_safe_integer (omega arith),
  ge→ltb size 1 h1,
  ge→ltb 100 size h2,
  le→leb position max_safe_integer (omega arith),
  ge→ltb position 1 p1,
  ge→ltb size position p2,
)

-- What the checked function gives to the first `k` positions, added up.
abbrev pub earned_upto : ℕ → ℕ → ℕ → Result ℕ
earned_upto total size zero = ok 0
earned_upto total size (suc k) = earned_upto total size k >>= λ earned.
    package_unit_share (pos total) (pos size) (pos (suc k)) >>= λ share. ok (earned + share)

earned_upto-shares :
    (total size k : ℕ)
    → total ≤ max_safe_integer
    → 1 ≤ size
    → size ≤ 100
    → k ≤ size
    → earned_upto total size k ≡ ok (shares_upto total size k)
earned_upto-shares total size zero ht h1 h2 p = refl
earned_upto-shares total size (suc k) ht h1 h2 p = rw (
  earned_upto-shares total size k ht h1 h2 (omega arith),
  package_unit_share-ok total size (suc k) ht h1 h2 (omega arith) p,
)

le-times : (t s : ℕ) → 1 ≤ s → t ≤ t * s
le-times t zero h = elim h [ ]
le-times t (suc s) h = let f : t * suc s ≡ t * s + t = omega arith in omega (arith, f)

-- Where the price times the number of lessons is a safe integer, so that the products of the source are
-- exact in its numbers: the lessons of a whole package, charged one position after the other by the
-- checked function, earn exactly the price, whether or not it divides by the number of lessons.
pub earned_upto-size :
    (total size : ℕ)
    → total * size ≤ max_safe_integer
    → 1 ≤ size
    → size ≤ 100
    → earned_upto total size size ≡ ok total
earned_upto-size total size exact h1 h2 =
    earned_upto-shares total size size (omega (arith, le-times total size h1, exact)) h1 h2
      (omega arith)
    ∙ ap ok (shares_upto-size total size h1)
