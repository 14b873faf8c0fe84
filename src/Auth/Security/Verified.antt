-- ===== src/Auth/Security/Verified.antt =====
-- The comparison of hashes that reads every byte is equality, so a password is accepted exactly when
-- it derives the stored bytes.
use Prim.Native.Nat.{bit_xor, bit_or}
use sozan.Common.{
  ℕ, zero, suc, ◌<◌, ◌≡◌, refl, ◌↔◌, inl, inr, Bool-cases, Bool, true, false, ◌&&◌, String, List,
  [], ◌∷◌, All, length, every, ◌==◌, ltb, arith,
}
use sozan.Auth.Security.{
  Host, mismatch_of, equal_bytes, verify_password, is_blank, password_iterations,
}

-- The numbers under a bound, from the greatest.
abbrev numbers : ℕ → List ℕ
numbers zero = []
numbers (suc last) = last ∷ numbers last

tested :
    (test : ℕ → Bool) (value bound : ℕ)
    → value < bound
    → every test (numbers bound) ≡ true
    → test value ≡ true
unfolding every
tested test value zero lt all = absurd (omega arith)
tested test value (suc last) lt all = ground (arith, tested test value last)

abbrev same : Bool → Bool → Bool
same true b = b
same false true = false
same false false = true

-- Over two bytes, `x | y` is a byte and is 0 when both are; `x ^ y` is a byte and is 0 when they agree.
abbrev or_bytes : ℕ → ℕ → Bool
or_bytes x y = same (bit_or x y == 0) (x == 0 && y == 0) && ltb (bit_or x y) 256

abbrev xor_bytes : ℕ → ℕ → Bool
xor_bytes x y = same (bit_xor x y == 0) (x == y) && ltb (bit_xor x y) 256

abbrev both_bytes : ℕ → ℕ → Bool
both_bytes x y = or_bytes x y && xor_bytes x y

all_bytes : every (λ x. every (both_bytes x) (numbers 256)) (numbers 256) ≡ true
unfolding every
all_bytes = refl

-- The same of any two numbers, so that the operations stay shut.
or_read :
    (o x y : ℕ)
    → same (o == 0) (x == 0 && y == 0) && ltb o 256 ≡ true
    → ((o ≡ 0) → (x ≡ 0) × (y ≡ 0)) × ((x ≡ 0) → (y ≡ 0) → o ≡ 0) × (o < 256)
or_read o x y h = (λ e. ground arith, λ e f. ground arith, ground arith)

xor_read :
    (o x y : ℕ)
    → same (o == 0) (x == y) && ltb o 256 ≡ true
    → ((o ≡ 0) → x ≡ y) × ((x ≡ y) → o ≡ 0) × (o < 256)
xor_read o x y h = (λ e. ground arith, λ e. ground arith, ground arith)

and_left : (a b : Bool) → a && b ≡ true → a ≡ true
and_left a b h = ground arith

and_right : (a b : Bool) → a && b ≡ true → b ≡ true
and_right a b h = ground arith

byte_laws : (x y : ℕ) → x < 256 → y < 256 → (or_bytes x y ≡ true) × (xor_bytes x y ≡ true)
byte_laws x y hx hy =
    let rows = tested (λ x. every (both_bytes x) (numbers 256)) x 256 hx all_bytes in
    let both = tested (both_bytes x) y 256 hy rows in (and_left _ _ both, and_right _ _ both)

same_length : (xs : List ℕ) → (length xs == length xs) ≡ true
same_length xs = ground arith

abbrev pub AreBytes : List ℕ → Type 0
AreBytes bytes = All (λ x. x < 256) bytes

mismatch_zero :
    (left right : List ℕ) (mismatch : ℕ)
    → AreBytes left
    → AreBytes right
    → mismatch < 256
    → length left ≡ length right
    → (mismatch_of left right mismatch ≡ 0 → (mismatch ≡ 0) × (left ≡ right))
      × (mismatch ≡ 0 → left ≡ right → mismatch_of left right mismatch ≡ 0)
unfolding mismatch_of
mismatch_zero [] [] mismatch hl hr small long = (λ e. (e, refl), λ e f. e)
mismatch_zero [] (y ∷ right) mismatch hl hr small long = absurd (omega arith)
mismatch_zero (x ∷ left) [] mismatch hl hr small long = absurd (omega arith)
mismatch_zero (x ∷ left) (y ∷ right) mismatch hl hr small long =
    let law = byte_laws x y hl.0 hr.0 in
    let xor = xor_read (bit_xor x y) x y law.1 in
    let or =
      or_read (bit_or mismatch (bit_xor x y)) mismatch (bit_xor x y)
        (byte_laws mismatch (bit_xor x y) small xor.2).0 in
    let rest =
      mismatch_zero left right (bit_or mismatch (bit_xor x y)) hl.1 hr.1 or.2 (omega arith) in
    (
      λ e. let tail = rest.0 e in let head = or.0 tail.0 in (head.0, cc (xor.0 head.1)),
      λ e f.
          let heads : x ≡ y = cc in
          let tails : left ≡ right = cc in rest.1 (or.1 e (xor.1 heads)) tails,
    )

-- The loop over all bytes finds no difference exactly when the two lists of bytes are equal.
pub equal_bytes_iff :
    (left right : List ℕ)
    → AreBytes left
    → AreBytes right
    → (equal_bytes left right ≡ true) ↔ (left ≡ right)
unfolding equal_bytes
equal_bytes_iff left right hl hr = elim (Bool-cases (length left == length right)) [
  | inl long ↦
      let zero = mismatch_zero left right 0 hl hr (omega arith) (ground arith) in
      rw long (λ e. (zero.0 (ground arith)).1, λ e. let z = zero.1 refl e in rw z)
  | inr other ↦ rw other (λ e. cc, λ e. cc (rw e at other, same_length right))
]

-- A password is accepted exactly when it is not empty, the hash was made with the current number of
-- iterations, and the password derives the bytes of the hash with its salt. The derived and the stored
-- bytes are bytes.
pub verify_password_iff :
    (host : Host) (password expected_hash salt : String) (iterations : ℕ)
    → AreBytes (host.derive_bits password (host.from_base64 salt) iterations)
    → AreBytes (host.from_base64 expected_hash)
    → (verify_password host password expected_hash salt iterations ≡ true) ↔ (
        (is_blank password ≡ false)
        × (iterations ≡ password_iterations)
        × (host.derive_bits password (host.from_base64 salt) iterations
            ≡ host.from_base64 expected_hash))
unfolding verify_password
verify_password_iff host password expected_hash salt iterations hl hr =
    let law = equal_bytes_iff _ _ hl hr in
    elim (Bool-cases (is_blank password)) [
      | inl none_given ↦ rw none_given (λ e. cc, λ e. cc)
      | inr given ↦ elim (Bool-cases (iterations == password_iterations)) [
        | inl current ↦ rw (given, current) (λ e. (refl, ground arith, law.0 e), λ e. law.1 e.2)
        | inr old ↦ rw (given, old) (λ e. cc, λ e. ground arith)
      ]
    ]
