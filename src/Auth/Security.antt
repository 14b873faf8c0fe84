-- ===== src/Auth/Security.antt =====
-- src/platform/auth/security.ts: hashes of passwords, recovery codes and session tokens. What the
-- JavaScript host provides (texts, base64, PBKDF2, SHA-256, random values) is a parameter: the n-th
-- random value of a run is a function of n. A list of bytes is a list of numbers below 256. Decoding
-- base64 is total here, while `atob` throws on a stored text that is no base64.
pub mod Verified
use Prim.Native.Nat.{Ordering, bit_xor, bit_or}
use sozan.Common.{
  ℕ, ◌*◌, String, Bool, true, false, ◌||◌, not, ◌++◌, List, [], ◌∷◌, length, ltb, ◌==◌, str_eq,
  if◌then◌else◌,
}
use sozan.Common.Results.{Result, ok, throw_if, ◌>>◌, password_policy}

pub record Host : Type 0 where
  -- `value.normalize('NFKC')`, `.trim()`, `.toLocaleLowerCase('en-US')`, `.toLowerCase()`, `.length`
  pub normalize_nfkc : String → String
  pub trim : String → String
  pub to_locale_lower_case : String → String
  pub to_lower_case : String → String
  pub text_length : String → ℕ
  -- `LOGIN_RE.test`, `UUID_RE.test`
  pub login_re : String → Bool
  pub uuid_re : String → Bool
  -- `btoa`, `atob`, and the replacements of '+', '/' and '=' that make base64url
  pub to_base64 : List ℕ → String
  pub from_base64 : String → List ℕ
  pub url_safe : String → String
  -- `crypto.subtle`
  pub derive_bits : String → List ℕ → ℕ → List ℕ
  pub digest : String → List ℕ
  -- `crypto.getRandomValues`, `crypto.randomUUID`
  pub random_values : ℕ → ℕ → List ℕ
  pub random_uuid : ℕ → String
  -- `COLLATE NOCASE` and `ORDER BY` of the database
  pub nocase : String → String → Bool
  pub compare_ids : String → String → Ordering
  -- `prefix + text`
  pub concat : String → String → String

abbrev pub password_iterations : ℕ
password_iterations = 100000

abbrev pub session_ttl_seconds : ℕ
session_ttl_seconds = 60 * 60 * 24 * 30

-- The loop of `equalBytes`, on two lists of one length.
unfoldable pub mismatch_of : List ℕ → List ℕ → ℕ → ℕ
mismatch_of [] right mismatch = mismatch
mismatch_of (x ∷ left) [] mismatch = mismatch
mismatch_of (x ∷ left) (y ∷ right) mismatch = mismatch_of left right (bit_or mismatch (bit_xor x y))

unfoldable pub equal_bytes : List ℕ → List ℕ → Bool
unfolding mismatch_of
equal_bytes left right =
    if not (length left == length right) then false else mismatch_of left right 0 == 0

abbrev pub is_blank : String → Bool
is_blank text = str_eq text ""

pub record PasswordHash : Type 0 where
  pub hash : String
  pub salt : String
  pub iterations : ℕ

pub record SecretCode : Type 0 where
  pub code : String
  pub hash : String

module _ (host : Host) where
  abbrev pub to_base64_url : List ℕ → String
  to_base64_url bytes = host.url_safe (host.to_base64 bytes)

  abbrev pub sha256 : String → String
  sha256 value = to_base64_url (host.digest value)

  abbrev pub normalize_login_name : String → String
  normalize_login_name value = host.to_locale_lower_case (host.trim (host.normalize_nfkc value))

  unfoldable pub assert_password_policy : String → Result (Unit {0})
  assert_password_policy password =
      throw_if (ltb (host.text_length password) 10 || ltb 200 (host.text_length password))
        password_policy

  -- `n` is the number of the random value.
  unfoldable pub create_password_hash : ℕ → String → Result PasswordHash
  unfolding assert_password_policy
  create_password_hash n password =
      assert_password_policy password
      >> ok (record {
        hash =
            host.to_base64
              (host.derive_bits password (host.random_values n 16) password_iterations);
        salt = host.to_base64 (host.random_values n 16);
        iterations = password_iterations;
      })

  unfoldable pub verify_password : String → String → String → ℕ → Bool
  unfolding equal_bytes
  verify_password password expected_hash salt iterations =
      if is_blank password || not (iterations == password_iterations)
      then false
      else equal_bytes (host.derive_bits password (host.from_base64 salt) iterations)
          (host.from_base64 expected_hash)

  unfoldable pub create_recovery_code : ℕ → SecretCode
  create_recovery_code n =
      let code = host.concat "S2-" (to_base64_url (host.random_values n 18)) in
      record { code = code; hash = sha256 code }

  unfoldable pub hash_recovery_code : String → String
  hash_recovery_code code = sha256 (host.trim code)

  unfoldable pub create_session_token : ℕ → SecretCode
  create_session_token n =
      let token = to_base64_url (host.random_values n 32) in
      record { code = token; hash = sha256 token }

  unfoldable pub hash_session_token : String → String
  hash_session_token token = sha256 token
