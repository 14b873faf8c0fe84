-- ===== src/Auth/Service/Locking.antt =====
-- Sequences of wrong passwords.
use sozan.Common.{
  ℕ, suc, ◌+◌, ◌*◌, ◌<◌, ◌≡◌, refl, ap, ◌∙◌, String, true, false, Option, none, some, List, [], ◌∷◌,
  map, length, All, leb, arith,
}
use sozan.Common.Results.{Result, err, invalid_credentials, account_temporarily_locked}
use sozan.Auth.Security.{Host, normalize_login_name, verify_password}
use sozan.Auth.Accounts.{AuthDb, CredentialRecord, credential_for}
use sozan.Auth.Service.{
  LoginInput, SessionIssue, login, fail_login, max_failed_attempts, lock_minutes,
}
use sozan.Auth.Service.Requests.{set_now}
use sozan.Auth.Service.Lockout.{failed_record, credential_for-failed, wrong_login, login-locked}

-- Logins one after the other, each at its time: what they come to, and the tables then.
unfoldable pub logins : Host → List (ℕ × LoginInput) → AuthDb → List (Result SessionIssue) × AuthDb
logins host [] d = ([], d)
logins host ((now, input) ∷ rest) d =
    let out = login host input (set_now now d) in
    let later = logins host rest out.1 in (out.0 ∷ later.0, later.1)

-- A login with this name, and a password that is not the one of the credential.
abbrev pub IsWrong : Host → String → CredentialRecord → LoginInput → Type 0
IsWrong host name c input =
    (normalize_login_name host input.login_name ≡ name)
    × (verify_password host input.password c.password_hash c.password_salt c.password_iterations
        ≡ false)

abbrev with_count : ℕ → Option ℕ → CredentialRecord → CredentialRecord
with_count n until c = record c { failed_attempts = n; locked_until = until }

module _ (host : Host) (name : String) where
  -- The credential does not depend on the time.
  at_time :
      (now : ℕ) (d : AuthDb) {found : Option CredentialRecord}
      → credential_for host name d ≡ found
      → credential_for host name (set_now now d) ≡ found
  unfolding credential_for
  at_time now d h = h

  one_wrong :
      (c : CredentialRecord) (input : LoginInput) (n : ℕ) (d : AuthDb)
      → credential_for host name d ≡ some (with_count n none c)
      → IsWrong host name c input
      → login host input d ≡ fail_login (with_count n none c) d
  one_wrong c input n d found wrong =
      wrong_login host input (with_count n none c) d (rw wrong.0 found) wrong.1 refl

  -- Fewer than five.
  few_wrong :
      (c : CredentialRecord) (attempts : List (ℕ × LoginInput)) (n : ℕ) (d : AuthDb)
      → credential_for host name d ≡ some (with_count n none c)
      → All (λ a. IsWrong host name c a.1) attempts
      → n + length attempts < max_failed_attempts
      → ((logins host attempts d).0 ≡ map (λ a. err invalid_credentials) attempts)
        × (credential_for host name (logins host attempts d).1
            ≡ some (with_count (n + length attempts) none c))
  unfolding logins fail_login
  few_wrong c [] n d found wrong few =
      (refl, rw found (ap (λ k. some (with_count k none c)) (omega arith)))
  few_wrong c ((now, input) ∷ rest) n d found wrong few =
      let under : leb max_failed_attempts (n + 1) ≡ false = ground arith in
      let out = one_wrong c input n (set_now now d) (at_time now d found) wrong.0 in
      let next =
        credential_for-failed host name none (with_count n none c) (set_now now d)
          (at_time now d found) in
      let later = few_wrong c rest (n + 1) _ next wrong.1 (omega arith) in
      let total : n + 1 + length rest ≡ n + suc (length rest) = omega arith in
      rw (out, under)
        (
          ap (λ xs. err invalid_credentials ∷ xs) later.0,
          later.1 ∙ ap (λ k. some (with_count k none c)) total,
        )

  -- Where an account has no failed login, four wrong passwords are refused and do not lock it, and the
  -- fifth locks it: for the next 15 minutes a login with any password is refused and changes nothing.
  pub login-locks :
      (c : CredentialRecord) (attempts : List (ℕ × LoginInput)) (now later : ℕ)
      (last next : LoginInput) (d : AuthDb)
      → credential_for host name d ≡ some c
      → c.failed_attempts ≡ 0
      → c.locked_until ≡ none
      → length attempts + 1 ≡ max_failed_attempts
      → All (λ a. IsWrong host name c a.1) attempts
      → IsWrong host name c last
      → normalize_login_name host next.login_name ≡ name
      → later < now + lock_minutes * 60000
      → let (outcomes, d4) = logins host attempts d in
        let (outcome, d5) = login host last (set_now now d4) in
        (outcomes ≡ map (λ a. err invalid_credentials) attempts)
        × (outcome ≡ err account_temporarily_locked)
        × (login host next (set_now later d5) ≡ (err account_temporarily_locked, set_now later d5))
  unfolding fail_login
  login-locks c attempts now later last next d found none_yet free four wrong wrong_last same soon =
      let start : credential_for host name d ≡ some (with_count 0 none c) =
        rw found (ground arith) in
      let (refused, found4) = few_wrong c attempts 0 d start wrong (omega arith) in
      let d4 = set_now now (logins host attempts d).1 in
      let fifth = one_wrong c last (0 + length attempts) d4 (at_time now _ found4) wrong_last in
      let over : leb max_failed_attempts (0 + length attempts + 1) ≡ true = ground arith in
      let until = some (now + lock_minutes * 60000) in
      let found5 =
        credential_for-failed host name until (with_count (0 + length attempts) none c) d4
          (at_time now _ found4) in
      rw (fifth, over)
        (
          refused,
          refl,
          login-locked host next (failed_record until (with_count (0 + length attempts) none c))
              (now + lock_minutes * 60000) _ (rw same (at_time later _ found5)) refl soon,
        )
