-- ===== src/Auth/Service/Issued.antt =====
-- The token that a login or a registration issues.
use sozan.Common.{
  ℕ, ◌+◌, ◌*◌, ◌<◌, ◌≡◌, refl, String, Bool, true, false, ◌&&◌, Option, none, some, List, [], ◌∷◌,
  ◌++◌, inl, inr, Bool-cases, Option-cases, find_first, str_eq, leb, ◌/◌, arith,
}
use text.Mathlib.TextPositions.{eq_refl}
use sozan.Common.Results.{account_not_found, Error, ok, Result-cases}
use sozan.Auth.Security.{
  Host, normalize_login_name, verify_password, session_ttl_seconds, hash_session_token,
  create_session_token,
}
use sozan.Auth.Accounts.{
  AuthDb, UserRow, SessionRow, CredentialRecord, credential_for, clear_failed_logins,
}
use sozan.Auth.Accounts.Sessions.{is_session_live, insert_session, account_for, account_row}
use sozan.Auth.Service.{
  LoginInput, SessionIssue, session_expiry, issue_session, issue_for, login, is_locked, fail_login,
  authenticate,
}
use sozan.Auth.Service.Requests.{set_now}
use sozan.Auth.Service.Recovered.{account_for-id}
use sozan.Auth.Service.Unique.{IsUnused, insert_session-ok, unused-not-found}

last-found :
    (p : SessionRow → Bool) (row : SessionRow) (rows : List SessionRow)
    → find_first p rows ≡ none
    → p row ≡ true
    → find_first p (rows ++ row ∷ []) ≡ some row
unfolding find_first
last-found p row [] h live = rw live
last-found p row (s ∷ rest) h live = elim (Bool-cases (p s)) [
  | inl e ↦ cc (rw e at h)
  | inr e ↦ rw e (last-found p row rest (rw e at h) live)
]

-- The row of a session that is issued.
abbrev issued_row : Host → String → Option String → AuthDb → SessionRow
issued_row host user hint d = record {
  id = host.random_uuid (d.draws + 1);
  user_id = user;
  token_hash = (create_session_token host d.draws).hash;
  expires_at = session_expiry d.now;
  last_seen_at = d.now / 1000;
  revoked_at = none;
  user_agent_hint = hint;
}

abbrev drawn_twice : AuthDb → AuthDb
drawn_twice d = record d { draws = d.draws + 1 + 1 }

abbrev with_session : SessionRow → AuthDb → AuthDb
with_session row d = record d { sessions = d.sessions ++ row ∷ [] }

account_row-issued :
    (host : Host) (row : SessionRow) (now : ℕ) (d : AuthDb) (u : Option UserRow)
    → account_row host (set_now now (with_session row (drawn_twice d))) u ≡ account_row host d u
account_row-issued host row now d none = refl
account_row-issued host row now d (some u) = refl

-- An account depends neither on the sessions nor on the time.
account_for-issued :
    (host : Host) (user : String) (row : SessionRow) (now : ℕ) (d : AuthDb)
    → account_for host user (set_now now (with_session row (drawn_twice d)))
      ≡ account_for host user d
unfolding account_for
account_for-issued host user row now d =
    account_row-issued host row now d (find_first (λ u. str_eq u.id user && u.active) d.users)

module _ (host : Host) (user : String) (hint : Option String) (d : AuthDb)
    (issue : SessionIssue) where
  issue_for-ok :
      (e : Error)
      → (issue_for host user hint e d).0 ≡ ok issue
      → let row = issued_row host user hint d in
        ((issue_for host user hint e d).1 ≡ with_session row (drawn_twice d))
        × IsUnused row.token_hash d.sessions
        × (account_for host user d ≡ some issue.account)
        × (issue.expires_at ≡ row.expires_at)
        × (issue.token ≡ (create_session_token host d.draws).code)
  unfolding issue_for issue_session
  issue_for-ok e h =
      let row = issued_row host user hint d in
      elim (Result-cases (insert_session row (drawn_twice d))) [
        | inr (thrown, refused) ↦ cc (rw refused at h)
        | inl (d', stored) ↦
            let (unused, same) = insert_session-ok row (drawn_twice d) d' stored in
            let loads = account_for-issued host user row d.now d in
            elim (Option-cases (account_for host user d)) [
              | inl missing ↦ cc (rw (stored, same, loads, missing) at h)
              | inr (account, found) ↦
                  let h' = rw (stored, same, loads, found) at h in
                  (
                    rw (stored, same, loads, found),
                    unused,
                    ground (arith, found, h'),
                    ground (arith, h'),
                    ground (arith, h'),
                  )
            ]
      ]

  -- The token of a session that was issued authenticates its user until it expires.
  issue_for-authenticates :
      (e : Error) (now : ℕ)
      → (issue_for host user hint e d).0 ≡ ok issue
      → now < issue.expires_at
      → (authenticate host issue.token (set_now now (issue_for host user hint e d).1)).0
        ≡ ok (record { session_id = host.random_uuid (d.draws + 1); account = issue.account })
  unfolding authenticate create_session_token hash_session_token
  issue_for-authenticates e now h before =
      let row = issued_row host user hint d in
      let (after, unused, loaded, expiry, token) = issue_for-ok e h in
      let fresh : leb row.expires_at now ≡ false = ground arith in
      let live : is_session_live row.token_hash now row ≡ true =
        rw (eq_refl row.token_hash) (ground arith) in
      let found =
        last-found (is_session_live row.token_hash now) row d.sessions
          (unused-not-found row.token_hash now d.sessions unused) live in
      rw (after, token, found, fresh, account_for-issued host user row now d, loaded)

-- What lets a login through: a credential of the name that is not locked, and its password.
pub record Admits (host : Host) (input : LoginInput) (d : AuthDb) (c : CredentialRecord)
    : Type 0 where
  pub named : credential_for host (normalize_login_name host input.login_name) d ≡ some c
  pub unlocked : is_locked c.locked_until d.now ≡ false
  pub verified :
      verify_password host input.password c.password_hash c.password_salt c.password_iterations
      ≡ true

module _ (host : Host) (input : LoginInput) (d : AuthDb) (issue : SessionIssue) where
  login-Admits :
      (login host input d).0 ≡ ok issue
      → (c : CredentialRecord) × Admits host input d c
        × (login host input d
            ≡ issue_for host c.user.id input.user_agent_hint account_not_found
                (clear_failed_logins c.user.id d).1)
  unfolding login
  login-Admits h =
      elim (Option-cases (credential_for host (normalize_login_name host input.login_name) d)) [
        | inl missing ↦ cc (rw missing at h)
        | inr (c, found) ↦ elim (Bool-cases (is_locked c.locked_until d.now)) [
          | inl locked ↦ cc (rw (found, locked) at h)
          | inr free ↦
              elim (Bool-cases (
                verify_password host input.password c.password_hash c.password_salt
                  c.password_iterations)) [
                    | inl right ↦ (
                      c,
                      record { named = found; unlocked = free; verified = right },
                      rw (found, free, right),
                    )
                    | inr wrong ↦ cc (rw (found, free, wrong, fail_login) at h)
                  ]
        ]
      ]

  -- A login returns only where the name has a credential that is not locked and the password is the
  -- right one. The token that it returns then authenticates that account, at every time until 30 days
  -- after the login, when no other request came in between.
  pub login-issues :
      (now : ℕ)
      → (login host input d).0 ≡ ok issue
      → now < d.now + session_ttl_seconds * 1000
      → (c : CredentialRecord) × Admits host input d c
        × (id : String) × ((authenticate host issue.token (set_now now (login host input d).1)).0
            ≡ ok (record { session_id = id; account = issue.account }))
        × (issue.account.user.id ≡ c.user.id)
  login-issues now h before =
      let (c, admits, same) = login-Admits h in
      let cleared = (clear_failed_logins c.user.id d).1 in
      let hint = input.user_agent_hint in
      let h' = rw same at h in
      let (_, _, loaded, expiry, _) =
        issue_for-ok host c.user.id hint cleared issue account_not_found h' in
      (
        c,
        admits,
        host.random_uuid (d.draws + 1),
        rw same (
            issue_for-authenticates host c.user.id hint cleared issue account_not_found now h'
              (omega (arith, expiry))),
        account_for-id host c.user.id cleared issue.account loaded,
      )
