-- ===== src/Auth/Service/Lockout.antt =====
-- Five wrong passwords in a row lock an account.
use sozan.Common.{
  ℕ, ◌+◌, ◌<◌, ◌≡◌, refl, String, true, false, ◌&&◌, Option, none, some, List, [], ◌∷◌, map, inl,
  inr, Bool-cases, Option-cases, find_first, first_some, str_eq, lt→ltb, if◌then◌else◌, arith,
}
use mathlib.Core.Option.{map as map_option}
use sozan.Common.Results.{err, account_temporarily_locked}
use sozan.Auth.Security.{Host, is_blank, normalize_login_name, verify_password}
use sozan.Auth.Accounts.{
  AuthDb, UserRow, CredentialRow, CredentialRecord, has_login, or_text, joined, credential_for,
  credential_of, with_row, joined_row, update_credentials,
}
use sozan.Auth.Service.{LoginInput, login, fail_login, is_locked}

abbrev pub failed : Option ℕ → CredentialRow → CredentialRow
failed until c = record c { failed_attempts = c.failed_attempts + 1; locked_until = until }

abbrev pub failed_record : Option ℕ → CredentialRecord → CredentialRecord
failed_record until c = record c { failed_attempts = c.failed_attempts + 1; locked_until = until }

module _ (id : String) (f : CredentialRow → CredentialRow)
    (same : (c : CredentialRow) → (f c).user_id ≡ c.user_id) where
  abbrev changed : CredentialRow → CredentialRow
  changed c = if str_eq c.user_id id then f c else c

  changed-id : (c : CredentialRow) → (changed c).user_id ≡ c.user_id
  changed-id c = elim (Bool-cases (str_eq c.user_id id)) [ inl e ↦ rw e (same c) | inr e ↦ rw e ]

  find-changed :
      (user : String) (rows : List CredentialRow)
      → find_first (λ c. str_eq c.user_id user) (map changed rows)
        ≡ map_option changed (find_first (λ c. str_eq c.user_id user) rows)
  unfolding find_first
  find-changed user [] = refl
  find-changed user (c ∷ rest) = elim (Bool-cases (str_eq c.user_id user)) [
    | inl e ↦ rw (changed-id c, e)
    | inr e ↦ rw (changed-id c, e) (find-changed user rest)
  ]

  abbrev changed_row : UserRow × CredentialRow → UserRow × CredentialRow
  changed_row (u, c) = (u, changed c)

  with_row-changed :
      (u : UserRow) (c : Option CredentialRow)
      → with_row u (map_option changed c) ≡ map_option changed_row (with_row u c)
  with_row-changed u none = refl
  with_row-changed u (some c) = refl

  joined-changed :
      (host : Host) (login_name : String) (rows : List CredentialRow) (users : List UserRow)
      → first_some (joined_row host login_name (map changed rows)) users
        ≡ map_option changed_row (first_some (joined_row host login_name rows) users)
  unfolding first_some
  joined-changed host login_name rows [] = refl
  joined-changed host login_name rows (u ∷ rest) =
      elim (Bool-cases (has_login host login_name u.login_name && u.active)) [
        | inr other ↦ rw other (joined-changed host login_name rows rest)
        | inl here ↦ elim (Option-cases (find_first (λ c. str_eq c.user_id u.id) rows)) [
          | inl missing ↦
              rw (here, find-changed u.id rows, missing) (joined-changed host login_name rows rest)
          | inr (c, found) ↦ rw (here, find-changed u.id rows, found)
        ]
      ]

-- The credential of a joined row is of its user.
found-own :
    (id : String) (rows : List CredentialRow) (c : CredentialRow)
    → find_first (λ c. str_eq c.user_id id) rows ≡ some c
    → str_eq c.user_id id ≡ true
unfolding find_first
found-own id [] c h = cc
found-own id (x ∷ rest) c h = elim (Bool-cases (str_eq x.user_id id)) [
  | inl e ↦ let same : x ≡ c = cc (rw e at h) in rw (← same) e
  | inr e ↦ found-own id rest c (rw e at h)
]

joined-own :
    (host : Host) (login_name : String) (rows : List CredentialRow) (users : List UserRow)
    (u : UserRow) (c : CredentialRow)
    → first_some (joined_row host login_name rows) users ≡ some (u, c)
    → str_eq c.user_id u.id ≡ true
unfolding first_some
joined-own host login_name rows [] u c h = cc
joined-own host login_name rows (x ∷ rest) u c h =
    elim (Bool-cases (has_login host login_name x.login_name && x.active)) [
      | inr other ↦ joined-own host login_name rows rest u c (rw other at h)
      | inl here ↦ elim (Option-cases (find_first (λ c. str_eq c.user_id x.id) rows)) [
        | inl missing ↦ joined-own host login_name rows rest u c (rw (here, missing) at h)
        | inr (r, found) ↦
            let mine = found-own x.id rows r found in
            let same = rw (here, found) at h in
            let user : x ≡ u = cc in let row : r ≡ c = cc in rw (← user, ← row) mine
      ]
    ]

-- A failed login is recorded in the row that the next login reads.
credential_of-failed :
    (u : UserRow) (r : CredentialRow) (salt : Option String) (until : Option ℕ)
    (c : CredentialRecord)
    → credential_of u (or_text u.login_name) r salt ≡ some c
    → (c.user.id ≡ u.id)
      × (credential_of u (or_text u.login_name) (failed until r) salt
          ≡ some (failed_record until c))
credential_of-failed u r none until c h = cc
credential_of-failed u r (some salt) until c h = elim (Bool-cases (is_blank salt)) [
  | inl e ↦ cc (rw e at h)
  | inr e ↦ let h' = rw e at h in rw e (ground arith, ground (arith, h'))
]

pub credential_for-failed :
    (host : Host) (login_name : String) (until : Option ℕ) (c : CredentialRecord) (d : AuthDb)
    → credential_for host login_name d ≡ some c
    → credential_for host login_name (update_credentials c.user.id (failed until) d)
      ≡ some (failed_record until c)
unfolding credential_for
credential_for-failed host login_name until c d h = elim (Option-cases (joined host login_name d)) [
  | inl missing ↦ cc (rw missing at h)
  | inr ((u, r), found) ↦
      let (own, after) = credential_of-failed u r r.password_salt until c (rw found at h) in
      let mine = joined-own host login_name d.credentials d.users u r found in
      let hit : str_eq r.user_id c.user.id ≡ true = rw own mine in
      let moved =
        joined-changed c.user.id (failed until) (λ c. refl) host login_name d.credentials d.users in
      rw moved (rw found (rw hit after))
]

-- A wrong password.
pub wrong_login :
    (host : Host) (input : LoginInput) (c : CredentialRecord) (d : AuthDb)
    → credential_for host (normalize_login_name host input.login_name) d ≡ some c
    → verify_password host input.password c.password_hash c.password_salt c.password_iterations
      ≡ false
    → is_locked c.locked_until d.now ≡ false
    → login host input d ≡ fail_login c d
unfolding login
wrong_login host input c d found wrong free = rw (found, free, wrong)

-- While an account is locked, no password is accepted, and a login changes nothing.
pub login-locked :
    (host : Host) (input : LoginInput) (c : CredentialRecord) (until : ℕ) (d : AuthDb)
    → credential_for host (normalize_login_name host input.login_name) d ≡ some c
    → c.locked_until ≡ some until
    → d.now < until
    → login host input d ≡ (err account_temporarily_locked, d)
unfolding login
login-locked host input c until d found locked before = rw (found, locked, lt→ltb _ _ before)
