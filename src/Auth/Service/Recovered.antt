-- ===== src/Auth/Service/Recovered.antt =====
-- A recovery ends the sessions of its account.
use sozan.Common.{
  ℕ, ◌≡◌, String, true, ◌&&◌, not, some, List, inl, inr, ◌⊎◌, Bool-cases, Option-cases, find_first,
  str_eq, is_some, arith, eq_iff,
}
use text.Mathlib.TextPositions.{eq_refl}
use sozan.Common.Results.{ok, err, unauthenticated, Result-cases}
use sozan.Auth.Security.{
  Host, is_blank, normalize_login_name, create_password_hash, hash_recovery_code,
}
use sozan.Auth.Accounts.{
  AuthDb, UserRow, SessionRow, CredentialRecord, AuthenticatedAccount, credential_for,
}
use sozan.Auth.Accounts.Sessions.{update_sessions, revoked, account_for, account_row}
use sozan.Auth.Service.{AuthSession, RecoverInput, authenticate, recover, recovery_hash}
use sozan.Auth.Service.Requests.{Request, serve_all}
use sozan.Common.Members.{found-stored}
use sozan.Auth.Service.Authenticated.{authenticate-found}
use sozan.Auth.Service.Unique.{HashesUnique}
use sozan.Auth.Service.Ended.{revoked-IsSpent, spent-refused}

loaded_id :
    (host : Host) (u : UserRow) (d : AuthDb) (account : AuthenticatedAccount) {user : String}
    → u.id ≡ user
    → account_row host d (some u) ≡ some account
    → account.user.id ≡ user
loaded_id host u d account same h = elim (Option-cases u.login_name) [
  | inl none_given ↦ cc (rw none_given at h)
  | inr (name, given) ↦ elim (Bool-cases (is_blank name)) [
    | inl e ↦ cc (rw (given, e) at h)
    | inr e ↦ let h' = rw (given, e) at h in ground (arith, same)
  ]
]

recovery_hash-credential :
    (c credential : CredentialRecord) (hash : String)
    → recovery_hash (some c) ≡ some (credential, hash)
    → credential ≡ c
recovery_hash-credential c credential hash h = elim (Option-cases c.recovery_code_hash) [
  | inl e ↦ cc (rw e at h)
  | inr (text, e) ↦ elim (Bool-cases (is_blank text)) [
    | inl f ↦ cc (rw (e, f) at h)
    | inr f ↦ cc (rw (e, f) at h)
  ]
]

pub account_for-id :
    (host : Host) (user : String) (d : AuthDb) (account : AuthenticatedAccount)
    → account_for host user d ≡ some account
    → account.user.id ≡ user
unfolding account_for
account_for-id host user d account h =
    elim (Option-cases (find_first (λ u. str_eq u.id user && u.active) d.users)) [
      | inl missing ↦ cc (rw missing at h)
      | inr (u, found) ↦
          let (_, right) = found-stored (λ u. str_eq u.id user && u.active) u d.users found in
          let same : u.id ≡ user = ground (arith, eq_iff u.id user) in
          loaded_id host u d account same (rw found at h)
    ]

of_user :
    {id : String} (s : SessionRow)
    → s.user_id ≡ id
    → ((str_eq s.user_id id && not (is_some s.revoked_at)) ≡ true) ⊎ (is_some s.revoked_at ≡ true)
of_user s same = elim (Bool-cases (is_some s.revoked_at)) [
  | inl e ↦ inr e
  | inr e ↦ inl (rw (← same) (rw (e, eq_refl s.user_id)))
]

module _ (host : Host) (input : RecoverInput) (d : AuthDb) (code : String) (c : CredentialRecord)
    (named : credential_for host (normalize_login_name host input.login_name) d ≡ some c) where
  -- The sessions after a recovery that returned.
  recovered :
      (recover host input d).0 ≡ ok code
      → (recover host input d).1.sessions
        ≡ (update_sessions
            (λ s. str_eq s.user_id c.user.id && not (is_some s.revoked_at))
            (revoked d.now)
            d).sessions
  unfolding recover
  recovered h = elim (Option-cases (recovery_hash (some c))) [
    | inl missing ↦ cc (rw (named, missing) at h)
    | inr ((credential, hash), found) ↦
        let same : credential ≡ c = recovery_hash-credential c credential hash found in
        elim (Bool-cases (str_eq (hash_recovery_code host input.recovery_code) hash)) [
          | inr other ↦ cc (rw (named, found, other) at h)
          | inl right ↦ elim (Result-cases (create_password_hash host d.draws input.new_password)) [
            | inr (thrown, refused) ↦ cc (rw (named, found, right, refused) at h)
            | inl (password, made) ↦ rw (named, found, right, made, same)
          ]
        ]
  ]

  -- Where no two sessions have one hash of a token and the recovery of an account returned, a token
  -- that authenticated the account just before it never authenticates again, whatever requests of
  -- anybody follow, at whatever times.
  pub recover-ends :
      (token : String) (auth : AuthSession) (requests : List (ℕ × Request))
      → HashesUnique d.sessions
      → (recover host input d).0 ≡ ok code
      → (authenticate host token d).0 ≡ ok auth
      → auth.account.user.id ≡ c.user.id
      → (authenticate host token (serve_all host requests (recover host input d).1)).0
        ≡ err unauthenticated
  recover-ends token auth requests unique done valid same =
      let (s, found, _, _, loaded) = authenticate-found host token d auth valid in
      let mine = account_for-id host s.user_id d auth.account loaded in
      spent-refused host token requests _ (
        rw (recovered done) (
          revoked-IsSpent _ s (λ t. str_eq t.user_id c.user.id && not (is_some t.revoked_at)) d
            unique found (of_user s (cc mine))))
