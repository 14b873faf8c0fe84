-- ===== src/Auth/Service/Requests.antt =====
-- Sequences of requests to the authentication service, and what every request keeps.
use sozan.Common.{
  ℕ, ◌+◌, ◌≡◌, refl, String, Bool, true, false, not, Option, none, some, List, [], ◌∷◌, inl, inr,
  Bool-cases, Option-cases, leb, str_eq, ◌/◌,
}
use sozan.Common.Results.{
  Error, Result, ok, err, Result-cases, invalid_credentials, account_not_found,
  account_bootstrap_failed, login_name_invalid, name_required, login_name_taken,
}
use sozan.Common.Exec.{Exec, lift, ◌>>=◌, ◌>>◌, throw_when, bind_keeps}
use sozan.Common.Exec.Keeps.{Keeps, bind-Keeps}
use sozan.Auth.Security.{
  Host, is_blank, verify_password, normalize_login_name, create_password_hash, hash_recovery_code,
  hash_session_token,
}
use sozan.Auth.Accounts.{
  AuthDb, CredentialRow, CredentialRecord, SessionRow, AccountInput, create_account, credential_for,
  login_name_free, insert_account, or_unchanged, update_credentials,
}
use sozan.Auth.Accounts.Sessions.{
  create_session, live_session, account_for, insert_session, update_sessions, revoked,
}
use sozan.Auth.Service.{
  RegisterInput, LoginInput, RecoverInput, draw, required, is_locked, recovery_hash,
  canonical_given, canonical_id, issue_session, issue_for, register_as, register, fail_login,
  login_with, login, authenticate, logout, recover,
}

pub data Request : Type 0 where
  register_request : RegisterInput → Request
  login_request : LoginInput → Request
  authenticate_request : String → Request
  logout_request : String → Request
  recover_request : RecoverInput → Request

-- The tables after a request, whether it returned or threw.
abbrev pub serve : Host → Request → AuthDb → AuthDb
serve host (register_request input) db = (register host input db).1
serve host (login_request input) db = (login host input db).1
serve host (authenticate_request token) db = (authenticate host token db).1
serve host (logout_request token) db = (logout host token db).1
serve host (recover_request input) db = (recover host input db).1

abbrev pub set_now : ℕ → AuthDb → AuthDb
set_now now db = record db { now = now }

-- Requests one after the other, each at its time.
unfoldable pub serve_all : Host → List (ℕ × Request) → AuthDb → AuthDb
serve_all host [] db = db
serve_all host ((now, request) ∷ rest) db =
    serve_all host rest (serve host request (set_now now db))

-- What the statements of the service keep.
pub record Statements (host : Host) (P : AuthDb → Type 0) : Type 0 where
  pub clock : (now : ℕ) (d : AuthDb) → P d → P (set_now now d)
  pub drawn : Keeps P draw
  pub account :
      (input : AccountInput) (d d' : AuthDb) → insert_account host input d ≡ ok d' → P d → P d'
  pub credentials :
      (user_id : String) (f : CredentialRow → CredentialRow) (d : AuthDb)
      → P d
      → P (update_credentials user_id f d)
  pub session : (row : SessionRow) (d d' : AuthDb) → insert_session row d ≡ ok d' → P d → P d'
  pub seen :
      (test : SessionRow → Bool) (time : ℕ) (d : AuthDb)
      → P d
      → P (update_sessions test (λ s. record s { last_seen_at = time }) d)
  pub revoke :
      (test : SessionRow → Bool) (now : ℕ) (d : AuthDb)
      → P d
      → P (update_sessions test (revoked now) d)

module _ (host : Host) (P : AuthDb → Type 0) (statements : Statements host P) where
  unchanged_or :
      (r : Result AuthDb) (d : AuthDb)
      → ((d' : AuthDb) → r ≡ ok d' → P d')
      → P d
      → P (or_unchanged d r).1
  unchanged_or (ok d') d k h = k d' refl
  unchanged_or (err e) d k h = h

  required-Keeps :
      {A B : Type 0} (e : Error) (o : Option A) (f : A → Exec AuthDb B)
      → ((a : A) → Keeps P (f a))
      → Keeps P (required e o >>= f)
  required-Keeps e none f k s h = h
  required-Keeps e (some a) f k s h = k a s h

  checked-Keeps :
      {A : Type 0} (b : Bool) (e : Error) (n : Exec AuthDb A)
      → Keeps P n
      → Keeps P (throw_when b e >> n)
  checked-Keeps true e n k s h = h
  checked-Keeps false e n k s h = k s h

  lifted-Keeps :
      {A B : Type 0} (r : Result A) (f : A → Exec AuthDb B)
      → ((a : A) → Keeps P (f a))
      → Keeps P (lift r >>= f)
  lifted-Keeps (ok a) f k s h = k a s h
  lifted-Keeps (err e) f k s h = h

  drawn_twice : (s : AuthDb) → P s → P (record s { draws = s.draws + 1 + 1 })
  drawn_twice s h = statements.drawn _ (statements.drawn s h)

  issue_session-Keeps :
      (user : String) (hint : Option String) → Keeps P (issue_session host user hint)
  unfolding issue_session
  issue_session-Keeps user hint s h =
      bind_keeps P (create_session (host.random_uuid (s.draws + 1)) user _ _ hint) _ _
        (unchanged_or (insert_session _ _) _ (λ d' e. statements.session _ _ d' e (drawn_twice s h))
          (drawn_twice s h))
        (λ a e.
          unchanged_or (insert_session _ _) _
            (λ d' e. statements.session _ _ d' e (drawn_twice s h)) (drawn_twice s h))

  issue_for-Keeps :
      (user : String) (hint : Option String) (e : Error) → Keeps P (issue_for host user hint e)
  unfolding issue_for
  issue_for-Keeps user hint e =
      bind-Keeps P (issue_session host user hint) _ (issue_session-Keeps user hint)
        (λ session. λ s h. required-Keeps e (account_for host user s) _ (λ account s h. h) s h)

  fail_login-Keeps : (credential : CredentialRecord) → Keeps P (fail_login credential)
  unfolding fail_login
  fail_login-Keeps credential s h = statements.credentials _ _ s h

  login_with-Keeps :
      (input : LoginInput) (credential : CredentialRecord)
      → Keeps P (login_with host input credential)
  unfolding login_with
  login_with-Keeps input credential s h =
      elim (Bool-cases (is_locked credential.locked_until s.now)) [
        | inl locked ↦ rw locked h
        | inr open_yet ↦
            rw open_yet
              (elim (Bool-cases (
                verify_password host input.password credential.password_hash
                  credential.password_salt credential.password_iterations)) [
                    | inl right ↦ rw right (
                        issue_for-Keeps credential.user.id input.user_agent_hint account_not_found _
                          (statements.credentials credential.user.id _ s h))
                    | inr wrong ↦ rw wrong (fail_login-Keeps credential s h)
                  ])
      ]

  login-Keeps : (input : LoginInput) → Keeps P (login host input)
  unfolding login
  login-Keeps input s =
      required-Keeps invalid_credentials
        (credential_for host (normalize_login_name host input.login_name) s) (login_with host input)
        (login_with-Keeps input) s

  authenticate-Keeps : (token : String) → Keeps P (authenticate host token)
  unfolding authenticate
  authenticate-Keeps token s h =
      elim (Option-cases (live_session (hash_session_token host token) s)) [
        | inl missing ↦ rw missing h
        | inr (session, found) ↦ rw found (elim (Bool-cases (leb session.expires_at s.now)) [
          | inl expired ↦ rw expired h
          | inr fresh ↦ rw fresh (elim (Option-cases (account_for host session.user_id s)) [
            | inl gone ↦ rw gone h
            | inr (account, loaded) ↦ rw loaded (statements.seen _ (s.now / 1000) s h)
          ])
        ])
      ]

  logout-Keeps : (token : String) → Keeps P (logout host token)
  unfolding logout
  logout-Keeps token s h = elim (Option-cases (live_session (hash_session_token host token) s)) [
    | inl missing ↦ rw missing h
    | inr (session, found) ↦ rw found (statements.revoke _ s.now s h)
  ]

  recover-Keeps : (input : RecoverInput) → Keeps P (recover host input)
  unfolding recover
  recover-Keeps input s h =
      elim (Option-cases
        (recovery_hash (credential_for host (normalize_login_name host input.login_name) s))) [
          | inl missing ↦ rw missing h
          | inr ((credential, hash), found) ↦
              rw found
                (elim (Bool-cases (str_eq (hash_recovery_code host input.recovery_code) hash)) [
                  | inr other ↦ rw other h
                  | inl same ↦
                      rw same
                        (elim (Result-cases
                          (create_password_hash host s.draws input.new_password)) [
                            | inr (thrown, refused) ↦ rw refused (statements.drawn s h)
                            | inl (password, made) ↦ rw made (
                                statements.revoke _ s.now _
                                  (statements.credentials credential.user.id _ _ (drawn_twice s h)))
                          ])
                ])
        ]

  canonical_id-Keeps :
      {A : Type 0} (id : Option String) (f : String → Exec AuthDb A)
      → ((a : String) → Keeps P (f a))
      → Keeps P (canonical_id host id >>= f)
  unfolding canonical_id canonical_given
  canonical_id-Keeps none f k s h = k _ _ (statements.drawn s h)
  canonical_id-Keeps (some candidate) f k s h = elim (Bool-cases (is_blank candidate)) [
    | inl none_given ↦ rw none_given (k _ _ (statements.drawn s h))
    | inr given ↦ rw given (elim (Bool-cases (host.uuid_re candidate)) [
      | inl valid ↦ rw valid (k _ s h)
      | inr invalid ↦ rw invalid h
    ])
  ]

  create_account-Keeps : (input : AccountInput) → Keeps P (create_account host input)
  create_account-Keeps input s h =
      unchanged_or (insert_account host input s) s (λ d' e. statements.account input s d' e h) h

  register_as-Keeps :
      (input : RegisterInput) (login_name user_id workspace_id : String)
      → Keeps P (register_as host input login_name user_id workspace_id)
  unfolding register_as
  register_as-Keeps input login_name user_id workspace_id s h =
      elim (Result-cases (create_password_hash host s.draws input.password)) [
        | inr (thrown, refused) ↦ rw refused (statements.drawn s h)
        | inl (password, made) ↦ rw made (
            bind_keeps P (create_account host _) _ _ (create_account-Keeps _ _ (drawn_twice s h))
              (λ u e.
                bind-Keeps P (issue_for host user_id input.user_agent_hint account_bootstrap_failed)
                  _ (issue_for-Keeps user_id input.user_agent_hint account_bootstrap_failed)
                  (λ issue s h. h) _ (create_account-Keeps _ _ (drawn_twice s h))))
      ]

  register-Keeps : (input : RegisterInput) → Keeps P (register host input)
  unfolding register
  register-Keeps input s =
      let login_name = normalize_login_name host input.login_name in
      checked-Keeps _ login_name_invalid _
        (checked-Keeps _ name_required _ (λ s.
          checked-Keeps (not (login_name_free host login_name s)) login_name_taken _
            (canonical_id-Keeps input.user_id _ (λ user_id.
              canonical_id-Keeps input.workspace_id _
                (λ workspace_id. register_as-Keeps input login_name user_id workspace_id)))
            s))
        s

  -- Every request keeps what the statements keep, whether it returns or throws.
  pub serve-Keeps : (request : Request) (d : AuthDb) → P d → P (serve host request d)
  serve-Keeps (register_request input) = register-Keeps input
  serve-Keeps (login_request input) = login-Keeps input
  serve-Keeps (authenticate_request token) = authenticate-Keeps token
  serve-Keeps (logout_request token) = logout-Keeps token
  serve-Keeps (recover_request input) = recover-Keeps input

  pub serve_all-Keeps :
      (requests : List (ℕ × Request)) (d : AuthDb) → P d → P (serve_all host requests d)
  unfolding serve_all
  serve_all-Keeps [] d h = h
  serve_all-Keeps ((now, request) ∷ rest) d h =
      serve_all-Keeps rest _ (serve-Keeps request _ (statements.clock now d h))
