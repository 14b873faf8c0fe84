-- ===== src/Auth/Service.antt =====
-- src/platform/auth/service.ts: registration, login, authentication, logout and recovery. A request
-- runs alone; between requests the clock moves.
pub mod Requests
mod Tests
pub mod Unique
pub mod Authenticated
pub mod Ended
pub mod Recovered
pub mod Lockout
pub mod Locking
pub mod Issued
use sozan.Common.{
  ℕ, ◌+◌, ◌*◌, String, Bool, true, false, ◌||◌, not, Option, none, some, List, leb, ltb, str_eq,
  is_some, if◌then◌else◌,
}
use sozan.Common.Results.{
  Result, ok, err, Error, throw_if, client_id_invalid, login_name_invalid, name_required,
  login_name_taken, account_bootstrap_failed, invalid_credentials, account_temporarily_locked,
  account_not_found, unauthenticated, recovery_failed,
}
use sozan.Common.Exec.{Exec, pure, throw, lift, gets, continue, ◌>>=◌, ◌>>◌, throw_when}
use sozan.Auth.Security.{
  Host, is_blank, session_ttl_seconds, normalize_login_name, create_password_hash, verify_password,
  create_recovery_code, hash_recovery_code, create_session_token, hash_session_token,
}
use sozan.Auth.Accounts.{
  AuthDb, CredentialRecord, SessionRecord, AuthenticatedAccount, ModuleInput, LabelInput,
  find_credential, is_login_name_available, create_account, record_failed_login,
  clear_failed_logins,
}
use sozan.Auth.Accounts.Sessions.{
  create_session, find_session, touch_session, revoke_session, revoke_all_sessions, load_account,
  replace_password,
}

abbrev pub max_failed_attempts : ℕ
max_failed_attempts = 5

abbrev pub lock_minutes : ℕ
lock_minutes = 15

pub record SessionIssue : Type 0 where
  pub token : String
  pub expires_at : ℕ
  pub account : AuthenticatedAccount

pub record Registration : Type 0 where
  pub issue : SessionIssue
  pub recovery_code : String

pub record AuthSession : Type 0 where
  pub session_id : String
  pub account : AuthenticatedAccount

pub record RegisterInput : Type 0 where
  pub user_id : Option String
  pub workspace_id : Option String
  pub login_name : String
  pub password : String
  pub display_name : String
  pub locale : String
  pub timezone : String
  pub workspace_name : String
  pub template_key : String
  pub currency_code : String
  pub currency_label : String
  pub modules : List ModuleInput
  pub labels : List LabelInput
  pub user_agent_hint : Option String

pub record LoginInput : Type 0 where
  pub login_name : String
  pub password : String
  pub user_agent_hint : Option String

pub record RecoverInput : Type 0 where
  pub login_name : String
  pub recovery_code : String
  pub new_password : String

-- The number of the next random value.
abbrev pub draw : Exec AuthDb ℕ
draw db = (ok db.draws, record db { draws = db.draws + 1 })

-- `new Date(Date.now() + SESSION_TTL_SECONDS * 1000)`
abbrev pub session_expiry : ℕ → ℕ
session_expiry now = now + session_ttl_seconds * 1000

-- The `null` of a query is an error.
abbrev pub required : {A : Type 0} → Error → Option A → Exec AuthDb A
required e none = throw e
required e (some a) = pure a

-- `credential.lockedUntil && Date.parse(credential.lockedUntil) > Date.now()`
abbrev pub is_locked : Option ℕ → ℕ → Bool
is_locked none now = false
is_locked (some until) now = ltb now until

-- A wrong password.
unfoldable pub fail_login : CredentialRecord → Exec AuthDb SessionIssue
fail_login credential = do
  now ← gets (λ db. db.now)
  let locked_until =
      if leb max_failed_attempts (credential.failed_attempts + 1)
      then some (now + lock_minutes * 60000)
      else none
  record_failed_login credential.user.id locked_until
  throw (if is_some locked_until then account_temporarily_locked else invalid_credentials)

abbrev pub is_expired : ℕ → Option SessionRecord → Bool
is_expired now none = true
is_expired now (some session) = leb session.expires_at now

abbrev pub revoke_found : Option SessionRecord → Exec AuthDb (Unit {0})
revoke_found none = pure tt
revoke_found (some session) = revoke_session session.id

-- `credential?.recoveryCodeHash`
abbrev pub recovery_hash : Option CredentialRecord → Option (CredentialRecord × String)
recovery_hash none = none
recovery_hash (some credential) = elim credential.recovery_code_hash [
  | none ↦ none
  | some hash ↦ if is_blank hash then none else some (credential, hash)
]

module _ (host : Host) where
  unfoldable pub canonical_given : String → Exec AuthDb String
  canonical_given candidate =
      if is_blank candidate
      then (draw >>= λ n. pure (host.random_uuid n))
      else if not (host.uuid_re candidate)
      then throw client_id_invalid
      else pure (host.to_lower_case candidate)

  unfoldable pub canonical_id : Option String → Exec AuthDb String
  unfolding canonical_given
  canonical_id none = do n ← draw; pure (host.random_uuid n)
  canonical_id (some candidate) = canonical_given candidate

  -- The token and its expiry.
  unfoldable pub issue_session : String → Option String → Exec AuthDb (String × ℕ)
  issue_session user_id user_agent_hint = do
    n ← draw
    let token = create_session_token host n
    expires_at ← gets (λ db. session_expiry db.now)
    m ← draw
    create_session (host.random_uuid m) user_id token.hash expires_at user_agent_hint
    pure (token.code, expires_at)

  -- The end of a registration and of a login.
  unfoldable pub issue_for : String → Option String → Error → Exec AuthDb SessionIssue
  unfolding issue_session
  issue_for user_id user_agent_hint missing = do
    session ← issue_session user_id user_agent_hint
    found ← load_account host user_id
    account ← required missing found
    pure (record { token = session.0; expires_at = session.1; account = account })

  -- The part of a registration that has its ids.
  unfoldable pub register_as : RegisterInput → String → String → String → Exec AuthDb Registration
  unfolding issue_for
  register_as input login_name user_id workspace_id = do
    n ← draw
    password ← lift (create_password_hash host n input.password)
    m ← draw
    let recovery = create_recovery_code host m
    create_account host (record {
      user = record {
        id = user_id;
        login_name = login_name;
        display_name = host.trim input.display_name;
        locale = input.locale;
        timezone = input.timezone;
      };
      workspace = record {
        id = workspace_id;
        name = host.trim input.workspace_name;
        template_key = input.template_key;
        locale = input.locale;
        timezone = input.timezone;
        currency_code = input.currency_code;
        currency_label = input.currency_label;
      };
      password_hash = password.hash;
      password_salt = password.salt;
      password_iterations = password.iterations;
      recovery_code_hash = recovery.hash;
      modules = input.modules;
      labels = input.labels;
    })
    issue ← issue_for user_id input.user_agent_hint account_bootstrap_failed
    pure (record { issue = issue; recovery_code = recovery.code })

  unfoldable pub register : RegisterInput → Exec AuthDb Registration
  unfolding canonical_id
  register input = do
    let login_name = normalize_login_name host input.login_name
    throw_when (not (host.login_re login_name)) login_name_invalid
    throw_when
        (is_blank (host.trim input.display_name) || is_blank (host.trim input.workspace_name))
        name_required
    available ← is_login_name_available host login_name
    throw_when (not available) login_name_taken
    user_id ← canonical_id input.user_id
    workspace_id ← canonical_id input.workspace_id
    register_as input login_name user_id workspace_id

  unfoldable pub login_with : LoginInput → CredentialRecord → Exec AuthDb SessionIssue
  unfolding fail_login issue_for
  login_with input credential = do
    now ← gets (λ db. db.now)
    throw_when (is_locked credential.locked_until now) account_temporarily_locked
    (if not (
          verify_password host input.password credential.password_hash credential.password_salt
            credential.password_iterations)
        then fail_login credential
        else (do
          clear_failed_logins credential.user.id
          issue_for credential.user.id input.user_agent_hint account_not_found))

  unfoldable pub login : LoginInput → Exec AuthDb SessionIssue
  unfolding login_with
  login input = do
    found ← find_credential host (normalize_login_name host input.login_name)
    credential ← required invalid_credentials found
    login_with input credential

  unfoldable pub authenticate : String → Exec AuthDb AuthSession
  authenticate token = do
    found ← find_session (hash_session_token host token)
    now ← gets (λ db. db.now)
    throw_when (is_expired now found) unauthenticated
    session ← required unauthenticated found
    loaded ← load_account host session.user_id
    account ← required unauthenticated loaded
    touch_session session.id
    pure (record { session_id = session.id; account = account })

  unfoldable pub logout : String → Exec AuthDb (Unit {0})
  logout token = do session ← find_session (hash_session_token host token); revoke_found session

  unfoldable pub recover : RecoverInput → Exec AuthDb String
  recover input = do
    found ← find_credential host (normalize_login_name host input.login_name)
    (credential, hash) ← required recovery_failed (recovery_hash found)
    throw_when (not (str_eq (hash_recovery_code host input.recovery_code) hash)) recovery_failed
    n ← draw
    password ← lift (create_password_hash host n input.new_password)
    m ← draw
    let recovery = create_recovery_code host m
    replace_password credential.user.id password.hash password.salt password.iterations
        recovery.hash
    revoke_all_sessions credential.user.id
    pure recovery.code
