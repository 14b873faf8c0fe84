-- ===== src/Auth/Service/Tests.antt =====
-- The authentication service at concrete inputs. The host of the tests reads a text by its first
-- letter, and hashes a text as itself.
use sozan.Common.{filter_map, find_first, first_some, some_of}
use sozan.Auth.Service.{register_as}
use sozan.Auth.Security.{
  create_password_hash, create_recovery_code, create_session_token, hash_recovery_code,
  hash_session_token,
}
use sozan.Auth.Accounts.{insert_account}
use sozan.Auth.Accounts.Sessions.{account_for}
use sozan.Common.Order.{sort}
use Prim.Native.Nat.{Ordering}
use sozan.Common.{
  ℕ, ◌-◌, ◌↔◌, ◌+◌, ◌≡◌, ◌≢◌, refl, String, true, false, none, some, List, [], ◌∷◌, map, str_eq,
  ◌==◌, if◌then◌else◌, arith,
}
use sozan.Common.Results.{ok, err, unauthenticated, invalid_credentials, account_temporarily_locked}
use sozan.Auth.Security.{Host, is_blank, password_iterations, verify_password}
use sozan.Auth.Security.Verified.{verify_password_iff}
use sozan.Auth.Accounts.{
  AuthDb, owner, viewer, MemberRow, AuthenticatedAccount, SessionRow, UserRow, CredentialRecord,
  credential_for,
}
use sozan.Auth.Service.{
  RegisterInput, LoginInput, RecoverInput, AuthSession, register, login, authenticate, logout,
  recover,
}
use sozan.Auth.Service.Requests.{Request, login_request, logout_request, serve_all, set_now}
use sozan.Auth.Guard.{WorkspaceAccess, require_workspace_access}
use sozan.Auth.Guard.Granted.{IsMember, require_workspace_access-granted}
use sozan.Auth.Service.Unique.{HashesUnique}
use sozan.Auth.Service.Authenticated.{Grants, authenticate_iff}
use sozan.Auth.Service.Ended.{logout-ends}
use sozan.Auth.Service.Recovered.{recover-ends}
use sozan.Auth.Service.Issued.{Admits, login-issues}
use sozan.Auth.Service.Locking.{logins, login-locks}

abbrev letters : List String
letters = "a" ∷ "b" ∷ "c" ∷ "d" ∷ "e" ∷ "f" ∷ "g" ∷ "h" ∷ "i" ∷ "j" ∷ []

abbrev letter_at : List String → ℕ → String
letter_at [] n = "z"
letter_at (x ∷ xs) n = let rest = letter_at xs (n - 1) in if n == 0 then x else rest

abbrev index_of : List String → String → ℕ → ℕ
index_of [] text n = n
index_of (x ∷ xs) text n = let rest = index_of xs text (n + 1) in if str_eq x text then n else rest

abbrev first_of : List ℕ → ℕ
first_of [] = 0
first_of (x ∷ xs) = x

abbrev host : Host
host = record {
  normalize_nfkc = λ t. t;
  trim = λ t. t;
  to_locale_lower_case = λ t. t;
  to_lower_case = λ t. t;
  text_length = λ t. 12;
  login_re = λ t. true;
  uuid_re = λ t. true;
  to_base64 = λ bytes. letter_at letters (first_of bytes);
  from_base64 = λ t. index_of letters t 0 ∷ [];
  url_safe = λ t. t;
  derive_bits = λ password salt iterations. index_of letters password 0 ∷ [];
  digest = λ t. index_of letters t 0 ∷ [];
  random_values = λ n length. n ∷ [];
  random_uuid = λ n. letter_at letters n;
  nocase = str_eq;
  compare_ids = λ a b. Ordering.eq;
  concat = λ a b. b;
}

abbrev empty : AuthDb
empty = record {
  users = [];
  credentials = [];
  sessions = [];
  workspaces = [];
  members = [];
  modules = [];
  labels = [];
  now = 1000;
  draws = 0;
}

abbrev registration : RegisterInput
registration = record {
  user_id = none;
  workspace_id = none;
  login_name = "mona";
  password = "h";
  display_name = "Mona";
  locale = "en-GB";
  timezone = "Europe/London";
  workspace_name = "Lessons";
  template_key = "tutoring";
  currency_code = "GBP";
  currency_label = "Pounds";
  modules = [];
  labels = [];
  user_agent_hint = none;
}

abbrev account : AuthenticatedAccount
account = record {
  user = record {
    id = "a";
    login_name = "mona";
    display_name = "Mona";
    locale = "en-GB";
    timezone = "Europe/London";
  };
  workspaces =
      record {
        fields = record {
          id = "b";
          name = "Lessons";
          template_key = "tutoring";
          locale = "en-GB";
          timezone = "Europe/London";
          currency_code = "GBP";
          currency_label = "Pounds";
        };
        role = owner;
      }
      ∷ [];
}

-- The tables after the registration.
abbrev session : SessionRow
session = record {
  id = "f";
  user_id = "a";
  token_hash = "e";
  expires_at = 2592001000;
  last_seen_at = 1;
  revoked_at = none;
  user_agent_hint = none;
}

abbrev tables : AuthDb
tables = record {
  users =
      record {
        id = "a";
        login_name = some "mona";
        display_name = "Mona";
        locale = "en-GB";
        timezone = "Europe/London";
        active = true;
      }
      ∷ [];
  credentials =
      record {
        user_id = "a";
        password_hash = "h";
        password_salt = some "c";
        password_iterations = 100000;
        recovery_code_hash = some "d";
        failed_attempts = 0;
        locked_until = none;
      }
      ∷ [];
  sessions = session ∷ [];
  workspaces =
      record {
        fields = record {
          id = "b";
          name = "Lessons";
          template_key = "tutoring";
          locale = "en-GB";
          timezone = "Europe/London";
          currency_code = "GBP";
          currency_label = "Pounds";
        };
        owner_user_id = "a";
        active = true;
        created_at = 1;
      }
      ∷ [];
  members = record { workspace_id = "b"; user_id = "a"; role = owner; active = true } ∷ [];
  modules = [];
  labels = [];
  now = 1000;
  draws = 6;
}

registers : register host registration empty ≡ (
  ok (record {
    issue = record { token = "e"; expires_at = 2592001000; account = account };
    recovery_code = "d";
  }),
  tables,
)
unfolding register some_of register_as create_password_hash insert_account account_for find_first
    create_session_token sort create_recovery_code filter_map
registers = refl

abbrev entry : AuthSession
entry = record { session_id = "f"; account = account }

authenticates : (authenticate host "e" tables).0 ≡ ok entry
unfolding authenticate find_first hash_session_token account_for sort filter_map
authenticates = refl

abbrev mona : String → LoginInput
mona password = record { login_name = "mona"; password = password; user_agent_hint = none }

abbrev recovery : RecoverInput
recovery = record { login_name = "mona"; recovery_code = "d"; new_password = "i" }

abbrev later_requests : List (ℕ × Request)
later_requests = (2000, login_request (mona "h")) ∷ (3000, logout_request "e") ∷ []

unique : HashesUnique tables.sessions
unique = (tt, tt)

logout-ends_example :
    (authenticate host "e" (serve_all host later_requests (logout host "e" tables).1)).0
    ≡ err unauthenticated
logout-ends_example = logout-ends host "e" tables entry unique authenticates later_requests

abbrev credential : CredentialRecord
credential = record {
  user = account.user;
  password_hash = "h";
  password_salt = "c";
  password_iterations = 100000;
  recovery_code_hash = some "d";
  failed_attempts = 0;
  locked_until = none;
}

named : credential_for host "mona" tables ≡ some credential
unfolding credential_for first_some find_first
named = refl

recovers : (recover host recovery tables).0 ≡ ok "h"
unfolding recover credential_for first_some find_first hash_recovery_code create_password_hash
    create_recovery_code
recovers = refl

recover-ends_example :
    (authenticate host "e" (serve_all host later_requests (recover host recovery tables).1)).0
    ≡ err unauthenticated
recover-ends_example =
    recover-ends host recovery tables "h" credential named "e" entry later_requests unique recovers
      authenticates refl

authenticate_iff_example :
    ((authenticate host "e" tables).0 ≡ ok entry)
    ↔ ((s : SessionRow) × (u : UserRow) × Grants host "e" tables entry s u)
authenticate_iff_example = authenticate_iff host "e" tables entry unique (tt, tt)

logs_in :
    (login host (mona "h") tables).0
    ≡ ok (record { token = "g"; expires_at = 2592001000; account = account })
unfolding login credential_for first_some find_first verify_password some_of create_session_token
    account_for sort filter_map
logs_in = refl

login-issues_example :
    (c : CredentialRecord) × Admits host (mona "h") tables c
    × (id : String) × ((authenticate host "g" (set_now 5000 (login host (mona "h") tables).1)).0
        ≡ ok (record { session_id = id; account = account }))
    × (account.user.id ≡ c.user.id)
login-issues_example =
    login-issues host (mona "h") tables
      (record { token = "g"; expires_at = 2592001000; account = account }) 5000 logs_in
      (omega arith)

abbrev guesses : List (ℕ × LoginInput)
guesses = (2000, mona "j") ∷ (3000, mona "j") ∷ (4000, mona "i") ∷ (5000, mona "j") ∷ []

login-locks_example :
    let (outcomes, d4) = logins host guesses tables in
    let (outcome, d5) = login host (mona "j") (set_now 6000 d4) in
    (outcomes ≡ map (λ a. err invalid_credentials) guesses)
    × (outcome ≡ err account_temporarily_locked)
    × (login host (mona "h") (set_now 7000 d5) ≡ (err account_temporarily_locked, set_now 7000 d5))
unfolding verify_password
login-locks_example =
    login-locks host "mona" credential guesses 6000 7000 (mona "j") (mona "h") tables named refl
      refl refl ((refl, refl), ((refl, refl), ((refl, refl), ((refl, refl), tt)))) (refl, refl) refl
      (omega arith)

verify_password_iff_example : (verify_password host "h" "h" "c" 100000 ≡ true) ↔ (
    (is_blank "h" ≡ false)
    × (100000 ≡ password_iterations)
    × (host.derive_bits "h" (host.from_base64 "c") 100000 ≡ host.from_base64 "h"))
verify_password_iff_example =
    verify_password_iff host "h" "h" "c" 100000 (omega arith, tt) (omega arith, tt)

abbrev access : WorkspaceAccess
access = record { user_id = "a"; workspace_id = "b"; role = owner }

enters : (require_workspace_access host true (some "e") "b" true tables).0 ≡ ok access
unfolding require_workspace_access authenticate find_first hash_session_token account_for sort
    filter_map
enters = refl

require_workspace_access-granted_example :
    (token : String) × (auth : AuthSession) × (m : MemberRow) × (some "e" ≡ some token)
    × ((authenticate host token tables).0 ≡ ok auth)
    × (access.user_id ≡ auth.account.user.id)
    × (access.workspace_id ≡ "b")
    × IsMember tables access.user_id "b" access.role m
    × (true ≡ true → access.role ≢ viewer)
require_workspace_access-granted_example =
    require_workspace_access-granted host true "b" true tables access (some "e") enters
