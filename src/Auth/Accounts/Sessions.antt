-- ===== src/Auth/Accounts/Sessions.antt =====
-- src/server/adapters/d1/auth.repository.ts: the statements on sessions, the loading of an account, and
-- the replacement of a password.
use Prim.Native.Nat.{Ordering}
use sozan.Common.{
  ℕ, ◌/◌, String, Bool, ◌&&◌, ◌||◌, not, Option, none, some, is_some, List, map, find_first,
  filter_map, str_eq, leb, if◌then◌else◌,
}
use sozan.Common.Results.{Result, ok, ◌>>=◌}
use sozan.Common.Order.{sort, then_by, compare_numbers}
use sozan.Common.Exec.{Exec, gets, modify}
use sozan.Auth.Security.{Host, is_blank}
use sozan.Auth.Accounts.{
  AuthDb, UserRow, WorkspaceRow, MemberRow, CloudWorkspace, SessionRow, SessionRecord,
  AuthenticatedAccount, insert, update_credentials, or_unchanged,
}

abbrev ms_per_day : ℕ
ms_per_day = 86400000

abbrev pub insert_session : SessionRow → AuthDb → Result AuthDb
insert_session row db = do
  sessions ← insert (λ s. str_eq s.id row.id || str_eq s.token_hash row.token_hash) row db.sessions
  ok (record db { sessions = sessions })

abbrev pub create_session : String → String → String → ℕ → Option String → Exec AuthDb (Unit {0})
create_session id user_id token_hash expires_at user_agent_hint db = or_unchanged db (
    insert_session
      (record {
        id = id;
        user_id = user_id;
        token_hash = token_hash;
        expires_at = expires_at;
        last_seen_at = db.now / 1000;
        revoked_at = none;
        user_agent_hint = user_agent_hint;
      })
      db)

-- `token_hash = ?1 AND revoked_at IS NULL AND expires_at > CURRENT_TIMESTAMP`. The last test compares
-- texts, '2026-01-31T...' with '2026-01-31 ...': they differ in the date, or 'T' is greater than ' '.
abbrev pub is_session_live : String → ℕ → SessionRow → Bool
is_session_live token_hash now s =
    str_eq s.token_hash token_hash
    && not (is_some s.revoked_at)
    && leb (now / ms_per_day) (s.expires_at / ms_per_day)

abbrev pub live_session : String → AuthDb → Option SessionRow
live_session token_hash db = find_first (is_session_live token_hash db.now) db.sessions

abbrev pub session_record : Option SessionRow → Option SessionRecord
session_record none = none
session_record (some s) =
    some (record { id = s.id; user_id = s.user_id; expires_at = s.expires_at })

abbrev pub find_session : String → Exec AuthDb (Option SessionRecord)
find_session token_hash = gets (λ db. session_record (live_session token_hash db))

abbrev pub update_sessions : (SessionRow → Bool) → (SessionRow → SessionRow) → AuthDb → AuthDb
update_sessions test f db = record db {
  sessions = map (λ s. if test s then f s else s) db.sessions;
}

abbrev pub touch_session : String → Exec AuthDb (Unit {0})
touch_session session_id = modify (λ db.
    update_sessions (λ s. str_eq s.id session_id) (λ s. record s { last_seen_at = db.now / 1000 })
      db)

abbrev pub revoked : ℕ → SessionRow → SessionRow
revoked now s = record s { revoked_at = some (now / 1000) }

abbrev pub revoke_session : String → Exec AuthDb (Unit {0})
revoke_session session_id =
    modify (λ db. update_sessions (λ s. str_eq s.id session_id) (revoked db.now) db)

abbrev pub revoke_all_sessions : String → Exec AuthDb (Unit {0})
revoke_all_sessions user_id = modify (λ db.
    update_sessions (λ s. str_eq s.user_id user_id && not (is_some s.revoked_at)) (revoked db.now)
      db)

abbrev pub with_role : MemberRow → Option WorkspaceRow → Option (WorkspaceRow × CloudWorkspace)
with_role m none = none
with_role m (some w) = some (w, record { fields = w.fields; role = m.role })

-- The row of the join of memberships and workspaces for a membership.
abbrev pub joined_workspace :
    String → List WorkspaceRow → MemberRow → Option (WorkspaceRow × CloudWorkspace)
joined_workspace user_id workspaces m =
    if str_eq m.user_id user_id && m.active
    then with_role m (find_first (λ w. str_eq w.fields.id m.workspace_id && w.active) workspaces)
    else none

abbrev pub by_creation :
    Host → WorkspaceRow × CloudWorkspace → WorkspaceRow × CloudWorkspace → Ordering
by_creation host (a, x) (b, y) =
    then_by (compare_numbers a.created_at b.created_at) (host.compare_ids a.fields.id b.fields.id)

abbrev pub workspaces_of : Host → String → AuthDb → List CloudWorkspace
workspaces_of host user_id db =
    map (λ row. row.1)
      (sort (by_creation host) (filter_map (joined_workspace user_id db.workspaces) db.members))

-- `!user?.login_name`
abbrev pub account_of : UserRow → Option String → List CloudWorkspace → Option AuthenticatedAccount
account_of u none workspaces = none
account_of u (some login_name) workspaces =
    if is_blank login_name
    then none
    else some (record {
      user = record {
        id = u.id;
        login_name = login_name;
        display_name = u.display_name;
        locale = u.locale;
        timezone = u.timezone;
      };
      workspaces = workspaces;
    })

abbrev pub account_row : Host → AuthDb → Option UserRow → Option AuthenticatedAccount
account_row host db none = none
account_row host db (some u) = account_of u u.login_name (workspaces_of host u.id db)

unfoldable pub account_for : Host → String → AuthDb → Option AuthenticatedAccount
account_for host user_id db =
    account_row host db (find_first (λ u. str_eq u.id user_id && u.active) db.users)

abbrev pub load_account : Host → String → Exec AuthDb (Option AuthenticatedAccount)
load_account host user_id = gets (account_for host user_id)

abbrev pub replace_password : String → String → String → ℕ → String → Exec AuthDb (Unit {0})
replace_password user_id password_hash password_salt password_iterations recovery_code_hash =
    modify (
      update_credentials user_id (λ c. record c {
        password_hash = password_hash;
        password_salt = some password_salt;
        password_iterations = password_iterations;
        recovery_code_hash = some recovery_code_hash;
        failed_attempts = 0;
        locked_until = none;
      }))
