-- ===== src/Auth/Guard.antt =====
-- src/server/auth/guard.ts: the access of a request to a workspace, and the statuses of the errors, with
-- those of src/server/auth/routes.ts. The cookie of the request and whether the database is bound are
-- arguments.
pub mod Granted
pub mod Answered
use sozan.Common.{
  ℕ, String, Bool, true, false, ◌&&◌, not, Option, none, some, List, [], ◌∷◌, find_first, str_eq,
}
use sozan.Common.Results.{
  Error, database_not_configured, auth_rate_limited, login_name_taken, account_temporarily_locked,
  invalid_credentials, unauthenticated, recovery_failed, workspace_forbidden, workspace_read_only,
}
use sozan.Common.Exec.{Exec, pure, throw, ◌>>=◌, ◌>>◌, throw_when}
use sozan.Auth.Security.{Host, is_blank}
use sozan.Auth.Accounts.{
  AuthDb, Role, owner, admin, member, viewer, CloudWorkspace, AuthenticatedAccount,
}
use sozan.Auth.Service.{authenticate, required}

pub record WorkspaceAccess : Type 0 where
  pub user_id : String
  pub workspace_id : String
  pub role : Role

abbrev pub is_viewer : Role → Bool
is_viewer viewer = true
is_viewer _ = false

-- `if (!token) throw new Error('UNAUTHENTICATED')`
abbrev pub given_token : Option String → Exec AuthDb String
given_token none = throw unauthenticated
given_token (some token) = throw_when (is_blank token) unauthenticated >> pure token

abbrev pub find_workspace : String → AuthenticatedAccount → Option CloudWorkspace
find_workspace workspace_id account =
    find_first (λ w. str_eq w.fields.id workspace_id) account.workspaces

unfoldable pub require_workspace_access :
    Host → Bool → Option String → String → Bool → Exec AuthDb WorkspaceAccess
require_workspace_access host configured cookie workspace_id write = do
  token ← given_token cookie
  throw_when (not configured) database_not_configured
  auth ← authenticate host token
  workspace ← required workspace_forbidden (find_workspace workspace_id auth.account)
  throw_when (write && is_viewer workspace.role) workspace_read_only
  pure (record {
    user_id = auth.account.user.id;
    workspace_id = workspace_id;
    role = workspace.role;
  })

-- The status of the answer to an error; the other errors are thrown on.
unfoldable pub access_error : Error → Option ℕ
access_error database_not_configured = some 503
access_error unauthenticated = some 401
access_error workspace_forbidden = some 403
access_error workspace_read_only = some 403
access_error _ = none

unfoldable pub auth_error_response : Error → ℕ
auth_error_response database_not_configured = 503
auth_error_response auth_rate_limited = 429
auth_error_response login_name_taken = 409
auth_error_response account_temporarily_locked = 423
auth_error_response invalid_credentials = 401
auth_error_response unauthenticated = 401
auth_error_response recovery_failed = 401
auth_error_response _ = 400
