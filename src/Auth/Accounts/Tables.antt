-- ===== src/Auth/Accounts/Tables.antt =====
-- The records of src/platform/auth/contracts.ts and the rows of the tables that
-- src/server/adapters/d1/auth.repository.ts reads and writes, with the columns that it names. A time
-- is a number of milliseconds, or of seconds where the column is CURRENT_TIMESTAMP.
use sozan.Common.{ℕ, String, Bool, Option, List}

pub data Role : Type 0 where
  owner admin member viewer : Role

pub record CloudUser : Type 0 where
  pub id : String
  pub login_name : String
  pub display_name : String
  pub locale : String
  pub timezone : String

-- `Omit<CloudWorkspace, 'role'>`
pub record WorkspaceFields : Type 0 where
  pub id : String
  pub name : String
  pub template_key : String
  pub locale : String
  pub timezone : String
  pub currency_code : String
  pub currency_label : String

pub record CloudWorkspace : Type 0 where
  pub fields : WorkspaceFields
  pub role : Role

pub record AuthenticatedAccount : Type 0 where
  pub user : CloudUser
  pub workspaces : List CloudWorkspace

pub record CredentialRecord : Type 0 where
  pub user : CloudUser
  pub password_hash : String
  pub password_salt : String
  pub password_iterations : ℕ
  pub recovery_code_hash : Option String
  pub failed_attempts : ℕ
  pub locked_until : Option ℕ

pub record SessionRecord : Type 0 where
  pub id : String
  pub user_id : String
  pub expires_at : ℕ

pub record ModuleInput : Type 0 where
  pub module_key : String
  pub position : ℕ

pub record LabelInput : Type 0 where
  pub key : String
  pub value : String

pub record AccountInput : Type 0 where
  pub user : CloudUser
  pub workspace : WorkspaceFields
  pub password_hash : String
  pub password_salt : String
  pub password_iterations : ℕ
  pub recovery_code_hash : String
  pub modules : List ModuleInput
  pub labels : List LabelInput

-- A row of core_users.
pub record UserRow : Type 0 where
  pub id : String
  pub login_name : Option String
  pub display_name : String
  pub locale : String
  pub timezone : String
  pub active : Bool

-- A row of core_auth_credentials.
pub record CredentialRow : Type 0 where
  pub user_id : String
  pub password_hash : String
  pub password_salt : Option String
  pub password_iterations : ℕ
  pub recovery_code_hash : Option String
  pub failed_attempts : ℕ
  pub locked_until : Option ℕ

-- A row of core_auth_sessions.
pub record SessionRow : Type 0 where
  pub id : String
  pub user_id : String
  pub token_hash : String
  pub expires_at : ℕ
  pub last_seen_at : ℕ
  pub revoked_at : Option ℕ
  pub user_agent_hint : Option String

-- A row of core_workspaces.
pub record WorkspaceRow : Type 0 where
  pub fields : WorkspaceFields
  pub owner_user_id : String
  pub active : Bool
  pub created_at : ℕ

-- A row of core_workspace_members.
pub record MemberRow : Type 0 where
  pub workspace_id : String
  pub user_id : String
  pub role : Role
  pub active : Bool

-- A row of core_workspace_modules.
pub record ModuleRow : Type 0 where
  pub workspace_id : String
  pub module_key : String
  pub position : ℕ

-- A row of core_workspace_labels.
pub record LabelRow : Type 0 where
  pub workspace_id : String
  pub label_key : String
  pub value : String

-- The tables, the time, and how many random values have been drawn.
pub record AuthDb : Type 0 where
  pub users : List UserRow
  pub credentials : List CredentialRow
  pub sessions : List SessionRow
  pub workspaces : List WorkspaceRow
  pub members : List MemberRow
  pub modules : List ModuleRow
  pub labels : List LabelRow
  pub now : ℕ
  pub draws : ℕ
