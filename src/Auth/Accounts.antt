-- ===== src/Auth/Accounts.antt =====
-- src/server/adapters/d1/auth.repository.ts: the accounts, their credentials and their sessions in the
-- cloud database, each statement read from its SQL. Of the schema, the primary keys and the unique
-- login names and token hashes are modelled; foreign keys are not.
mod Tables
pub mod Sessions
unfoldable pub use Tables.*
use sozan.Common.{
  ℕ, ◌+◌, ◌/◌, String, Bool, true, false, ◌&&◌, ◌||◌, not, Option, none, some, is_some, List, [],
  ◌∷◌, ◌++◌, map, find_first, first_some, filter_map, some_of, str_eq, leb, if◌then◌else◌,
}
use sozan.Common.Results.{Result, ok, err, ◌>>=◌, unique_constraint_failed}
use sozan.Common.Order.{sort, then_by, compare_numbers}
use sozan.Common.Exec.{Exec, gets, modify}
use sozan.Auth.Security.{Host, is_blank}

abbrev seconds : ℕ → ℕ
seconds ms = ms / 1000

-- `row.password_salt` is neither null nor the empty text.
abbrev pub credential_of :
    UserRow → String → CredentialRow → Option String → Option CredentialRecord
credential_of u login_name c none = none
credential_of u login_name c (some salt) =
    if is_blank salt
    then none
    else some (record {
      user = record {
        id = u.id;
        login_name = login_name;
        display_name = u.display_name;
        locale = u.locale;
        timezone = u.timezone;
      };
      password_hash = c.password_hash;
      password_salt = salt;
      password_iterations = c.password_iterations;
      recovery_code_hash = c.recovery_code_hash;
      failed_attempts = c.failed_attempts;
      locked_until = c.locked_until;
    })

abbrev pub has_login : Host → String → Option String → Bool
has_login host login_name none = false
has_login host login_name (some name) = host.nocase name login_name

abbrev pub or_text : Option String → String
or_text none = ""
or_text (some text) = text

abbrev pub with_row : UserRow → Option CredentialRow → Option (UserRow × CredentialRow)
with_row u none = none
with_row u (some c) = some (u, c)

-- The row of the join for a user.
abbrev pub joined_row :
    Host → String → List CredentialRow → UserRow → Option (UserRow × CredentialRow)
joined_row host login_name rows u =
    if has_login host login_name u.login_name && u.active
    then with_row u (find_first (λ c. str_eq c.user_id u.id) rows)
    else none

-- The first row of the join.
abbrev pub joined : Host → String → AuthDb → Option (UserRow × CredentialRow)
joined host login_name db = first_some (joined_row host login_name db.credentials) db.users

abbrev pub credential_row : Option (UserRow × CredentialRow) → Option CredentialRecord
credential_row none = none
credential_row (some (u, c)) = credential_of u (or_text u.login_name) c c.password_salt

unfoldable pub credential_for : Host → String → AuthDb → Option CredentialRecord
credential_for host login_name db = credential_row (joined host login_name db)

abbrev pub find_credential : Host → String → Exec AuthDb (Option CredentialRecord)
find_credential host login_name = gets (credential_for host login_name)

abbrev pub login_name_free : Host → String → AuthDb → Bool
login_name_free host login_name db =
    not (some_of (λ u. has_login host login_name u.login_name) db.users)

abbrev pub is_login_name_available : Host → String → Exec AuthDb Bool
is_login_name_available host login_name = gets (login_name_free host login_name)

-- `INSERT` of a row into a table where `clashes` are the rows with a key of it.
abbrev pub insert {ℓ} : {A : Type ℓ} → (A → Bool) → A → List A → Result (List A)
insert clashes row rows =
    if some_of clashes rows then err unique_constraint_failed else ok (rows ++ row ∷ [])

unfoldable pub insert_modules : String → List ModuleInput → List ModuleRow → Result (List ModuleRow)
insert_modules workspace_id [] rows = ok rows
insert_modules workspace_id (m ∷ ms) rows = do
  rows' ←
      insert (λ r. str_eq r.workspace_id workspace_id && str_eq r.module_key m.module_key)
        (record { workspace_id = workspace_id; module_key = m.module_key; position = m.position })
        rows
  insert_modules workspace_id ms rows'

unfoldable pub insert_labels : String → List LabelInput → List LabelRow → Result (List LabelRow)
insert_labels workspace_id [] rows = ok rows
insert_labels workspace_id (l ∷ ls) rows = do
  rows' ←
      insert (λ r. str_eq r.workspace_id workspace_id && str_eq r.label_key l.key)
        (record { workspace_id = workspace_id; label_key = l.key; value = l.value }) rows
  insert_labels workspace_id ls rows'

-- The batch is one transaction: where a statement fails, nothing is inserted.
unfoldable pub insert_account : Host → AccountInput → AuthDb → Result AuthDb
unfolding insert_modules insert_labels
insert_account host input db = do
  users ←
      insert (λ u. str_eq u.id input.user.id || has_login host input.user.login_name u.login_name)
        (record {
          id = input.user.id;
          login_name = some input.user.login_name;
          display_name = input.user.display_name;
          locale = input.user.locale;
          timezone = input.user.timezone;
          active = true;
        })
        db.users
  credentials ←
      insert (λ c. str_eq c.user_id input.user.id)
        (record {
          user_id = input.user.id;
          password_hash = input.password_hash;
          password_salt = some input.password_salt;
          password_iterations = input.password_iterations;
          recovery_code_hash = some input.recovery_code_hash;
          failed_attempts = 0;
          locked_until = none;
        })
        db.credentials
  workspaces ←
      insert (λ w. str_eq w.fields.id input.workspace.id)
        (record {
          fields = input.workspace;
          owner_user_id = input.user.id;
          active = true;
          created_at = seconds db.now;
        })
        db.workspaces
  members ←
      insert (λ m. str_eq m.workspace_id input.workspace.id && str_eq m.user_id input.user.id)
        (record {
          workspace_id = input.workspace.id;
          user_id = input.user.id;
          role = owner;
          active = true;
        })
        db.members
  modules ← insert_modules input.workspace.id input.modules db.modules
  labels ← insert_labels input.workspace.id input.labels db.labels
  ok (record db {
    users = users;
    credentials = credentials;
    workspaces = workspaces;
    members = members;
    modules = modules;
    labels = labels;
  })

-- A statement that fails leaves the tables as they were.
abbrev pub or_unchanged : AuthDb → Result AuthDb → Result (Unit {0}) × AuthDb
or_unchanged db (ok db') = (ok tt, db')
or_unchanged db (err e) = (err e, db)

abbrev pub create_account : Host → AccountInput → Exec AuthDb (Unit {0})
create_account host input db = or_unchanged db (insert_account host input db)

abbrev pub update_credentials : String → (CredentialRow → CredentialRow) → AuthDb → AuthDb
update_credentials user_id f db = record db {
  credentials = map (λ c. if str_eq c.user_id user_id then f c else c) db.credentials;
}

abbrev pub record_failed_login : String → Option ℕ → Exec AuthDb (Unit {0})
record_failed_login user_id locked_until = modify (
    update_credentials user_id
      (λ c. record c { failed_attempts = c.failed_attempts + 1; locked_until = locked_until }))

abbrev pub clear_failed_logins : String → Exec AuthDb (Unit {0})
clear_failed_logins user_id =
    modify (update_credentials user_id (λ c. record c { failed_attempts = 0; locked_until = none }))
