-- ===== src/Auth/Guard/Granted.antt =====
-- Who is let into a workspace.
use sozan.Common.{
  ◌≡◌, ◌≢◌, refl, sym, String, Bool, true, false, ◌&&◌, Option, none, some, List, [], ◌∷◌, map, inl,
  inr, Bool-cases, Option-cases, All, find_first, filter_map, str_eq, arith, eq_iff,
}
use mathlib.Core.List.{Memᴰ}
use sozan.Common.Results.{ok, Result-cases}
use sozan.Common.Order.{All-sort}
use sozan.Auth.Security.{Host, is_blank}
use sozan.Auth.Accounts.{
  AuthDb, Role, viewer, UserRow, MemberRow, WorkspaceRow, CloudWorkspace, AuthenticatedAccount,
}
use sozan.Auth.Accounts.Sessions.{
  joined_workspace, by_creation, workspaces_of, account_row, account_for,
}
use sozan.Auth.Service.{AuthSession, authenticate}
use sozan.Common.Members.{found-stored}
use sozan.Auth.Service.Authenticated.{authenticate-found}
use sozan.Auth.Guard.{WorkspaceAccess, is_viewer, find_workspace, require_workspace_access}

filter_map-All {κ} :
    {A B : Type 0} (Q : B → Type κ) (f : A → Option B) (xs : List A)
    → ((x : A) (y : B) → Memᴰ x xs → f x ≡ some y → Q y)
    → All Q (filter_map f xs)
unfolding filter_map
filter_map-All Q f [] k = tt
filter_map-All Q f (x ∷ xs) k = elim (Option-cases (f x)) [
  | inl e ↦ rw e (filter_map-All Q f xs (λ x' y m. k x' y (Memᴰ.tail m)))
  | inr (y, e) ↦
      rw e (k x y (Memᴰ.head refl) e, filter_map-All Q f xs (λ x' y m. k x' y (Memᴰ.tail m)))
]

find_first-All {κ} :
    {A : Type 0} (Q : A → Type κ) (p : A → Bool) (xs : List A) (y : A)
    → All Q xs
    → find_first p xs ≡ some y
    → Q y × (p y ≡ true)
unfolding find_first
find_first-All Q p [] y h e = cc
find_first-All Q p (x ∷ xs) y h e = elim (Bool-cases (p x)) [
  | inl f ↦ let same : x ≡ y = cc (rw f at e) in rw (← same) (h.0, f)
  | inr f ↦ find_first-All Q p xs y h.1 (rw f at e)
]

-- An active membership of the user, with the role.
pub record IsMember (d : AuthDb) (user_id workspace_id : String) (role : Role) (m : MemberRow)
    : Type 0 where
  pub stored : Memᴰ m d.members
  pub of_user : m.user_id ≡ user_id
  pub in_workspace : m.workspace_id ≡ workspace_id
  pub with_role : m.role ≡ role
  pub current : m.active ≡ true

abbrev Joined : AuthDb → String → CloudWorkspace → Type 0
Joined d user w = (m : MemberRow) × IsMember d user w.fields.id w.role m

joined_workspace-Joined :
    (user : String) (d : AuthDb) (m : MemberRow) (y : WorkspaceRow × CloudWorkspace)
    → Memᴰ m d.members
    → joined_workspace user d.workspaces m ≡ some y
    → Joined d user y.1
joined_workspace-Joined user d m y stored h =
    elim (Bool-cases (str_eq m.user_id user && m.active)) [
      | inr e ↦ cc (rw e at h)
      | inl e ↦
          elim (Option-cases
            (find_first (λ w. str_eq w.fields.id m.workspace_id && w.active) d.workspaces)) [
              | inl missing ↦ cc (rw (e, missing) at h)
              | inr (w, found) ↦
                  let (_, right) =
                    found-stored (λ w. str_eq w.fields.id m.workspace_id && w.active) w d.workspaces
                      found in
                  let same = rw (e, found) at h in
                  (
                    m,
                    record {
                      stored = stored;
                      of_user = ground (arith, eq_iff m.user_id user);
                      in_workspace = ground (arith, eq_iff w.fields.id m.workspace_id, same);
                      with_role = ground (arith, same);
                      current = ground arith;
                    },
                  )
            ]
    ]

workspaces_of-Joined :
    (host : Host) (user : String) (d : AuthDb) → All (Joined d user) (workspaces_of host user d)
workspaces_of-Joined host user d = All-pairs _ (
    All-sort (by_creation host) (λ y. Joined d user y.1) _
      (filter_map-All (λ y. Joined d user y.1) (joined_workspace user d.workspaces) d.members
        (λ m y stored e. joined_workspace-Joined user d m y stored e)))
  where
    All-pairs :
        (rows : List (WorkspaceRow × CloudWorkspace))
        → All (λ y. Joined d user y.1) rows
        → All (Joined d user) (map (λ y. y.1) rows)
    All-pairs [] h = tt
    All-pairs (y ∷ rest) h = (h.0, All-pairs rest h.1)

account_row-workspaces :
    (host : Host) (u : UserRow) (d : AuthDb) (account : AuthenticatedAccount)
    → account_row host d (some u) ≡ some account
    → (account.user.id ≡ u.id) × (account.workspaces ≡ workspaces_of host u.id d)
account_row-workspaces host u d account h = elim (Option-cases u.login_name) [
  | inl none_given ↦ cc (rw none_given at h)
  | inr (name, given) ↦ elim (Bool-cases (is_blank name)) [
    | inl e ↦ cc (rw (given, e) at h)
    | inr e ↦ let h' = rw (given, e) at h in (ground arith, ground (arith, h'))
  ]
]

-- The workspaces of an account are those of the active memberships of its user.
account_for-workspaces :
    (host : Host) (user : String) (d : AuthDb) (account : AuthenticatedAccount)
    → account_for host user d ≡ some account
    → All (Joined d account.user.id) account.workspaces
unfolding account_for
account_for-workspaces host user d account h =
    elim (Option-cases (find_first (λ u. str_eq u.id user && u.active) d.users)) [
      | inl missing ↦ cc (rw missing at h)
      | inr (u, found) ↦
          let (id, listed) = account_row-workspaces host u d account (rw found at h) in
          rw (id, listed) (workspaces_of-Joined host u.id d)
    ]

writable :
    (role : Role) (write : Bool) → write && is_viewer role ≡ false → write ≡ true → role ≢ viewer
writable role write allowed writes viewed = cc (rw (writes, viewed) at allowed)

module _ (host : Host) (configured : Bool) (workspace_id : String) (write : Bool) (d : AuthDb)
    (access : WorkspaceAccess) where
  entered :
      (token : String) (auth : AuthSession) (w : CloudWorkspace)
      → (authenticate host token d).0 ≡ ok auth
      → find_workspace workspace_id auth.account ≡ some w
      → (m : MemberRow) × IsMember d auth.account.user.id workspace_id w.role m
  entered token auth w valid found =
      let (s, _, _, _, loaded) = authenticate-found host token d auth valid in
      let joined = account_for-workspaces host s.user_id d auth.account loaded in
      let ((m, is_member), right) =
        find_first-All (Joined d auth.account.user.id) (λ w. str_eq w.fields.id workspace_id)
          auth.account.workspaces w joined found in
      let same : w.fields.id ≡ workspace_id = ground (arith, eq_iff w.fields.id workspace_id) in
      (m, rw same at is_member)

  -- Access to a workspace is given only where the cookie holds a token that authenticates a user with an
  -- active membership of this workspace, with the role of that membership; to write it is given only
  -- where that role is not the viewer's.
  pub require_workspace_access-granted :
      (cookie : Option String)
      → (require_workspace_access host configured cookie workspace_id write d).0 ≡ ok access
      → (token : String) × (auth : AuthSession) × (m : MemberRow) × (cookie ≡ some token)
        × ((authenticate host token d).0 ≡ ok auth)
        × (access.user_id ≡ auth.account.user.id)
        × (access.workspace_id ≡ workspace_id)
        × IsMember d access.user_id workspace_id access.role m
        × (write ≡ true → access.role ≢ viewer)
  unfolding require_workspace_access
  require_workspace_access-granted none h = cc
  require_workspace_access-granted (some token) h = elim (Bool-cases (is_blank token)) [
    | inl empty ↦ cc (rw empty at h)
    | inr given ↦ elim (Bool-cases configured) [
      | inr missing ↦ cc (rw (given, missing) at h)
      | inl bound ↦ elim (Result-cases (authenticate host token d).0) [
        | inr (thrown, refused) ↦ cc (rw (given, bound, refused) at h)
        | inl (auth, valid) ↦ elim (Option-cases (find_workspace workspace_id auth.account)) [
          | inl forbidden ↦ cc (rw (given, bound, valid, forbidden) at h)
          | inr (w, found) ↦ elim (Bool-cases (write && is_viewer w.role)) [
            | inl read_only ↦ cc (rw (given, bound, valid, found, read_only) at h)
            | inr allowed ↦
                let h' = rw (given, bound, valid, found, allowed) at h in
                let (m, is_member) = entered token auth w valid found in
                let user : auth.account.user.id ≡ access.user_id = ground (arith, h') in
                let role : w.role ≡ access.role = ground (arith, h') in
                (
                  token,
                  auth,
                  m,
                  refl,
                  valid,
                  sym user,
                  ground (arith, h'),
                  rw (user, role) at is_member,
                  rw role at (writable w.role write allowed),
                )
          ]
        ]
      ]
    ]
  ]
