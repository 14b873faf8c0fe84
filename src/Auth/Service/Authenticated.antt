-- ===== src/Auth/Service/Authenticated.antt =====
-- Which session a token authenticates.
use text.Mathlib.TextPositions.{eq_refl}
use mathlib.Core.Path.{ap₂}
use sozan.Common.Members.{found-stored, All-Mem}
use sozan.Common.{
  ℕ, ◌≡◌, refl, sym, ap, ◌<◌, String, true, false, Option, none, some, List, [], ◌∷◌, inl, inr, ◌↔◌,
  Bool-cases, Option-cases, find_first, is_some, leb, arith, eq_iff, str_eq, str_eq-flip, ◌&&◌, All,
}
use mathlib.Core.List.{Memᴰ}
use sozan.Common.Results.{ok}
use sozan.Auth.Security.{Host, hash_session_token, is_blank}
use sozan.Auth.Accounts.{AuthDb, SessionRow, UserRow, CloudWorkspace, AuthenticatedAccount}
use sozan.Auth.Accounts.Sessions.{
  is_session_live, live_session, account_for, account_of, workspaces_of,
}
use sozan.Auth.Service.{AuthSession, authenticate}
use sozan.Auth.Service.Unique.{HashesUnique, unused-not-found, only-IsUnused}

module _ (host : Host) (token : String) (d : AuthDb) (auth : AuthSession) where
  pub authenticate-found :
      (authenticate host token d).0 ≡ ok auth
      → (s : SessionRow) × (live_session (hash_session_token host token) d ≡ some s)
        × (d.now < s.expires_at)
        × (auth.session_id ≡ s.id)
        × (account_for host s.user_id d ≡ some auth.account)
  unfolding authenticate
  authenticate-found h = elim (Option-cases (live_session (hash_session_token host token) d)) [
    | inl missing ↦ cc (rw missing at h)
    | inr (s, found) ↦ elim (Bool-cases (leb s.expires_at d.now)) [
      | inl expired ↦ cc (rw (found, expired) at h)
      | inr fresh ↦ elim (Option-cases (account_for host s.user_id d)) [
        | inl gone ↦ cc (rw (found, fresh, gone) at h)
        | inr (account, loaded) ↦
            let e : _ = rw (found, fresh, loaded) at h in
            (s, found, ground arith, ground arith, ground (arith, loaded))
      ]
    ]
  ]

not_revoked : (time : Option ℕ) → is_some time ≡ false → time ≡ none
not_revoked none h = refl
not_revoked (some t) h = cc

-- What the tables must say of a session that authenticates a token, and of the user it belongs to.
pub record Grants (host : Host) (token : String) (d : AuthDb) (auth : AuthSession) (s : SessionRow)
    (u : UserRow) : Type 0 where
  pub stored : Memᴰ s d.sessions
  pub hashed : s.token_hash ≡ hash_session_token host token
  pub unrevoked : s.revoked_at ≡ none
  pub unexpired : d.now < s.expires_at
  pub identified : auth.session_id ≡ s.id
  pub known : Memᴰ u d.users
  pub owner : u.id ≡ s.user_id
  pub active : u.active ≡ true
  pub named : u.login_name ≡ some auth.account.user.login_name
  pub nonblank : is_blank auth.account.user.login_name ≡ false
  pub returned : auth.account.user ≡ record {
    id = u.id;
    login_name = auth.account.user.login_name;
    display_name = u.display_name;
    locale = u.locale;
    timezone = u.timezone;
  }
  pub joined : auth.account.workspaces ≡ workspaces_of host u.id d

-- No two users have one identifier, the primary key of app_users.
abbrev pub IdsUnique : List UserRow → Type 0
IdsUnique [] = Unit
IdsUnique (u ∷ us) = All (λ v. str_eq v.id u.id ≡ false) us × IdsUnique us

user_found :
    (id : String) (u : UserRow) (users : List UserRow)
    → IdsUnique users
    → Memᴰ u users
    → u.id ≡ id
    → u.active ≡ true
    → find_first (λ v. str_eq v.id id && v.active) users ≡ some u
unfolding find_first
user_found id u [] q m same live = elim m [ ]
user_found id u (v ∷ rest) q (Memᴰ.head e) same live = rw (← e, same, live, eq_refl id)
user_found id u (v ∷ rest) q (Memᴰ.tail m) same live =
    let other : str_eq u.id v.id ≡ false = All-Mem _ u rest q.0 m in
    let mine : str_eq v.id id ≡ false = rw (← same) (str_eq-flip u.id v.id other) in
    rw (mine, user_found id u rest q.1 m same live)

-- The user whose account is loaded.
account_for-user :
    (host : Host) (id : String) (d : AuthDb) (account : AuthenticatedAccount)
    → account_for host id d ≡ some account
    → (u : UserRow) × Memᴰ u d.users
      × (u.id ≡ id)
      × (u.active ≡ true)
      × (account_of u u.login_name (workspaces_of host u.id d) ≡ some account)
unfolding account_for
account_for-user host id d account h =
    elim (Option-cases (find_first (λ v. str_eq v.id id && v.active) d.users)) [
      | inl missing ↦ cc (rw missing at h)
      | inr (u, found) ↦
          let (stored, test) = found-stored _ u d.users found in
          (u, stored, ground (arith, eq_iff u.id id), ground arith, rw found at h)
    ]

-- A session with the hash that is live is the one found, since the hashes are unique.
stored-found :
    (hash : String) (now : ℕ) (s : SessionRow) (sessions : List SessionRow)
    → HashesUnique sessions
    → Memᴰ s sessions
    → is_session_live hash now s ≡ true
    → find_first (is_session_live hash now) sessions ≡ some s
unfolding find_first
stored-found hash now s [] u m live = elim m [ ]
stored-found hash now s (t ∷ rest) u (Memᴰ.head e) live = rw (← e) (rw live)
stored-found hash now s (t ∷ rest) u (Memᴰ.tail m) live =
    elim (Bool-cases (is_session_live hash now t)) [
      | inr dead ↦ rw dead (stored-found hash now s rest u.1 m live)
      | inl both ↦
          let mine = stored-found hash now s rest u.1 m live in
          let none_found =
            unused-not-found hash now rest (only-IsUnused hash t rest u (ground arith)) in
          cc
    ]

some-injective {ℓ} : {A : Type ℓ} {a b : A} → some a ≡ some b → a ≡ b
some-injective h = cc

-- The account that a user row makes, when it has a login name.
account_of-fields :
    (u : UserRow) (login : Option String) (ws : List CloudWorkspace)
    (account : AuthenticatedAccount)
    → account_of u login ws ≡ some account
    → (login ≡ some account.user.login_name)
      × (is_blank account.user.login_name ≡ false)
      × (account.user ≡ record {
        id = u.id;
        login_name = account.user.login_name;
        display_name = u.display_name;
        locale = u.locale;
        timezone = u.timezone;
      })
      × (account.workspaces ≡ ws)
account_of-fields u none ws account h = cc
account_of-fields u (some name) ws account h = elim (Bool-cases (is_blank name)) [
  | inl blank ↦ cc (rw blank at h)
  | inr full ↦ let same = some-injective (rw full at h) in rw (← same) (refl, full, refl, refl)
]

module _ (host : Host) (token : String) (d : AuthDb) (auth : AuthSession) where
  granted_found :
      (s : SessionRow) (u : UserRow)
      → HashesUnique d.sessions
      → Grants host token d auth s u
      → live_session (hash_session_token host token) d ≡ some s
  granted_found s u q g =
      stored-found _ d.now s d.sessions q g.stored
        (ground (arith, g, eq_iff s.token_hash (hash_session_token host token)))

  granted_loaded :
      (s : SessionRow) (u : UserRow)
      → IdsUnique d.users
      → Grants host token d auth s u
      → account_for host s.user_id d ≡ some auth.account
  unfolding account_for
  granted_loaded s u q g =
      rw (user_found s.user_id u d.users q g.known g.owner g.active, g.named, g.nonblank)
        (ap some (sym (ap₂ (λ x y. record { user = x; workspaces = y }) g.returned g.joined)))

  -- Where no two sessions have one hash and no two users one identifier, a token authenticates exactly
  -- as the session that has its hash in the tables, where that session is not revoked, has not expired,
  -- and its user is active and has a login name that is not blank. The account returned is that user's
  -- row with the workspaces joined to it.
  pub authenticate_iff :
      HashesUnique d.sessions
      → IdsUnique d.users
      → ((authenticate host token d).0 ≡ ok auth)
        ↔ ((s : SessionRow) × (u : UserRow) × Grants host token d auth s u)
  unfolding authenticate
  authenticate_iff unique ids = (
    λ h.
        let (s, found, fresh, same_id, account) = authenticate-found host token d auth h in
        let (stored, live) = found-stored _ s d.sessions found in
        let (u, known, owner, active, made) = account_for-user host s.user_id d _ account in
        let (named, nonblank, returned, joined) = account_of-fields u u.login_name _ _ made in
        (
          s,
          u,
          record {
            stored = stored;
            hashed = ground (arith, eq_iff s.token_hash (hash_session_token host token));
            unrevoked = not_revoked s.revoked_at (ground arith);
            unexpired = fresh;
            identified = same_id;
            known = known;
            owner = owner;
            active = active;
            named = named;
            nonblank = nonblank;
            returned = returned;
            joined = joined;
          },
        ),
    λ (s, u, g).
        let fresh : leb s.expires_at d.now ≡ false = ground (arith, g.unexpired) in
        let same : record { session_id = s.id; account = auth.account } ≡ auth =
          ground (arith, g.identified) in
        rw (granted_found s u unique g, fresh, granted_loaded s u ids g) (ap ok same),
  )
