-- ===== src/Auth/Service/Unique.antt =====
-- No two sessions have the hash of one token, and what that says of the session that is found.
use sozan.Common.{
  ℕ, ◌≡◌, refl, String, Bool, true, false, ◌||◌, none, some, List, [], ◌∷◌, ◌++◌, map, inl, inr,
  Bool-cases, All, All-mp, find_first, some_of, str_eq, str_eq-flip, if◌then◌else◌, arith, eq_iff,
}
use sozan.Common.Results.{Result, ok, err, ◌>>=◌}
use sozan.Auth.Security.{Host}
use sozan.Auth.Accounts.{
  AuthDb, SessionRow, AccountInput, insert, insert_modules, insert_labels, insert_account,
}
use sozan.Auth.Accounts.Sessions.{is_session_live, insert_session, update_sessions, revoked}
use sozan.Auth.Service.Requests.{Request, Statements, serve_all, serve_all-Keeps}

abbrev pub has_hash : String → SessionRow → Bool
has_hash hash s = str_eq s.token_hash hash

abbrev pub IsUnused : String → List SessionRow → Type 0
IsUnused hash sessions = All (λ s. has_hash hash s ≡ false) sessions

abbrev pub HashesUnique : List SessionRow → Type 0
HashesUnique [] = Unit {0}
HashesUnique (s ∷ rest) = IsUnused s.token_hash rest × HashesUnique rest

abbrev takes_key : SessionRow → SessionRow → Bool
takes_key row s = str_eq s.id row.id || str_eq s.token_hash row.token_hash

pub no_clash-IsUnused :
    (row : SessionRow) (sessions : List SessionRow)
    → some_of (takes_key row) sessions ≡ false
    → IsUnused row.token_hash sessions
unfolding some_of
no_clash-IsUnused row [] h = tt
no_clash-IsUnused row (s ∷ rest) h =
    (ground (arith, h), no_clash-IsUnused row rest (ground (arith, h)))

pub All-snoc {κ} :
    {A : Type 0} (P : A → Type κ) (x : A) (xs : List A) → All P xs → P x → All P (xs ++ x ∷ [])
All-snoc P x [] h p = (p, tt)
All-snoc P x (y ∷ ys) h p = (h.0, All-snoc P x ys h.1 p)

HashesUnique-snoc :
    (row : SessionRow) (sessions : List SessionRow)
    → IsUnused row.token_hash sessions
    → HashesUnique sessions
    → HashesUnique (sessions ++ row ∷ [])
HashesUnique-snoc row [] fresh u = (tt, tt)
HashesUnique-snoc row (s ∷ rest) fresh u = (
  All-snoc _ row rest u.0 (str_eq-flip s.token_hash row.token_hash fresh.0),
  HashesUnique-snoc row rest fresh.1 u.1,
)

-- A change of rows that leaves their hashes.
module _ (f : SessionRow → SessionRow)
    (same : (s : SessionRow) → (f s).token_hash ≡ s.token_hash) where
  IsUnused-map :
      (hash : String) (sessions : List SessionRow)
      → IsUnused hash sessions
      → IsUnused hash (map f sessions)
  IsUnused-map hash [] h = tt
  IsUnused-map hash (s ∷ rest) h = (rw (same s) h.0, IsUnused-map hash rest h.1)

  HashesUnique-map :
      (sessions : List SessionRow) → HashesUnique sessions → HashesUnique (map f sessions)
  HashesUnique-map [] u = tt
  HashesUnique-map (s ∷ rest) u =
      (rw (same s) (IsUnused-map s.token_hash rest u.0), HashesUnique-map rest u.1)

-- What an insertion of a session that is accepted did.
pub insert_session-ok :
    (row : SessionRow) (d d' : AuthDb)
    → insert_session row d ≡ ok d'
    → IsUnused row.token_hash d.sessions × (d' ≡ record d { sessions = d.sessions ++ row ∷ [] })
insert_session-ok row d d' e = elim (Bool-cases (some_of (takes_key row) d.sessions)) [
  | inl taken ↦ cc (rw taken at e)
  | inr free ↦ (no_clash-IsUnused row d.sessions free, cc (rw free at e))
]

-- What holds of the result of a chain where its last part gives it.
abbrev WhereOk {κ} : {A : Type 0} → (A → Type κ) → Result A → Type κ
WhereOk P (ok a) = P a
WhereOk P (err thrown) = Unit

WhereOk-bind {κ} :
    {A B : Type 0} (P : B → Type κ) (r : Result A) (f : A → Result B)
    → ((a : A) → WhereOk P (f a))
    → WhereOk P (r >>= f)
WhereOk-bind P (ok a) f k = k a
WhereOk-bind P (err thrown) f k = tt

inserted_account :
    (host : Host) (input : AccountInput) (d : AuthDb)
    → WhereOk (λ d'. d'.sessions ≡ d.sessions) (insert_account host input d)
unfolding insert_account
inserted_account host input d =
    let P = λ (d' : AuthDb). d'.sessions ≡ d.sessions in
    WhereOk-bind P (insert _ _ d.users) _ (λ users.
      WhereOk-bind P (insert _ _ d.credentials) _ (λ credentials.
        WhereOk-bind P (insert _ _ d.workspaces) _ (λ workspaces.
          WhereOk-bind P (insert _ _ d.members) _ (λ members.
            WhereOk-bind P (insert_modules _ input.modules d.modules) _ (λ modules.
              WhereOk-bind P (insert_labels _ input.labels d.labels) _ (λ labels. refl))))))

-- An account that is inserted changes no session.
pub insert_account-sessions :
    (host : Host) (input : AccountInput) (d d' : AuthDb)
    → insert_account host input d ≡ ok d'
    → d'.sessions ≡ d.sessions
insert_account-sessions host input d d' e = rw e at (inserted_account host input d)

kept_hash :
    (test : SessionRow → Bool) (f : SessionRow → SessionRow) (s : SessionRow)
    → ((s : SessionRow) → (f s).token_hash ≡ s.token_hash)
    → (if test s then f s else s).token_hash ≡ s.token_hash
kept_hash test f s same = elim (Bool-cases (test s)) [ inl e ↦ rw e (same s) | inr e ↦ rw e ]

update-HashesUnique :
    (test : SessionRow → Bool) (f : SessionRow → SessionRow) (d : AuthDb)
    → ((s : SessionRow) → (f s).token_hash ≡ s.token_hash)
    → HashesUnique d.sessions
    → HashesUnique (update_sessions test f d).sessions
update-HashesUnique test f d same h =
    HashesUnique-map (λ s. if test s then f s else s) (λ s. kept_hash test f s same) d.sessions h

-- What depends on the sessions alone.
pub Unique-statements : (host : Host) → Statements host (λ d. HashesUnique d.sessions)
Unique-statements host = record {
  clock = λ now d h. h;
  drawn = λ d h. h;
  account = λ input d d' e h. rw (insert_account-sessions host input d d' e) h;
  credentials = λ user_id f d h. h;
  session = λ row d d' e h.
      let (unused, same) = insert_session-ok row d d' e in
      rw same (HashesUnique-snoc row d.sessions unused h);
  seen = λ test time d h.
      update-HashesUnique test (λ s. record s { last_seen_at = time }) d (λ s. refl) h;
  revoke = λ test now d h. update-HashesUnique test (revoked now) d (λ s. refl) h;
}

-- Where no two sessions have one hash of a token, none have after any requests, whether these return
-- or throw.
serve_all-HashesUnique :
    (host : Host) (requests : List (ℕ × Request)) (d : AuthDb)
    → HashesUnique d.sessions
    → HashesUnique (serve_all host requests d).sessions
serve_all-HashesUnique host = serve_all-Keeps host _ (Unique-statements host)

-- The only session with a hash.
pub only-IsUnused :
    (hash : String) (s : SessionRow) (sessions : List SessionRow)
    → HashesUnique (s ∷ sessions)
    → has_hash hash s ≡ true
    → IsUnused hash sessions
only-IsUnused hash s sessions u h =
    let same : s.token_hash ≡ hash = ground (arith, eq_iff s.token_hash hash) in rw same at u.0

pub unused-not-found :
    (hash : String) (now : ℕ) (sessions : List SessionRow)
    → IsUnused hash sessions
    → find_first (is_session_live hash now) sessions ≡ none
unfolding find_first
unused-not-found hash now [] h = refl
unused-not-found hash now (s ∷ rest) h = rw h.0 (unused-not-found hash now rest h.1)

-- The session that is found is the only one with its hash, and it is not revoked.
pub found-only :
    (hash : String) (now : ℕ) (s : SessionRow) (sessions : List SessionRow)
    → HashesUnique sessions
    → find_first (is_session_live hash now) sessions ≡ some s
    → (is_session_live hash now s ≡ true)
      × (some_of (has_hash hash) sessions ≡ true)
      × All (λ t. has_hash hash t ≡ true → t ≡ s) sessions
unfolding find_first some_of
found-only hash now s [] u e = cc
found-only hash now s (t ∷ rest) u e = elim (Bool-cases (is_session_live hash now t)) [
  | inl live ↦
      let same : t ≡ s = cc (rw live at e) in
      let has : has_hash hash t ≡ true = ground arith in
      let others = only-IsUnused hash t rest u has in
      (rw (← same) live, rw has, (λ _. same, All-mp rest (λ x no_hash yes_hash. cc) others))
  | inr dead ↦
      let (live, some_has, all) = found-only hash now s rest u.1 (rw dead at e) in
      (
        live,
        rw some_has (ground arith),
        (
          λ has.
              let none_found = unused-not-found hash now rest (only-IsUnused hash t rest u has) in
              let found : find_first (is_session_live hash now) rest ≡ some s = rw dead at e in cc,
          all,
        ),
      )
]
