-- ===== src/Auth/Service/Ended.antt =====
-- A session that was ended never authenticates again.
use sozan.Common.{
  ℕ, ◌≡◌, refl, String, Bool, true, false, none, some, List, [], ◌∷◌, ◌++◌, map, inl, inr, ◌⊎◌,
  Bool-cases, All, find_first, some_of, str_eq, is_some, if◌then◌else◌, arith, eq_iff,
}
use text.Mathlib.TextPositions.{eq_refl}
use sozan.Common.Results.{ok, err, unauthenticated}
use sozan.Auth.Security.{Host, hash_session_token}
use sozan.Auth.Accounts.{AuthDb, SessionRow}
use sozan.Auth.Accounts.Sessions.{is_session_live, live_session, update_sessions, revoked}
use sozan.Auth.Service.{AuthSession, authenticate, logout}
use sozan.Auth.Service.Requests.{Request, Statements, serve_all, serve_all-Keeps}
use sozan.Auth.Service.Authenticated.{authenticate-found}
use sozan.Auth.Service.Unique.{
  has_hash, IsUnused, HashesUnique, insert_session-ok, insert_account-sessions, All-snoc,
  found-only,
}

abbrev pub IsOver : String → SessionRow → Type 0
IsOver hash s = has_hash hash s ≡ true → is_some s.revoked_at ≡ true

-- There is a session with the hash, and every one with it is revoked.
abbrev pub IsSpent : String → List SessionRow → Type 0
IsSpent hash sessions = (some_of (has_hash hash) sessions ≡ true) × All (IsOver hash) sessions

some_of-snoc :
    (p : SessionRow → Bool) (x : SessionRow) (xs : List SessionRow)
    → some_of p xs ≡ true
    → some_of p (xs ++ x ∷ []) ≡ true
unfolding some_of
some_of-snoc p x [] h = cc
some_of-snoc p x (y ∷ ys) h = elim (Bool-cases (p y)) [
  | inl e ↦ rw e
  | inr e ↦ rw e (some_of-snoc p x ys (rw e at h))
]

unused-none :
    (hash : String) (sessions : List SessionRow)
    → IsUnused hash sessions
    → some_of (has_hash hash) sessions ≡ false
unfolding some_of
unused-none hash [] h = refl
unused-none hash (s ∷ rest) h = rw h.0 (unused-none hash rest h.1)

-- A new session has another hash, since the hashes of the table are unique.
snoc-IsSpent :
    (hash : String) (row : SessionRow) (sessions : List SessionRow)
    → IsUnused row.token_hash sessions
    → IsSpent hash sessions
    → IsSpent hash (sessions ++ row ∷ [])
snoc-IsSpent hash row sessions unused spent = (
  some_of-snoc (has_hash hash) row sessions spent.0,
  All-snoc (IsOver hash) row sessions spent.1 (λ has.
      let same : row.token_hash ≡ hash = ground (arith, eq_iff row.token_hash hash) in
      let free : some_of (has_hash hash) sessions ≡ false =
        unused-none hash sessions (rw same at unused) in
      let taken : some_of (has_hash hash) sessions ≡ true = spent.0 in cc),
)

-- A change of sessions that keeps their hashes and does not take a revocation back.
module _ (hash : String) (test : SessionRow → Bool) (f : SessionRow → SessionRow)
    (same : (s : SessionRow) → (f s).token_hash ≡ s.token_hash)
    (over : (s : SessionRow) → is_some s.revoked_at ≡ true → is_some (f s).revoked_at ≡ true) where
  still_has :
      (sessions : List SessionRow)
      → some_of (has_hash hash) sessions ≡ true
      → some_of (has_hash hash) (map (λ s. if test s then f s else s) sessions) ≡ true
  unfolding some_of
  still_has [] h = cc
  still_has (s ∷ rest) h = elim (Bool-cases (test s)) [
    | inl e ↦ elim (Bool-cases (has_hash hash s)) [
      | inl has ↦ rw (e, same s, has)
      | inr other ↦ rw (e, same s, other) (still_has rest (rw other at h))
    ]
    | inr e ↦ elim (Bool-cases (has_hash hash s)) [
      | inl has ↦ rw (e, has)
      | inr other ↦ rw (e, other) (still_has rest (rw other at h))
    ]
  ]

  kept-IsOver :
      (sessions : List SessionRow)
      → All (IsOver hash) sessions
      → All (IsOver hash) (map (λ s. if test s then f s else s) sessions)
  kept-IsOver [] h = tt
  kept-IsOver (s ∷ rest) h = (
    elim (Bool-cases (test s)) [
      | inl e ↦ rw (e, same s) (λ has. over s (h.0 has))
      | inr e ↦ rw e h.0
    ],
    kept-IsOver rest h.1,
  )

  update-IsSpent :
      (d : AuthDb) → IsSpent hash d.sessions → IsSpent hash (update_sessions test f d).sessions
  update-IsSpent d spent = (still_has d.sessions spent.0, kept-IsOver d.sessions spent.1)

IsSpent-statements : (host : Host) (hash : String) → Statements host (λ d. IsSpent hash d.sessions)
IsSpent-statements host hash = record {
  clock = λ now d h. h;
  drawn = λ d h. h;
  account = λ input d d' e h. rw (insert_account-sessions host input d d' e) h;
  credentials = λ user_id f d h. h;
  session = λ row d d' e h.
      let (unused, same) = insert_session-ok row d d' e in
      rw same (snoc-IsSpent hash row d.sessions unused h);
  seen = λ test time d h.
      update-IsSpent hash test (λ s. record s { last_seen_at = time }) (λ s. refl) (λ s e. e) d h;
  revoke = λ test now d h. update-IsSpent hash test (revoked now) (λ s. refl) (λ s e. refl) d h;
}

spent-dead :
    (hash : String) (now : ℕ) (sessions : List SessionRow)
    → All (IsOver hash) sessions
    → find_first (is_session_live hash now) sessions ≡ none
unfolding find_first
spent-dead hash now [] h = refl
spent-dead hash now (s ∷ rest) h = elim (Bool-cases (has_hash hash s)) [
  | inl has ↦ rw (has, h.0 has) (spent-dead hash now rest h.1)
  | inr other ↦ rw other (spent-dead hash now rest h.1)
]

-- Whatever requests follow, the token of a session that is over does not authenticate.
pub spent-refused :
    (host : Host) (token : String) (requests : List (ℕ × Request)) (d : AuthDb)
    → IsSpent (hash_session_token host token) d.sessions
    → (authenticate host token (serve_all host requests d)).0 ≡ err unauthenticated
unfolding authenticate
spent-refused host token requests d spent =
    let hash = hash_session_token host token in
    let later = serve_all-Keeps host _ (IsSpent-statements host hash) requests d spent in
    let d' = serve_all host requests d in rw (spent-dead hash d'.now d'.sessions later.1)

one-IsOver :
    (hash : String) (s : SessionRow) (test : SessionRow → Bool) (now : ℕ) (t : SessionRow)
    → (test s ≡ true) ⊎ (is_some s.revoked_at ≡ true)
    → (has_hash hash t ≡ true → t ≡ s)
    → IsOver hash (if test t then revoked now t else t)
one-IsOver hash s test now t over only = elim (Bool-cases (test t)) [
  | inl e ↦ rw e (λ has. refl)
  | inr e ↦ rw e (λ has. elim over [ inl h ↦ cc (only has) | inr h ↦ cc (only has) ])
]

all-IsOver :
    (hash : String) (s : SessionRow) (test : SessionRow → Bool) (now : ℕ) (xs : List SessionRow)
    → (test s ≡ true) ⊎ (is_some s.revoked_at ≡ true)
    → All (λ t. has_hash hash t ≡ true → t ≡ s) xs
    → All (IsOver hash) (map (λ t. if test t then revoked now t else t) xs)
all-IsOver hash s test now [] over h = tt
all-IsOver hash s test now (t ∷ rest) over h =
    (one-IsOver hash s test now t over h.0, all-IsOver hash s test now rest over h.1)

-- All sessions with the hash are the one that was found, and it is revoked now.
pub revoked-IsSpent :
    (hash : String) (s : SessionRow) (test : SessionRow → Bool) (d : AuthDb)
    → HashesUnique d.sessions
    → live_session hash d ≡ some s
    → (test s ≡ true) ⊎ (is_some s.revoked_at ≡ true)
    → IsSpent hash (update_sessions test (revoked d.now) d).sessions
revoked-IsSpent hash s test d u found over =
    let (live, has, only) = found-only hash d.now s d.sessions u found in
    (
      still_has hash test (revoked d.now) (λ s. refl) (λ s e. refl) d.sessions has,
      all-IsOver hash s test d.now d.sessions over only,
    )

module _ (host : Host) (token : String) (d : AuthDb) (auth : AuthSession)
    (unique : HashesUnique d.sessions) (valid : (authenticate host token d).0 ≡ ok auth)
    (requests : List (ℕ × Request)) where
  -- Where no two sessions have one hash of a token, a token that authenticated until its logout never
  -- authenticates again, whatever requests of anybody follow at whatever times.
  pub logout-ends :
      (authenticate host token (serve_all host requests (logout host token d).1)).0
      ≡ err unauthenticated
  unfolding logout
  logout-ends =
      let (s, found, _, _, _) = authenticate-found host token d auth valid in
      spent-refused host token requests _
        (rw found (revoked-IsSpent _ s (λ t. str_eq t.id s.id) d unique found (inl (eq_refl s.id))))
