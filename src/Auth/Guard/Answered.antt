-- ===== src/Auth/Guard/Answered.antt =====
-- What a request without access is answered.
use sozan.Common.{
  ◌≡◌, refl, String, Bool, true, ◌&&◌, Option, none, some, inl, inr, Bool-cases, Option-cases,
  is_some, leb,
}
use sozan.Common.Results.{Error, Result, ok, err, Result-cases, unauthenticated}
use sozan.Auth.Security.{Host, is_blank, hash_session_token}
use sozan.Auth.Accounts.{AuthDb}
use sozan.Auth.Accounts.Sessions.{live_session, account_for}
use sozan.Auth.Service.{authenticate}
use sozan.Auth.Guard.{is_viewer, find_workspace, require_workspace_access, access_error}

authenticate-refusal :
    (host : Host) (token : String) (d : AuthDb) (thrown : Error)
    → (authenticate host token d).0 ≡ err thrown
    → thrown ≡ unauthenticated
unfolding authenticate
authenticate-refusal host token d thrown h =
    elim (Option-cases (live_session (hash_session_token host token) d)) [
      | inl missing ↦ cc (rw missing at h)
      | inr (s, found) ↦ elim (Bool-cases (leb s.expires_at d.now)) [
        | inl expired ↦ cc (rw (found, expired) at h)
        | inr fresh ↦ elim (Option-cases (account_for host s.user_id d)) [
          | inl gone ↦ cc (rw (found, fresh, gone) at h)
          | inr (account, loaded) ↦ cc (rw (found, fresh, loaded) at h)
        ]
      ]
    ]

abbrev pub IsAnswered : {A : Type 0} → Result A → Type 0
IsAnswered (ok a) = Unit {0}
IsAnswered (err thrown) = is_some (access_error thrown) ≡ true

module _ (host : Host) (configured : Bool) (workspace_id : String) (write : Bool) (d : AuthDb) where
  -- Whatever the request, the guard either gives access or throws an error that is answered with a
  -- status of its own: it throws nothing on.
  pub require_workspace_access-IsAnswered :
      (cookie : Option String)
      → IsAnswered (require_workspace_access host configured cookie workspace_id write d).0
  unfolding require_workspace_access access_error
  require_workspace_access-IsAnswered none = refl
  require_workspace_access-IsAnswered (some token) = elim (Bool-cases (is_blank token)) [
    | inl empty ↦ rw empty refl
    | inr given ↦ elim (Bool-cases configured) [
      | inr missing ↦ rw (given, missing) refl
      | inl bound ↦ elim (Result-cases (authenticate host token d).0) [
        | inr (thrown, refused) ↦
            rw (given, bound, refused, authenticate-refusal host token d thrown refused) refl
        | inl (auth, valid) ↦ elim (Option-cases (find_workspace workspace_id auth.account)) [
          | inl forbidden ↦ rw (given, bound, valid, forbidden) refl
          | inr (w, found) ↦ elim (Bool-cases (write && is_viewer w.role)) [
            | inl read_only ↦ rw (given, bound, valid, found, read_only) refl
            | inr allowed ↦ rw (given, bound, valid, found, allowed) tt
          ]
        ]
      ]
    ]
  ]
