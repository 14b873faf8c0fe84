-- ===== src/Sync/Operation/Exclusive.antt =====
-- An operation on a workspace excludes others on it, and gives the workspace free when it ends.
use sozan.Common.{
  ℕ, ◌≡◌, ◌≢◌, refl, sym, ◌∙◌, inl, inr, Bool-cases, Option-cases, String, Bool, true, false,
  Option, none, some, is_some, str_eq, arith, eq_iff, if◌then◌else◌,
}
use text.Mathlib.TextPositions.{eq_refl}
use sozan.Common.Results.{Result, err, workspace_operation_busy}
use sozan.Common.Exec.{Exec}
use sozan.Sync.Operation.{
  WorkspaceOperation, Shared, put_active, release, operation, entered, begin_workspace_operation,
  with_workspace_operation,
}

-- The abstract view: which workspaces are taken, and the rest of the data.
pub record Taken (S : Type 0) : Type 0 where
  pub taken : String → Bool
  pub content : S

-- The view of a map of operations: their names and tokens are forgotten.
pub record Shows {S : Type 0} (s : Shared S) (a : Taken S) : Type 0 where
  pub taken : (w : String) → is_some (s.active w) ≡ a.taken w
  pub content : s.content ≡ a.content

abbrev put_taken : String → Bool → (String → Bool) → String → Bool
put_taken ws b taken w = if str_eq w ws then b else taken w

put-Shows :
    {S : Type 0} (ws : String) (o : Option WorkspaceOperation) (s : Shared S) (a : Taken S)
    → Shows s a
    → (w : String) → is_some (put_active ws o s.active w) ≡ put_taken ws (is_some o) a.taken w
put-Shows ws o s a h w = elim (Bool-cases (str_eq w ws)) [ inl e ↦ rw e | inr e ↦ rw e (h.taken w) ]

module _ {S A : Type 0} where
  -- What is promised: a taken workspace refuses, a free one is taken for the time of the method.
  unfoldable pub exclusive : String → (Taken S → Result A × Taken S) → Taken S → Result A × Taken S
  exclusive ws run a =
      let out = run (record a { taken = put_taken ws true a.taken }) in
      if a.taken ws
      then (err workspace_operation_busy, a)
      else (out.0, record { taken = put_taken ws false out.1.taken; content = out.1.content })

  -- A method that takes no operation of others away.
  abbrev pub IsKeeping : Exec (Shared S) A → Type 0
  IsKeeping m =
      (w : String) (o : WorkspaceOperation) (s : Shared S)
      → s.active w ≡ some o
      → (m s).1.active w ≡ some o

  -- A method that does on the map what the abstract one does on the view.
  abbrev pub IsRefining : Exec (Shared S) A → (Taken S → Result A × Taken S) → Type 0
  IsRefining m spec =
      (s : Shared S) (a : Taken S) → Shows s a → ((m s).0 ≡ (spec a).0) × Shows (m s).1 (spec a).1

  module _ (uuid : ℕ → String) (ws name : String) (run : Exec (Shared S) A) where
    -- An operation takes no operation of others away when its method does not; so no nesting and no
    -- sequence of operations ever does.
    pub with_workspace_operation-IsKeeping :
        IsKeeping run
        → (w : String) (o : WorkspaceOperation) (s : Shared S) → s.active w ≡ some o
        → (with_workspace_operation uuid ws name run s).1.active w ≡ some o
    unfolding with_workspace_operation begin_workspace_operation release
    with_workspace_operation-IsKeeping keeps w o s held = elim (Option-cases (s.active ws)) [
      | inr (p, busy) ↦ rw busy held
      | inl none_yet ↦ elim (Bool-cases (str_eq w ws)) [
        | inl same ↦ let e : w ≡ ws = ground (arith, eq_iff w ws) in cc (rw e at held)
        | inr apart ↦
            let still = keeps w o (entered uuid ws name s) (rw apart held) in
            let mine =
              keeps ws (operation uuid name s) (entered uuid ws name s) (rw (eq_refl ws)) in
            rw (none_yet, mine, eq_refl (uuid s.minted), apart) still
      ]
    ]

    -- The map with names and tokens implements the exclusion that is promised: when the method does on
    -- the map what the abstract method does on the view, and takes no operation away, the operation
    -- does what the exclusive abstract method does, in results, errors and data.
    pub with_workspace_operation-refines :
        (spec : Taken S → Result A × Taken S)
        → IsRefining run spec
        → IsKeeping run
        → (s : Shared S) (a : Taken S) → Shows s a
        → ((with_workspace_operation uuid ws name run s).0 ≡ (exclusive ws spec a).0)
          × Shows (with_workspace_operation uuid ws name run s).1 (exclusive ws spec a).1
    unfolding with_workspace_operation begin_workspace_operation release exclusive
    with_workspace_operation-refines spec refines keeps s a h = elim (Option-cases (s.active ws)) [
      | inr (p, busy) ↦
          let t : a.taken ws ≡ true = sym (h.taken ws) ∙ rw busy in rw (busy, t) (refl, h)
      | inl none_yet ↦
          let t : a.taken ws ≡ false = sym (h.taken ws) ∙ rw none_yet in
          let mine = keeps ws (operation uuid name s) (entered uuid ws name s) (rw (eq_refl ws)) in
          let out =
            refines (entered uuid ws name s) (record a { taken = put_taken ws true a.taken })
              (record {
                taken = put-Shows ws (some (operation uuid name s)) s a h;
                content = h.content;
              }) in
          rw (none_yet, t, mine, eq_refl (uuid s.minted))
            (out.0, record { taken = put-Shows ws none _ _ out.1; content = out.1.content })
    ]

-- A release that is called again, after another operation took the workspace with another token,
-- leaves that operation alone.
pub release_again :
    {S : Type 0} (ws token : String) (o : WorkspaceOperation) (s : Shared S)
    → s.active ws ≡ some o
    → o.token ≢ token
    → release ws token s ≡ s
unfolding release
release_again ws token o s e other = elim (Bool-cases (str_eq o.token token)) [
  | inl same ↦ elim (other (ground (arith, eq_iff o.token token))) [ ]
  | inr apart ↦ rw (e, apart)
]
