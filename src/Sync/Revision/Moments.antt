-- ===== src/Sync/Revision/Moments.antt =====
-- The moments of a history at which the statements of a read stand, when others write between them.
use sozan.Common.{
  ◌≡◌, refl, ap, sym, ◌∙◌, Option, none, some, is_some, List, [], ◌∷◌, map, arith, if◌then◌else◌,
  inl, inr, Bool-cases, All, or_default, ◌&&◌,
}
use sozan.Common.Results.{Result, ok, err, sync_write_in_progress}
use sozan.Common.Exec.{Exec, pure, ◌>>=◌}
use sozan.Common.Interleave.{World, statement}
use sozan.Sync.Revision.{
  Row, Server, state_of, first_row, recover_row, update_row, read_workspace_revision_state,
  read_stable_workspace_revision, catch_busy,
}
use sozan.Sync.Revision.History.{
  Site, Step, History, IsSound, revision_of, is_leased, History-IsSound, History-append,
}

leased-state : (r : Option Row) → is_some (state_of r).writer_token ≡ is_leased r
leased-state r = ground arith

revision-state : (r : Option Row) → (state_of r).revision ≡ revision_of r
revision-state r = ground arith

module _ {Data : Type 0} where
  -- The two updates that precede every read of the state.
  abbrev ensure_body : Server Data → Result (Unit {0}) × Server Data
  ensure_body s = (ok tt, record s { row = some (or_default s.row first_row) })

  abbrev recover_body : Server Data → Result (Unit {0}) × Server Data
  recover_body s = (ok tt, record s { row = update_row (recover_row s.now) s.row })

  -- What the others do between two statements is a history of steps.
  abbrev pub Honest : (Server Data → Server Data) → Type 0
  Honest g = (s : Site Data) → IsSound s → (u : Site Data) × History s u × (u.server ≡ g s.server)

  -- A site that stands for a world whose others are honest.
  pub record Follows (s : Site Data) (w : World (Server Data)) : Type 0 where
    pub at : s.server ≡ w.0
    pub sound : IsSound s
    pub honest : All Honest w.1

  -- Where a run that began at `s` has come to.
  abbrev pub Comes : Site Data → World (Server Data) → Type 0
  Comes s w = (u : Site Data) × History s u × Follows u w

  statement-Comes :
      {A : Type 0} (f : Server Data → Result A × Server Data)
      → Honest (λ d. (f d).1)
      → (s : Site Data) (w : World (Server Data)) → Follows s w
      → Comes s (statement f w).1
  statement-Comes f own s (d, []) fo =
      let (u, h, e) = own s fo.sound in
      (
        u,
        h,
        record {
          at = e ∙ ap (λ x. (f x).1) fo.at;
          sound = History-IsSound fo.sound h;
          honest = tt;
        },
      )
  statement-Comes f own s (d, g ∷ gs) fo =
      let (t, h, e) = fo.honest.0 s fo.sound in
      let (u, k, e') = own t (History-IsSound fo.sound h) in
      (
        u,
        History-append h k,
        record {
          at = e' ∙ ap (λ x. (f x).1) (e ∙ ap g fo.at);
          sound = History-IsSound fo.sound (History-append h k);
          honest = fo.honest.1;
        },
      )

  -- A query changes nothing, and its value is that of the moment to which the run comes.
  query_comes :
      {A : Type 0} (q : Server Data → A) (s : Site Data) (w : World (Server Data))
      → Follows s w
      → (u : Site Data) × History s u
        × Follows u (statement (λ d. (ok (q d), d)) w).1
        × ((statement (λ d. (ok (q d), d)) w).0 ≡ ok (q u.server))
  query_comes q s (d, []) fo = (
    s,
    History.here,
    record { at = fo.at; sound = fo.sound; honest = tt },
    ap (λ x. ok (q x)) (sym fo.at),
  )
  query_comes q s (d, g ∷ gs) fo =
      let (t, h, e) = fo.honest.0 s fo.sound in
      (
        t,
        h,
        record { at = e ∙ ap g fo.at; sound = History-IsSound fo.sound h; honest = fo.honest.1 },
        ap (λ x. ok (q x)) (sym (e ∙ ap g fo.at)),
      )

  ensure-Honest : Honest (λ s. record s { row = some (or_default s.row first_row) })
  ensure-Honest s v = (
    record s { server = record s.server { row = some (or_default s.row first_row) } },
    History.next History.here (Step.ensure refl refl refl),
    refl,
  )

  recover-Honest : Honest (λ s. record s { row = update_row (recover_row s.now) s.row })
  recover-Honest s v = (
    record {
      server = record s.server { row = update_row (recover_row s.now) s.row };
      dirty = s.dirty && is_leased (update_row (recover_row s.now) s.row);
    },
    History.next History.here (Step.recover refl refl refl),
    refl,
  )

  statement-ok :
      {A : Type 0} (f : Server Data → Result A × Server Data) (a : A)
      → ((d : Server Data) → (f d).0 ≡ ok a)
      → (w : World (Server Data)) → (statement f w).0 ≡ ok a
  statement-ok f a e (d, []) = e d
  statement-ok f a e (d, g ∷ gs) = e (g d)

  -- Where a call has come to, and what it returned there.
  abbrev pub Returns :
      {A : Type 0} → Site Data → Result A × World (Server Data) → (Site Data → Result A) → Type 0
  Returns s out r = (u : Site Data) × History s u × Follows u out.1 × (out.0 ≡ r u)

  read_state-Returns :
      (s : Site Data) (w : World (Server Data))
      → Follows s w
      → Returns s (read_workspace_revision_state w) (λ u. ok (state_of u.row))
  unfolding read_workspace_revision_state
  read_state-Returns s w fo =
      let (t, h, ft) = statement-Comes ensure_body ensure-Honest s w fo in
      let (t', h', ft') = statement-Comes recover_body recover-Honest t _ ft in
      let (u, k, fu, e) = query_comes (λ d. state_of d.row) t' _ ft' in
      rw (statement-ok ensure_body tt (λ d. refl) w) (
        rw (statement-ok recover_body tt (λ d. refl) _)
          (u, History-append h (History-append h' k), fu, e))

  read_stable-Returns :
      (s : Site Data) (w : World (Server Data))
      → Follows s w
      → Returns s
          (read_stable_workspace_revision w)
          (λ u. if is_leased u.row then err sync_write_in_progress else ok (revision_of u.row))
  unfolding read_stable_workspace_revision
  read_stable-Returns s w fo =
      let (u, h, fu, e) = read_state-Returns s w fo in
      elim (Bool-cases (is_leased u.row)) [
        | inl busy ↦ rw (e, leased-state u.row, busy) (u, h, fu, rw busy)
        | inr free ↦ rw (e, leased-state u.row, free) (u, h, fu, rw (free, revision-state u.row))
      ]

  pub caught-Returns :
      (s : Site Data) (w : World (Server Data))
      → Follows s w
      → Returns s
          (catch_busy read_stable_workspace_revision w)
          (λ u. ok (if is_leased u.row then none else some (revision_of u.row)))
  caught-Returns s w fo =
      let (u, h, fu, e) = read_stable-Returns s w fo in
      elim (Bool-cases (is_leased u.row)) [
        | inl busy ↦ (u, h, fu, rw (e, busy))
        | inr free ↦ (u, h, fu, rw (e, free))
      ]

  -- The queries of one read, one statement each.
  unfoldable pub run_queries : {V : Type 0} → List (Data → V) → Exec (World (Server Data)) (List V)
  run_queries [] = pure []
  run_queries (q ∷ qs) = do
    v ← statement (λ s. (ok (q s.store), s))
    vs ← run_queries qs
    pure (v ∷ vs)

  -- The values are those of any data that stay the same all the time.
  abbrev pub AreOf : {V : Type 0} → List (Data → V) → List V → Site Data → Site Data → Type 0
  AreOf qs vs s u =
      (z : Data)
      → ((x : Site Data) → History s x → History x u → x.store ≡ z)
      → vs ≡ map (λ q. q z) qs

  pub queries_return :
      {V : Type 0} (qs : List (Data → V)) (s : Site Data) (w : World (Server Data))
      → Follows s w
      → (u : Site Data) × (vs : List V) × History s u
        × Follows u (run_queries qs w).1
        × ((run_queries qs w).0 ≡ ok vs)
        × AreOf qs vs s u
  unfolding run_queries
  queries_return [] s w fo = (s, [], History.here, fo, refl, λ z h. refl)
  queries_return (q ∷ qs) s w fo =
      let (t, h, ft, e) = query_comes (λ d. q d.store) s w fo in
      let (u, vs, k, fu, e', are) = queries_return qs t _ ft in
      rw (e, e')
        (
          u,
          q t.store ∷ vs,
          History-append h k,
          fu,
          refl,
          λ z same. rw (same t h k, are z (λ x a b. same x (History-append h a) b)),
        )
