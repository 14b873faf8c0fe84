-- ===== src/Sync/Revision/Snapshot.antt =====
-- A stable read returns the data of one moment, the last one of the run, although it is made of many
-- queries and others write between them.
use sozan.Common.{
  ℕ, zero, suc, ◌≡◌, ap, sym, ◌∙◌, false, some, List, map, arith, ◌==◌, inl, inr, Bool-cases,
}
use sozan.Common.Results.{Result, ok}
use sozan.Common.Exec.{Exec}
use sozan.Common.Interleave.{World}
use sozan.Sync.Revision.{Server, read_between, with_stable_workspace_read}
use sozan.Sync.Revision.History.{Site, revision_of, is_leased, History-append, stable_between}
use sozan.Sync.Revision.Moments.{Follows, run_queries, queries_return, caught-Returns}

ok-injective {ℓ} : {A : Type ℓ} {a b : A} → ok a ≡ ok b → a ≡ b
ok-injective h = cc

module _ {Data : Type 0} where
  -- A run that returned gave the revision of the server at its end, and the values of its queries on
  -- the data there.
  abbrev pub OfEnd :
      {V : Type 0}
      → List (Data → V)
      → ℕ × List V
      → Result (ℕ × List V) × World (Server Data)
      → Type 0
  OfEnd qs out run = (out.0 ≡ revision_of run.1.0.row) × (out.1 ≡ map (λ q. q run.1.0.store) qs)

  -- One attempt that returns, from the moment at which the revision was read.
  attempt_returns :
      {V : Type 0} (qs : List (Data → V)) (again : Exec (World (Server Data)) (ℕ × List V))
      (b : Site Data) (w : World (Server Data)) {out : ℕ × List V}
      → Follows b w
      → is_leased b.row ≡ false
      → (read_between (run_queries qs) again (some (revision_of b.row)) w).0 ≡ ok out
      → ((t : Site Data) (w' : World (Server Data))
          → Follows t w'
          → (again w').0 ≡ ok out
          → OfEnd qs out (again w'))
      → OfEnd qs out (read_between (run_queries qs) again (some (revision_of b.row)) w)
  attempt_returns qs again b w {out} fo free h retry =
      let (t, vs, k, ft, e, are) = queries_return qs b w fo in
      let (u, k', fu, e') = caught-Returns t _ ft in
      let h' = rw (e, e') at h in
      elim (Bool-cases (is_leased u.row)) [
        | inl busy ↦ rw (e, e', busy) (retry u _ fu (rw busy at h'))
        | inr open_ ↦ elim (Bool-cases (revision_of b.row == revision_of u.row)) [
          | inl same ↦
              let got : (revision_of b.row, vs) ≡ out = ok-injective (rw (open_, same) at h') in
              let values : vs ≡ map (λ q. q u.store) qs =
                are u.store
                  (λ x a c. stable_between fo.sound a (History-append c k') open_ (ground arith)) in
              rw (e, e', open_, same, ← fu.at)
                (ground (arith, ap (λ x. x.0) got), ap (λ x. x.1) (sym got) ∙ values)
          | inr moved ↦ rw (e, e', open_, moved) (retry u _ fu (rw (open_, moved) at h'))
        ]
      ]

  -- Whatever honest others do between its statements, a stable read that returns gives the revision
  -- and the values of all its queries as they are on the server at the run's last statement, although
  -- it read the revision and the values by earlier statements.
  pub with_stable_workspace_read-snapshot :
      {V : Type 0} (qs : List (Data → V)) (attempts : ℕ) (s : Site Data) (w : World (Server Data))
      {out : ℕ × List V}
      → Follows s w
      → (with_stable_workspace_read (run_queries qs) attempts w).0 ≡ ok out
      → (out.0 ≡ revision_of (with_stable_workspace_read (run_queries qs) attempts w).1.0.row)
        × (out.1
            ≡ map (λ q. q (with_stable_workspace_read (run_queries qs) attempts w).1.0.store) qs)
  unfolding with_stable_workspace_read
  with_stable_workspace_read-snapshot qs zero s w fo h = cc
  with_stable_workspace_read-snapshot qs (suc attempts) s w {out} fo h =
      let (b, k, fb, e) = caught-Returns s w fo in
      let h' = rw e at h in
      elim (Bool-cases (is_leased b.row)) [
        | inl busy ↦
            rw (e, busy) (with_stable_workspace_read-snapshot qs attempts b _ fb (rw busy at h'))
        | inr free ↦
            rw (e, free)
              (attempt_returns qs (with_stable_workspace_read (run_queries qs) attempts) b _ fb free
                (rw free at h')
                (λ t w' ft h2. with_stable_workspace_read-snapshot qs attempts t w' ft h2))
      ]
