-- ===== src/Sync/Revision/Quiet.antt =====
-- A stable read that nobody disturbs returns at its first attempt.
use sozan.Common.{ℕ, suc, ◌≡◌, refl, none, List, [], ◌∷◌, map, arith, true, ◌==◌}
use sozan.Common.Results.{ok}
use sozan.Sync.Revision.{read_stable_workspace_revision, with_stable_workspace_read}
use sozan.Sync.Revision.Lease.{server_at}
use sozan.Sync.Revision.Moments.{run_queries}

module _ {Data V : Type 0} where
  quiet_queries :
      (qs : List (Data → V)) (n now : ℕ) (store : Data)
      → run_queries qs (server_at n none none now store, [])
        ≡ (ok (map (λ q. q store) qs), (server_at n none none now store, []))
  unfolding run_queries
  quiet_queries [] n now store = refl
  quiet_queries (q ∷ qs) n now store = rw (quiet_queries qs n now store)

  -- Where nobody else interferes and no writer holds the row, a stable read with at least one attempt
  -- returns the revision of the row and the values of its queries on the data, and changes nothing.
  pub with_stable_workspace_read_quiet :
      (qs : List (Data → V)) (more n now : ℕ) (store : Data)
      → with_stable_workspace_read (run_queries qs) (suc more) (server_at n none none now store, [])
        ≡ (ok (n, map (λ q. q store) qs), (server_at n none none now store, []))
  unfolding with_stable_workspace_read read_stable_workspace_revision
  with_stable_workspace_read_quiet qs more n now store =
      let same : (n == n) ≡ true = ground arith in rw (quiet_queries qs n now store, same)
