-- ===== src/Billing/Repository/Reopened.antt =====
-- A change of the opening count of a cycle without lessons keeps the tables valid.
use sozan.Common.{
  ℕ, ◌≤◌, ◌≡◌, refl, sym, inl, inr, Bool-cases, String, true, false, ◌&&◌, Option, none, List, [],
  ◌∷◌, All, select, some_of, str_eq, arith, eq_iff,
}
use sozan.Billing.Repository.{
  CycleRow, BillingCycle, Link, BillingDb, CycleStatus, OccurrenceRow, opening_changes, links_of,
  is_link_of, is_link_completed,
}
use sozan.Billing.Repository.Valid.{IsValid, IsCounted, nothing, IsGentle, changed}

-- Where no lesson of a cycle is completed, valid tables link none to it.
no_completed :
    (ws id : String) (occurrences : List OccurrenceRow) (links : List Link)
    → some_of (λ l. is_link_of ws id l && is_link_completed occurrences l) links ≡ false
    → All (λ l. is_link_completed occurrences l ≡ true) links
    → select (is_link_of ws id) links ≡ []
unfolding select some_of
no_completed ws id occurrences [] h t = refl
no_completed ws id occurrences (l ∷ ls) h t = elim (Bool-cases (is_link_of ws id l)) [
  | inl mine ↦ cc (rw (mine, t.0) at h)
  | inr other ↦ rw other (no_completed ws id occurrences ls (rw other at h) t.1)
]

module _ (ws cycle_id : String) (opening : ℕ) (status : CycleStatus)
    (completed_on : Option String) where
  abbrev pub reopened : CycleRow → CycleRow
  reopened c = record c {
    opening_completed_count = opening;
    status = status;
    completed_on = completed_on;
    paid_on = none;
  }

  pub reopened-IsGentle : IsGentle reopened
  reopened-IsGentle = record {
    id = λ c. refl;
    workspace_id = λ c. refl;
    session_limit = λ c. refl;
    price_pence = λ c. refl;
  }

  reopened-IsCounted :
      (d : BillingDb)
      → IsValid d
      → (r : CycleRow) → opening_changes ws cycle_id d r ≡ true
      → opening ≤ r.session_limit
      → IsCounted d.links (reopened r)
  unfolding links_of
  reopened-IsCounted d v r guard fits =
      let w : r.workspace_id ≡ ws = ground (arith, guard, eq_iff r.workspace_id ws) in
      let i : r.id ≡ cycle_id = ground (arith, guard, eq_iff r.id cycle_id) in
      let empty = no_completed ws cycle_id d.occurrences d.links (ground (arith, guard)) v.taught in
      (fits, rw (w, i, empty) nothing)

  pub rows_counted :
      (c : BillingCycle) (d : BillingDb)
      → IsValid d
      → opening ≤ c.row.session_limit
      → cycle_id ≡ c.row.id
      → (cs : List CycleRow)
      → All
          (λ r.
            str_eq r.id c.row.id ≡ true
            → (r.price_pence ≡ c.row.price_pence) × (r.session_limit ≡ c.row.session_limit))
          cs
      → All
          (λ r.
            IsCounted d.links r
            → IsCounted d.links (changed (opening_changes ws cycle_id d) reopened r))
          cs
  rows_counted c d v fits same [] t = tt
  rows_counted c d v fits same (r ∷ rs) t = (
    λ h. elim (Bool-cases (opening_changes ws cycle_id d r)) [
      | inr missed ↦ rw missed h
      | inl met ↦
          let (p, q) = t.0 (rw (sym same) (ground (arith, met))) in
          rw met (reopened-IsCounted d v r met (omega (arith, q, fits)))
    ],
    rows_counted c d v fits same rs t.1,
  )
