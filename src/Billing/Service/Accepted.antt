-- ===== src/Billing/Service/Accepted.antt =====
-- In valid tables the database takes the lesson that the booking links to an open cycle with a place.
use mathlib.Core.Path.{subst}
use sozan.Common.{
  ℕ, suc, ◌+◌, ◌≤◌, ◌<◌, ◌≡◌, refl, sym, inl, inr, Bool-cases, String, Bool, true, false, ◌&&◌,
  Option, none, some, List, [], ◌∷◌, length, select, some_of, find_first, All, All-mp, All-select,
  select-All, str_eq, ◌==◌, arith, eq_iff, le→leb,
}
use text.Mathlib.TextPositions.{eq_refl}
use sozan.Common.Results.{ok}
use sozan.Billing.Repository.{
  CycleRow, BillingCycle, Link, BillingDb, is_row, is_of, is_open, is_link_of, is_linked, links_of,
  real_completed, map_cycle, mapped, open_cycle, cycle_for_occurrence, takes_link, meets_key,
  insert_link,
}
use sozan.Billing.Repository.Valid.{IsValid, IsCounted, IsNumbered, next, has_row}
use sozan.Billing.Repository.Linked.{one_row}
use sozan.Billing.Repository.Terms.{OfSome, latest-All, mapped-OfSome}
use sozan.Billing.Repository.Earned.{real_completed-length}
use sozan.Billing.Service.{next_position, link_to}

members :
    (all : List CycleRow) → All (λ c. (q : CycleRow → Bool) → q c ≡ true → some_of q all ≡ true) all
unfolding some_of
members [] = tt
members (c ∷ cs) = (λ q e. rw e, All-mp cs (λ x h q e. rw (h q e) (ground arith)) (members cs))

mapped_row :
    (d : BillingDb) (o : Option CycleRow) (c : BillingCycle)
    → mapped d o ≡ some c
    → c.real_completed_count ≡ real_completed c.row d
mapped_row d none c e = cc
mapped_row d (some r) c e = let f : map_cycle d r ≡ c = cc in rw (sym f)

module _ (ws student : String) (d : BillingDb) (c : BillingCycle)
    (found : open_cycle ws student d ≡ some c) where
  -- What holds of every row holds of the open cycle.
  open-All : (P : CycleRow → Type 0) → All P d.cycles → P c.row
  open-All P h = subst (OfSome (λ c. P c.row)) found (
      mapped-OfSome P d _
        (latest-All P _ (All-select P (λ c. is_of ws student c && is_open c.status) d.cycles h)))

  open_meets : (is_of ws student c.row && is_open c.row.status) ≡ true
  open_meets = subst (OfSome (λ c. (is_of ws student c.row && is_open c.row.status) ≡ true)) found (
      mapped-OfSome (λ c. (is_of ws student c && is_open c.status) ≡ true) d _
        (latest-All _ _ (select-All _ d.cycles)))

find_first-none :
    (p : CycleRow → Bool) (cs : List CycleRow) → find_first p cs ≡ none → All (λ c. p c ≡ false) cs
unfolding find_first
find_first-none p [] e = tt
find_first-none p (c ∷ cs) e = elim (Bool-cases (p c)) [
  | inl met ↦ cc (rw met at e)
  | inr missed ↦ (missed, find_first-none p cs (rw missed at e))
]

mapped-none : (d : BillingDb) (o : Option CycleRow) → mapped d o ≡ none → o ≡ none
mapped-none d none e = refl
mapped-none d (some r) e = cc

-- A lesson that is in no cycle of the student is not in the open one.
pub open_unlinked :
    (ws student occurrence : String) (d : BillingDb) (c : BillingCycle)
    → open_cycle ws student d ≡ some c
    → cycle_for_occurrence ws student occurrence d ≡ none
    → is_linked ws c.row.id occurrence d.links ≡ false
open_unlinked ws student occurrence d c found fresh =
    let meets = open_meets ws student d c found in
    let same : c.row.workspace_id ≡ ws = ground (arith, meets, eq_iff c.row.workspace_id ws) in
    let missed =
      open-All ws student d c found
        (λ r. (is_of ws student r && is_linked r.workspace_id r.id occurrence d.links) ≡ false)
        (find_first-none _ d.cycles (mapped-none d _ fresh)) in
    let unlinked : is_linked c.row.workspace_id c.row.id occurrence d.links ≡ false =
      ground (arith, meets, missed) in
    rw same at unlinked

IsNumbered-here :
    (o limit price : ℕ) (k : Link) (ks : List Link)
    → IsNumbered o limit price (k ∷ ks)
    → (k.position ≡ o + suc (length ks)) × IsNumbered o limit price ks
IsNumbered-here o limit price k ks (next _ _ position fits share other h) = (position, h)

-- No link of the cycle has a later position or this lesson.
free_key :
    (ws id occurrence : String) (o limit price : ℕ) (l : Link) (links : List Link)
    → l.billing_cycle_id ≡ id
    → l.occurrence_id ≡ occurrence
    → All (λ k. str_eq k.billing_cycle_id id ≡ true → str_eq k.workspace_id ws ≡ true) links
    → is_linked ws id occurrence links ≡ false
    → IsNumbered o limit price (select (is_link_of ws id) links)
    → o + length (select (is_link_of ws id) links) < l.position
    → some_of (meets_key l) links ≡ false
unfolding some_of select
free_key ws id occurrence o limit price l [] i e own new n lt = refl
free_key ws id occurrence o limit price l (k ∷ ks) i e own new n lt =
    elim (Bool-cases (str_eq k.billing_cycle_id id)) [
      | inr other ↦
          let off : is_link_of ws id k ≡ false = ground (arith, other) in
          rw (i, other)
            (free_key ws id occurrence o limit price l ks i e own.1 (rw off at new) (rw off at n)
              (rw off at lt))
      | inl same ↦
          let mine = own.0 same in
          let (position, rest) = IsNumbered-here o limit price k _ (rw (mine, same) at n) in
          let apart : str_eq k.occurrence_id occurrence ≡ false = ground (arith, mine, same, new) in
          let short : o + suc (length (select (is_link_of ws id) ks)) < l.position =
            rw (mine, same) at lt in
          let earlier : (k.position == l.position) ≡ false = ground (arith, position, short) in
          rw (i, e, same, apart, earlier)
            (free_key ws id occurrence o limit price l ks i e own.1
              (ground (arith, mine, same, new)) rest (omega (arith, short)))
    ]

module _ (ws student occurrence : String) (share : ℕ) (d : BillingDb) (v : IsValid d)
    (c : BillingCycle) where
  -- A link with the identifier of the open cycle is in its workspace.
  owner :
      open_cycle ws student d ≡ some c
      → (k : Link) → has_row k.workspace_id k.billing_cycle_id d.cycles ≡ true
      → str_eq k.billing_cycle_id c.row.id ≡ true
      → str_eq k.workspace_id ws ≡ true
  owner found k h e =
      let meets = open_meets ws student d c found in
      let p : k.billing_cycle_id ≡ c.row.id = ground (arith, eq_iff k.billing_cycle_id c.row.id) in
      let row =
        open-All ws student d c found
          (λ r.
            str_eq r.id k.billing_cycle_id ≡ true
            → is_row k.workspace_id k.billing_cycle_id r ≡ true)
          (one_row (is_row k.workspace_id k.billing_cycle_id) k.billing_cycle_id
            (λ r q. ground arith) d.cycles v.distinct h) in
      let mine : is_row k.workspace_id k.billing_cycle_id c.row ≡ true =
        row (rw p (eq_refl c.row.id)) in
      ground (
        arith,
        mine,
        meets,
        eq_iff c.row.workspace_id k.workspace_id,
        eq_iff c.row.workspace_id ws,
        eq_iff k.workspace_id ws,
      )

  -- The database takes the link of a lesson that is not in the open cycle yet, at the next position.
  pub insert_link-accepts :
      open_cycle ws student d ≡ some c
      → next_position c ≤ c.row.session_limit
      → is_linked ws c.row.id occurrence d.links ≡ false
      → insert_link (link_to ws occurrence c share) d
        ≡ (ok true, record d { links = link_to ws occurrence c share ∷ d.links })
  unfolding links_of
  insert_link-accepts found place new =
      let meets = open_meets ws student d c found in
      let same : c.row.workspace_id ≡ ws = ground (arith, meets, eq_iff c.row.workspace_id ws) in
      let counted = open-All ws student d c found (IsCounted d.links) v.counted in
      let real = mapped_row d _ c found in
      let count = real_completed-length c.row d v in
      let here : str_eq c.row.workspace_id ws ≡ true = ground (arith, meets) in
      let is_still_open : is_open c.row.status ≡ true = ground (arith, meets) in
      let position : (next_position c
            == c.row.opening_completed_count + length (links_of c.row d.links) + 1)
          ≡ true =
        ground (arith, real, count) in
      let unlinked : is_linked c.row.workspace_id c.row.id occurrence d.links ≡ false =
        rw same new in
      let guard : takes_link (link_to ws occurrence c share) d c.row ≡ true = rw (
        here,
        eq_refl c.row.id,
        is_still_open,
        position,
        le→leb (next_position c) c.row.session_limit place,
        unlinked,
      ) in
      let below : c.row.opening_completed_count
            + length (select (is_link_of c.row.workspace_id c.row.id) d.links)
          < next_position c =
        omega (arith, real, count) in
      let taken =
        open-All ws student d c found
          (λ r. (q : CycleRow → Bool) → q r ≡ true → some_of q d.cycles ≡ true) (members d.cycles)
          (takes_link (link_to ws occurrence c share) d) guard in
      let free =
        free_key ws c.row.id occurrence c.row.opening_completed_count c.row.session_limit
          c.row.price_pence (link_to ws occurrence c share) d.links refl refl
          (All-mp d.links (λ k h e. owner found k h e) v.owned) new (rw same at counted.1)
          (rw same at below) in
      rw (taken, free)
