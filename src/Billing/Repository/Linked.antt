-- ===== src/Billing/Repository/Linked.antt =====
-- The INSERT of a lesson into a cycle: its guard is met by at most one row, and what it inserts keeps
-- the tables valid.
use sozan.Common.{
  suc, ◌+◌, ◌≤◌, ◌≡◌, refl, sym, ◌∙◌, inl, inr, Bool-cases, String, Bool, true, false, List, [],
  ◌∷◌, length, select, some_of, All, All-mp, arith, eq_iff, str_eq,
}
use text.Mathlib.TextPositions.{eq_refl}
use sozan.Billing.Package.{unit_share}
use sozan.Billing.Repository.{
  CycleRow, Link, BillingDb, links_of, is_link_of, is_row, is_linked, is_link_completed, takes_link,
  meets_key, insert_link,
}
use sozan.Billing.Repository.Valid.{next, IsCounted, IsDistinct, IsValid}

-- A row that meets the condition further on has this identifier, so the first row has another.
some_is_other :
    (p : CycleRow → Bool) (id : String)
    → ((c : CycleRow) → p c ≡ true → str_eq c.id id ≡ true)
    → (c : CycleRow) (cs : List CycleRow) → All (λ d. str_eq d.id c.id ≡ false) cs
    → some_of p cs ≡ true
    → str_eq c.id id ≡ true
    → true ≡ false
unfolding some_of
some_is_other p id k c [] d h e = sym h
some_is_other p id k c (x ∷ xs) d h e = elim (Bool-cases (p x)) [
  | inl met ↦
      let same : c.id ≡ x.id = ground (arith, k x met, e, eq_iff c.id id, eq_iff x.id id) in
      sym (eq_refl x.id) ∙ (rw same at d.0)
  | inr missed ↦ some_is_other p id k c xs d.1 (rw missed at h) e
]

-- The rows that meet a condition on their identifier are one row.
pub one_row :
    (p : CycleRow → Bool) (id : String)
    → ((c : CycleRow) → p c ≡ true → str_eq c.id id ≡ true)
    → (cs : List CycleRow) → IsDistinct cs
    → some_of p cs ≡ true
    → All (λ c. str_eq c.id id ≡ true → p c ≡ true) cs
unfolding some_of
one_row p id k [] d h = tt
one_row p id k (c ∷ cs) d h = elim (Bool-cases (p c)) [
  | inl met ↦
      let same : c.id ≡ id = ground (arith, k c met, eq_iff c.id id) in
      (λ e. met, All-mp cs (λ x ne e. cc (rw same at ne)) d.0)
  | inr missed ↦ (
    λ e. cc (some_is_other p id k c cs d.0 (rw missed at h) e),
    one_row p id k cs d.1 (rw missed at h),
  )
]

takes-id :
    (l : Link) (db : BillingDb) (c : CycleRow)
    → takes_link l db c ≡ true
    → str_eq c.id l.billing_cycle_id ≡ true
takes-id l db c h = ground arith

takes_row :
    (l : Link) (db : BillingDb) (c : CycleRow)
    → takes_link l db c ≡ true
    → is_row l.workspace_id l.billing_cycle_id c ≡ true
takes_row l db c h = ground arith

position_of :
    (l : Link) (db : BillingDb) (c : CycleRow)
    → takes_link l db c ≡ true
    → l.position ≡ c.opening_completed_count + suc (length (links_of c db.links))
position_of l db c h = ground arith

limit_of :
    (l : Link) (db : BillingDb) (c : CycleRow)
    → takes_link l db c ≡ true
    → l.position ≤ c.session_limit
limit_of l db c h = ground arith

unlinked_of :
    (l : Link) (db : BillingDb) (c : CycleRow)
    → takes_link l db c ≡ true
    → is_linked c.workspace_id c.id l.occurrence_id db.links ≡ false
unlinked_of l db c h = ground arith

unlinked_here :
    (ws id occurrence : String) (links : List Link)
    → is_linked ws id occurrence links ≡ false
    → some_of (λ k. str_eq k.occurrence_id occurrence) (select (is_link_of ws id) links) ≡ false
unfolding some_of select
unlinked_here ws id occurrence [] h = refl
unlinked_here ws id occurrence (l ∷ ls) h = elim (Bool-cases (is_link_of ws id l)) [
  | inr other ↦ rw other (unlinked_here ws id occurrence ls (rw other at h))
  | inl mine ↦ elim (Bool-cases (str_eq l.occurrence_id occurrence)) [
    | inl same ↦ cc (rw (mine, same) at h)
    | inr apart ↦ rw (mine, apart) (unlinked_here ws id occurrence ls (rw (mine, apart) at h))
  ]
]

-- A cycle with the new lesson, where the guard of the INSERT met its row, or the lesson is another's.
counted_more :
    (l : Link) (db : BillingDb) (c : CycleRow)
    → (is_row l.workspace_id l.billing_cycle_id c ≡ true
        → (l.earned_pence ≡ unit_share c.price_pence c.session_limit l.position))
    → (str_eq c.id l.billing_cycle_id ≡ true → takes_link l db c ≡ true)
    → IsCounted db.links c
    → IsCounted (l ∷ db.links) c
unfolding links_of select
counted_more l db c share takes h = elim (Bool-cases (is_link_of c.workspace_id c.id l)) [
  | inr other ↦ rw other h
  | inl mine ↦
      let row : is_row l.workspace_id l.billing_cycle_id c ≡ true = ground (
        arith,
        eq_iff l.workspace_id c.workspace_id,
        eq_iff l.billing_cycle_id c.id,
        eq_refl c.workspace_id,
        eq_refl c.id,
      ) in
      let guard = takes (ground arith) in
      rw mine (
        h.0,
        next l (links_of c db.links) (position_of l db c guard) (limit_of l db c guard) (share row)
            (unlinked_here c.workspace_id c.id l.occurrence_id db.links (unlinked_of l db c guard))
            h.1,
      )
]

counted_all :
    (l : Link) (db : BillingDb) (cs : List CycleRow)
    → All
        (λ c.
          is_row l.workspace_id l.billing_cycle_id c ≡ true
          → (l.earned_pence ≡ unit_share c.price_pence c.session_limit l.position))
        cs
    → All (λ c. str_eq c.id l.billing_cycle_id ≡ true → takes_link l db c ≡ true) cs
    → All (IsCounted db.links) cs
    → All (IsCounted (l ∷ db.links)) cs
counted_all l db [] s t h = tt
counted_all l db (c ∷ cs) s t h = (counted_more l db c s.0 t.0 h.0, counted_all l db cs s.1 t.1 h.1)

some_weaken :
    (p q : CycleRow → Bool)
    → ((c : CycleRow) → p c ≡ true → q c ≡ true)
    → (cs : List CycleRow) → some_of p cs ≡ true
    → some_of q cs ≡ true
unfolding some_of
some_weaken p q k [] h = h
some_weaken p q k (c ∷ cs) h = elim (Bool-cases (p c)) [
  | inl met ↦ rw (k c met)
  | inr missed ↦ rw (some_weaken p q k cs (rw missed at h)) (ground arith)
]

-- The INSERT of a lesson keeps the tables valid, when the lesson is completed and earns the share of
-- its position at the terms of the cycle.
pub insert_link-IsValid :
    (l : Link) (db : BillingDb)
    → All
        (λ c.
          is_row l.workspace_id l.billing_cycle_id c ≡ true
          → (l.earned_pence ≡ unit_share c.price_pence c.session_limit l.position))
        db.cycles
    → is_link_completed db.occurrences l ≡ true
    → IsValid db
    → IsValid (insert_link l db).1
insert_link-IsValid l db share taught v = elim (Bool-cases (some_of (takes_link l db) db.cycles)) [
  | inr refused ↦ rw refused v
  | inl taken ↦ elim (Bool-cases (some_of (meets_key l) db.links)) [
    | inl clash ↦ rw (taken, clash) v
    | inr free ↦
        let row =
          one_row (takes_link l db) l.billing_cycle_id (takes-id l db) db.cycles v.distinct taken in
        rw (taken, free)
          (record {
            counted = counted_all l db db.cycles share row v.counted;
            distinct = v.distinct;
            owned = (some_weaken (takes_link l db) _ (takes_row l db) db.cycles taken, v.owned);
            taught = (taught, v.taught);
          })
  ]
]
