-- ===== src/Billing/Repository/Terms.antt =====
-- The cycles that the queries return have the price and the size of every row of their identifier.
use sozan.Common.{
  ◌≡◌, refl, inl, inr, Bool-cases, String, Bool, true, false, Option, none, some, List, [], ◌∷◌,
  All, All-mp, All-both, All-select, arith, str_eq, str_eq-flip, ltb, find_first,
}
use sozan.Billing.Repository.{
  CycleRow, BillingDb, later_of, latest, mapped, open_cycle, current_cycle,
}
use sozan.Billing.Repository.Valid.{IsDistinct, IsValid, HasTerms}

apart :
    (c r : CycleRow)
    → str_eq r.id c.id ≡ false
    → str_eq r.id c.id ≡ true
    → (r.price_pence ≡ c.price_pence) × (r.session_limit ≡ c.session_limit)
apart c r ne e = let absurd : true ≡ false = ground arith in (cc, cc)

-- A row that a query found has the terms of every row of its cycle, since no two rows share an
-- identifier.
own_terms :
    (all : List CycleRow)
    → IsDistinct all
    → All
        (λ c.
          All
            (λ r.
              str_eq r.id c.id ≡ true
              → (r.price_pence ≡ c.price_pence) × (r.session_limit ≡ c.session_limit))
            all)
        all
own_terms [] d = tt
own_terms (c ∷ cs) d = (
  (λ e. (refl, refl), All-mp cs (λ r ne e. apart c r ne e) d.0),
  All-both cs (λ r ne own. (λ e. apart r c (str_eq-flip r.id c.id ne) e, own)) d.0
      (own_terms cs d.1),
)

abbrev pub OfSome {ℓ κ} : {A : Type ℓ} → (A → Type κ) → Option A → Type κ
OfSome P none = Unit
OfSome P (some a) = P a

later_All :
    (P : CycleRow → Type 0) (c : CycleRow) (o : Option CycleRow)
    → P c
    → OfSome P o
    → P (later_of c o)
later_All P c none p q = p
later_All P c (some d) p q = elim (Bool-cases (ltb c.sequence_no d.sequence_no)) [
  | inl e ↦ rw e q
  | inr e ↦ rw e p
]

pub latest-All : (P : CycleRow → Type 0) (cs : List CycleRow) → All P cs → OfSome P (latest cs)
unfolding latest
latest-All P [] h = tt
latest-All P (c ∷ cs) h = later_All P c (latest cs) h.0 (latest-All P cs h.1)

find_first-All :
    (P : CycleRow → Type 0) (p : CycleRow → Bool) (cs : List CycleRow)
    → All P cs
    → OfSome P (find_first p cs)
unfolding find_first
find_first-All P p [] h = tt
find_first-All P p (c ∷ cs) h = elim (Bool-cases (p c)) [
  | inl e ↦ rw e h.0
  | inr e ↦ rw e (find_first-All P p cs h.1)
]

pub mapped-OfSome :
    (P : CycleRow → Type 0) (db : BillingDb) (o : Option CycleRow)
    → OfSome P o
    → OfSome (λ c. P c.row) (mapped db o)
mapped-OfSome P db none h = h
mapped-OfSome P db (some c) h = h

-- The cycles that the queries return.
pub open_cycle-HasTerms :
    (ws student : String) (db : BillingDb)
    → IsValid db
    → OfSome (λ c. HasTerms c.row db) (open_cycle ws student db)
open_cycle-HasTerms ws student db v =
    mapped-OfSome (λ c. HasTerms c db) db _
      (latest-All (λ c. HasTerms c db) _
        (All-select _ _ db.cycles (own_terms db.cycles v.distinct)))

pub current_cycle-HasTerms :
    (ws student : String) (db : BillingDb)
    → IsValid db
    → OfSome (λ c. HasTerms c.row db) (current_cycle ws student db)
current_cycle-HasTerms ws student db v =
    mapped-OfSome (λ c. HasTerms c db) db _
      (latest-All (λ c. HasTerms c db) _
        (All-select _ _ db.cycles (own_terms db.cycles v.distinct)))
