-- ===== src/Billing/Service/Honest.antt =====
-- What others may do while the service runs, and what its single writes do to the tables.
use sozan.Common.{
  ℕ, ◌+◌, ◌≡◌, refl, ◌∙◌, inl, inr, Bool-cases, String, true, ◌&&◌, not, List, [], ◌∷◌, All, str_eq,
  some_of, arith,
}
use sozan.Billing.Package.{unit_share}
use sozan.Billing.Repository.{
  CycleRow, BillingCycle, Link, BillingDb, insert_cycle, insert_link, lock_opening, due_row, is_row,
  is_lesson_completed, is_within_checks, clashes, takes_link, meets_key,
}
use sozan.Billing.Repository.Valid.{IsValid, HasTerms, IsGentle}
use sozan.Billing.Service.{next_position}

-- What others may do while a lesson is booked: they keep the tables valid, the price and size of
-- every cycle, and every lesson that is completed.
pub record Honest (g : BillingDb → BillingDb) : Type 0 where
  pub valid : (d : BillingDb) → IsValid d → IsValid (g d)
  pub terms : (c : CycleRow) (d : BillingDb) → HasTerms c d → HasTerms c (g d)
  pub lessons :
      (ws id : String) (d : BillingDb)
      → is_lesson_completed ws id d.occurrences ≡ true
      → is_lesson_completed ws id (g d).occurrences ≡ true

pub lock-IsGentle : (now : String) → IsGentle (lock_opening now)
lock-IsGentle now = record {
  id = λ c. refl;
  workspace_id = λ c. refl;
  session_limit = λ c. refl;
  price_pence = λ c. refl;
}

pub due-IsGentle : (now date : String) → IsGentle (due_row now date)
due-IsGentle now date = record {
  id = λ c. refl;
  workspace_id = λ c. refl;
  session_limit = λ c. refl;
  price_pence = λ c. refl;
}

pub insert_cycle-lessons :
    (ws id : String) (row : CycleRow) (d : BillingDb)
    → is_lesson_completed ws id d.occurrences ≡ true
    → is_lesson_completed ws id (insert_cycle row d).occurrences ≡ true
insert_cycle-lessons ws id row d h =
    elim (Bool-cases (is_within_checks row && not (some_of (clashes row) d.cycles))) [
      | inl e ↦ rw e h
      | inr e ↦ rw e h
    ]

pub with_minted : (d : BillingDb) → IsValid d → IsValid (record d { minted = d.minted + 1 })
with_minted d v = record {
  counted = v.counted;
  distinct = v.distinct;
  owned = v.owned;
  taught = v.taught;
}

pub insert_link-lessons :
    (ws id : String) (l : Link) (d : BillingDb)
    → is_lesson_completed ws id d.occurrences ≡ true
    → is_lesson_completed ws id (insert_link l d).1.occurrences ≡ true
insert_link-lessons ws id l d h = elim (Bool-cases (some_of (takes_link l d) d.cycles)) [
  | inr e ↦ rw e h
  | inl e ↦ elim (Bool-cases (some_of (meets_key l) d.links)) [
    | inl f ↦ rw (e, f) h
    | inr f ↦ rw (e, f) h
  ]
]

-- The share was computed at the terms of the cycle.
pub shares_of :
    (c : BillingCycle) (ws occurrence : String) (share : ℕ)
    → share ≡ unit_share c.row.price_pence c.row.session_limit (next_position c)
    → (cs : List CycleRow)
    → All
        (λ r.
          str_eq r.id c.row.id ≡ true
          → (r.price_pence ≡ c.row.price_pence) × (r.session_limit ≡ c.row.session_limit))
        cs
    → All
        (λ r.
          is_row ws c.row.id r ≡ true
          → (share ≡ unit_share r.price_pence r.session_limit (next_position c)))
        cs
shares_of c ws occurrence share e [] t = tt
shares_of c ws occurrence share e (r ∷ rs) t = (
  λ k. let (p, q) = t.0 (ground arith) in e ∙ rw (p, q),
  shares_of c ws occurrence share e rs t.1,
)
