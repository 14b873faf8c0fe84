-- ===== src/Finance/Allocation/Waterfall.antt =====
-- The loop of a collection against a plain description of it: money runs down the list of
-- obligations, and each takes what it still wants.
use sozan.Common.{
  ℕ, ◌+◌, ◌-◌, min, ◌≤◌, ◌≡◌, ◌⊎◌, refl, String, true, false, none, List, [], ◌∷◌, ◌++◌, arith, leb,
  ◌==◌, if◌then◌else◌, inl, inr, Bool-cases, All, sum_by,
}
use sozan.Common.Results.{Result, ok}
use sozan.Finance.Contracts.{ExternalReference, same_ref}
use sozan.Finance.Gateway.{
  Db, get_allocated_total, get_receipt_allocated_total, existing_allocation,
}
use sozan.Finance.Allocation.{FinancialObligation, TargetAmount, allocate_open}

abbrev pub entry : ExternalReference → ℕ → TargetAmount
entry t n = record { target = t; amount_pence = n }

-- What is left of `remaining`, and who gets how much: `wants` is what each obligation still wants.
abbrev pub waterfall :
    (FinancialObligation → ℕ) → ℕ → List FinancialObligation → ℕ × List TargetAmount
waterfall wants remaining [] = (remaining, [])
waterfall wants remaining (o ∷ os) =
    let paid = min remaining (wants o) in
    let rest = waterfall wants (remaining - paid) os in
    (rest.0, if paid == 0 then rest.1 else entry o.target paid ∷ rest.1)

-- What an obligation wants, by the tables.
abbrev pub wants_in : String → Db → FinancialObligation → ℕ
wants_in ws db o = o.amount_due_pence - get_allocated_total ws o.target db

-- No two obligations have the same target.
abbrev pub Distinct : List FinancialObligation → Type 0
Distinct [] = Unit
Distinct (o ∷ os) = All (λ p. same_ref o.target p.target ≡ false) os × Distinct os

pub waterfall-empty :
    (wants : FinancialObligation → ℕ) (os : List FinancialObligation)
    → waterfall wants 0 os ≡ (0, [])
waterfall-empty wants [] = refl
waterfall-empty wants (o ∷ os) =
    let e : min 0 (wants o) ≡ 0 = omega arith in rw e (rw (waterfall-empty wants os))

pub waterfall-cong :
    (f g : FinancialObligation → ℕ) (r : ℕ) (os : List FinancialObligation)
    → All (λ o. f o ≡ g o) os
    → waterfall f r os ≡ waterfall g r os
waterfall-cong f g r [] h = refl
waterfall-cong f g r (o ∷ os) h = rw (h.0, waterfall-cong f g (r - min r (g o)) os h.1)

pub waterfall-conserves :
    (f : FinancialObligation → ℕ) (r : ℕ) (os : List FinancialObligation)
    → (waterfall f r os).0 + sum_by (λ a. a.amount_pence) (waterfall f r os).1 ≡ r
waterfall-conserves f r [] = omega arith
waterfall-conserves f r (o ∷ os) = ground (arith, waterfall-conserves f (r - min r (f o)) os)

-- What is left is what exceeds all wants.
pub waterfall-left :
    (f : FinancialObligation → ℕ) (r : ℕ) (os : List FinancialObligation)
    → (waterfall f r os).0 ≡ r - sum_by f os
waterfall-left f r [] = omega arith
waterfall-left f r (o ∷ os) = rw (waterfall-left f (r - min r (f o)) os) (omega arith)

-- Where the first obligations want all the money, those behind them get none.
pub waterfall-prefix :
    (f : FinancialObligation → ℕ) (r : ℕ) (older newer : List FinancialObligation)
    → r ≤ sum_by f older
    → waterfall f r (older ++ newer) ≡ waterfall f r older
waterfall-prefix f r [] newer h = let e : r ≡ 0 = omega arith in rw e (waterfall-empty f newer)
waterfall-prefix f r (o ∷ older) newer h =
    rw (waterfall-prefix f (r - min r (f o)) older newer (omega arith))

module _ (new_id : ℕ → String) (ws rid : String) where
  -- Nothing of this receipt is allocated to an obligation that still wants something.
  abbrev pub IsFresh : Db → FinancialObligation → Type 0
  IsFresh db o =
      (existing_allocation ws rid o.target db.allocations ≡ none)
      ⊎ (o.amount_due_pence ≤ get_allocated_total ws o.target db)

  -- What the loop has done: it returned what the description says, stored exactly that much of the
  -- receipt, left other targets alone, and used the money up or left every obligation paid.
  pub record Poured (os : List FinancialObligation) (remaining : ℕ) (db : Db)
      (out : Result (ℕ × List TargetAmount) × Db) : Type 0 where
    pub returned : out.0 ≡ ok (waterfall (wants_in ws db) remaining os)
    pub receipts : out.1.receipts ≡ db.receipts
    pub stored :
        get_receipt_allocated_total ws rid out.1 + (waterfall (wants_in ws db) remaining os).0
        ≡ get_receipt_allocated_total ws rid db + remaining
    pub others :
        (t : ExternalReference)
        → All (λ o. same_ref o.target t ≡ false) os
        → get_allocated_total ws t out.1 ≡ get_allocated_total ws t db
    pub settled :
        ((waterfall (wants_in ws db) remaining os).0 ≡ 0)
        ⊎ All (λ o. o.amount_due_pence ≤ get_allocated_total ws o.target out.1) os

  pub allocate_open-stop :
      (os : List FinancialObligation) (db : Db)
      → allocate_open new_id ws rid os 0 db ≡ (ok (0, []), db)
  unfolding allocate_open
  allocate_open-stop [] db = refl
  allocate_open-stop (o ∷ os) db = refl

  -- Where nothing is wanted, nothing happens.
  pub allocate_open-settled :
      (os : List FinancialObligation) (remaining : ℕ) (db : Db)
      → All (λ o. o.amount_due_pence ≤ get_allocated_total ws o.target db) os
      → allocate_open new_id ws rid os remaining db ≡ (ok (remaining, []), db)
  unfolding allocate_open
  allocate_open-settled [] remaining db h = refl
  allocate_open-settled (o ∷ os) remaining db h = elim (Bool-cases (leb remaining 0)) [
    | inl stop ↦ rw stop
    | inr go ↦
        let e : (o.amount_due_pence - get_allocated_total ws o.target db == 0) ≡ true =
          ground arith in
        rw (go, e) (allocate_open-settled os remaining db h.1)
  ]
