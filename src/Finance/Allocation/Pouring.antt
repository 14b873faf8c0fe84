-- ===== src/Finance/Allocation/Pouring.antt =====
-- The loop of a collection makes the waterfall.
use sozan.Common.{
  ℕ, ◌+◌, ◌-◌, min, ◌≤◌, ◌<◌, ◌≡◌, ◌⊎◌, refl, sym, ap, ◌∙◌, String, false, none, some, List, [],
  ◌∷◌, arith, leb, ◌==◌, inl, inr, Bool-cases, All, ge→ltb, eq_iff,
}
use sozan.Common.Results.{Result, ok}
use sozan.Common.Exec.{Exec}
use sozan.Finance.Contracts.{ExternalReference, AllocateReceiptCommand, same_ref}
use sozan.Finance.Gateway.{
  Db, Receipt, live_receipt, get_allocated_total, get_receipt_allocated_total, existing_allocation,
  allocate_receipt, allocation_row,
}
use sozan.Finance.Gateway.Steps.{put_allocation}
use sozan.Finance.Gateway.Totals.{
  target_total_ne, target_total_self, receipt_total_self, existing_ne,
}
use sozan.Finance.Allocation.{
  FinancialObligation, TargetAmount, allocate_open, pay_obligation, mint,
}
use sozan.Finance.Allocation.Waterfall.{
  entry, waterfall, waterfall-cong, waterfall-empty, wants_in, Distinct, IsFresh, Poured,
}

same_ref-sym : (a b : ExternalReference) → same_ref a b ≡ false → same_ref b a ≡ false
same_ref-sym a b h = ground (
  arith,
  eq_iff a.module_key b.module_key,
  eq_iff b.module_key a.module_key,
  eq_iff a.type b.type,
  eq_iff b.type a.type,
  eq_iff a.id b.id,
  eq_iff b.id a.id,
)

apart :
    (o : FinancialObligation) (os : List FinancialObligation)
    → All (λ p. same_ref o.target p.target ≡ false) os
    → All (λ p. same_ref p.target o.target ≡ false) os
apart o [] d = tt
apart o (p ∷ os) d = (same_ref-sym o.target p.target d.0, apart o os d.1)

allocate_receipt-stores :
    (command : AllocateReceiptCommand) (db : Db) (r : Receipt)
    → 0 < command.amount_pence
    → existing_allocation command.workspace_id command.receipt_id command.target db.allocations
      ≡ none
    → live_receipt command.workspace_id command.receipt_id db.receipts ≡ some r
    → get_receipt_allocated_total command.workspace_id command.receipt_id db + command.amount_pence
      ≤ r.amount_pence
    → allocate_receipt command db ≡ (ok tt, put_allocation (allocation_row command) db)
unfolding allocate_receipt
allocate_receipt-stores command db r positive e live fits =
    let p : leb command.amount_pence 0 ≡ false = ground arith in
    rw (p, e, live, ge→ltb r.amount_pence _ fits)

module _ (new_id : ℕ → String) (ws rid : String) (o : FinancialObligation)
    (remaining outstanding : ℕ) (db : Db) where
  -- The command that the loop makes for an obligation, and the tables after it.
  abbrev pub command_for : AllocateReceiptCommand
  command_for = record {
    id = new_id db.minted;
    workspace_id = ws;
    receipt_id = rid;
    target = o.target;
    amount_pence = min remaining outstanding;
  }

  abbrev pub after : Db
  after = put_allocation (allocation_row command_for) (mint new_id db).1

  pay_obligation-eq :
      (next : ℕ → Exec Db (ℕ × List TargetAmount)) {w : ℕ × List TargetAmount}
      → allocate_receipt command_for (mint new_id db).1 ≡ (ok tt, after)
      → (next (remaining - min remaining outstanding) after).0 ≡ ok w
      → pay_obligation new_id ws rid o next remaining outstanding db ≡ (
        ok (w.0, entry o.target (min remaining outstanding) ∷ w.1),
        (next (remaining - min remaining outstanding) after).1,
      )
  unfolding pay_obligation
  pay_obligation-eq next e h = rw (e, h)

  after_ne :
      (t : ExternalReference)
      → same_ref o.target t ≡ false
      → get_allocated_total ws t after ≡ get_allocated_total ws t db
  unfolding get_allocated_total
  after_ne t h = target_total_ne ws (allocation_row command_for) (mint new_id db).1 t h

  after_self :
      {r : Receipt}
      → live_receipt ws rid db.receipts ≡ some r
      → get_allocated_total ws o.target after
        ≡ min remaining outstanding + get_allocated_total ws o.target db
  unfolding get_allocated_total
  after_self {r} live =
      target_total_self ws (allocation_row command_for) (mint new_id db).1 r live refl

  after_receipt :
      {r : Receipt}
      → live_receipt ws rid db.receipts ≡ some r
      → get_receipt_allocated_total ws rid after
        ≡ min remaining outstanding + get_receipt_allocated_total ws rid db
  unfolding get_receipt_allocated_total
  after_receipt {r} live =
      receipt_total_self ws (allocation_row command_for) (mint new_id db).1 r live refl

  -- The other obligations are as fresh as before, and want as much.
  after-IsFresh :
      (os : List FinancialObligation)
      → All (λ p. same_ref o.target p.target ≡ false) os
      → All (IsFresh new_id ws rid db) os
      → All (IsFresh new_id ws rid after) os
  after-IsFresh [] d f = tt
  after-IsFresh (p ∷ os) d f = (
    elim (f.0) [
      | inl e ↦
          inl (existing_ne ws (allocation_row command_for) (mint new_id db).1 rid p.target d.0 ∙ e)
      | inr paid ↦ inr (rw (after_ne p.target d.0) paid)
    ],
    after-IsFresh os d.1 f.1,
  )

  after_wants :
      (os : List FinancialObligation)
      → All (λ p. same_ref o.target p.target ≡ false) os
      → All (λ p. wants_in ws after p ≡ wants_in ws db p) os
  after_wants [] d = tt
  after_wants (p ∷ os) d = (rw (after_ne p.target d.0), after_wants os d.1)

module _ (new_id : ℕ → String) (ws rid : String) where
  -- One obligation is paid, and the rest of the loop pours what remains.
  paid-Poured :
      (o : FinancialObligation) (os : List FinancialObligation) (remaining : ℕ) (db : Db)
      (r : Receipt)
      → live_receipt ws rid db.receipts ≡ some r
      → All (λ p. same_ref o.target p.target ≡ false) os
      → 0 < min remaining (wants_in ws db o)
      → Poured new_id ws rid os
          (remaining - min remaining (wants_in ws db o))
          (after new_id ws rid o remaining (wants_in ws db o) db)
          (allocate_open new_id ws rid os
            (remaining - min remaining (wants_in ws db o))
            (after new_id ws rid o remaining (wants_in ws db o) db))
      → Poured new_id ws rid (o ∷ os) remaining db (
        ok (
          (waterfall (wants_in ws db) (remaining - min remaining (wants_in ws db o)) os).0,
          entry o.target (min remaining (wants_in ws db o))
              ∷ (waterfall (wants_in ws db) (remaining - min remaining (wants_in ws db o)) os).1,
        ),
        (allocate_open new_id ws rid os
            (remaining - min remaining (wants_in ws db o))
            (after new_id ws rid o remaining (wants_in ws db o) db)).1,
      )
  paid-Poured o os remaining db r live d positive p = record {
    returned = let e : (min remaining (wants_in ws db o) == 0) ≡ false = ground arith in rw e;
    receipts = p.receipts;
    stored = omega (
      arith,
      p.stored,
      ap (λ w. w.0) same,
      after_receipt new_id ws rid o remaining (wants_in ws db o) db live,
    );
    others = λ t h. p.others t h.1 ∙ after_ne new_id ws rid o remaining (wants_in ws db o) db t h.0;
    settled = ending p.settled;
  }
    where
      amount : ℕ
      amount = min remaining (wants_in ws db o)

      same :
          waterfall
            (wants_in ws (after new_id ws rid o remaining (wants_in ws db o) db))
            (remaining - amount)
            os
          ≡ waterfall (wants_in ws db) (remaining - amount) os
      same =
          waterfall-cong _ _ (remaining - amount) os
            (after_wants new_id ws rid o remaining (wants_in ws db o) db os d)

      used_up :
          remaining ≤ wants_in ws db o → (waterfall (wants_in ws db) (remaining - amount) os).0 ≡ 0
      used_up h =
          let e : remaining - amount ≡ 0 = omega arith in
          rw e (ap (λ w. w.0) (waterfall-empty (wants_in ws db) os))

      head_paid :
          wants_in ws db o < remaining
          → o.amount_due_pence
            ≤ get_allocated_total ws o.target
                (allocate_open new_id ws rid os
                  (remaining - amount)
                  (after new_id ws rid o remaining (wants_in ws db o) db)).1
      head_paid h = omega (
        arith,
        p.others o.target (apart o os d),
        after_self new_id ws rid o remaining (wants_in ws db o) db live,
      )

      ending :
          ((waterfall
                (wants_in ws (after new_id ws rid o remaining (wants_in ws db o) db))
                (remaining - amount)
                os).0
              ≡ 0)
            ⊎ All
                (λ q.
                  q.amount_due_pence
                  ≤ get_allocated_total ws q.target
                      (allocate_open new_id ws rid os
                        (remaining - amount)
                        (after new_id ws rid o remaining (wants_in ws db o) db)).1)
                os
          → ((waterfall (wants_in ws db) (remaining - amount) os).0 ≡ 0)
            ⊎ All
                (λ q.
                  q.amount_due_pence
                  ≤ get_allocated_total ws q.target
                      (allocate_open new_id ws rid os
                        (remaining - amount)
                        (after new_id ws rid o remaining (wants_in ws db o) db)).1)
                (o ∷ os)
      ending (inl none_left) = inl (sym (ap (λ w. w.0) same) ∙ none_left)
      ending (inr paid) = elim (Bool-cases (leb remaining (wants_in ws db o))) [
        | inl short ↦ inl (used_up (ground arith))
        | inr enough ↦ inr (head_paid (ground arith), paid)
      ]

  -- An obligation that wants nothing is passed over.
  skipped-Poured :
      (o : FinancialObligation) (os : List FinancialObligation) (remaining : ℕ) (db : Db)
      → wants_in ws db o ≡ 0
      → All (λ p. same_ref o.target p.target ≡ false) os
      → {out : Result (ℕ × List TargetAmount) × Db} → Poured new_id ws rid os remaining db out
      → Poured new_id ws rid (o ∷ os) remaining db out
  skipped-Poured o os remaining db e d {out} p = record {
    returned =
        let z : min remaining (wants_in ws db o) ≡ 0 = omega arith in
        let m : remaining - 0 ≡ remaining = omega arith in rw (z, m) p.returned;
    receipts = p.receipts;
    stored =
        let z : min remaining (wants_in ws db o) ≡ 0 = omega arith in
        let m : remaining - 0 ≡ remaining = omega arith in rw (z, m) p.stored;
    others = λ t h. p.others t h.1;
    settled = elim p.settled [
      | inl none_left ↦
          let z : min remaining (wants_in ws db o) ≡ 0 = omega arith in
          let m : remaining - 0 ≡ remaining = omega arith in inl (rw (z, m) none_left)
      | inr paid ↦ inr (omega (arith, p.others o.target (apart o os d)), paid)
    ];
  }

  stopped-Poured :
      (os : List FinancialObligation) (db : Db) → Poured new_id ws rid os 0 db (ok (0, []), db)
  stopped-Poured os db = record {
    returned = rw (waterfall-empty (wants_in ws db) os);
    receipts = refl;
    stored = rw (waterfall-empty (wants_in ws db) os);
    others = λ t h. refl;
    settled = inl (ap (λ w. w.0) (waterfall-empty (wants_in ws db) os));
  }

  paying-Poured :
      (o : FinancialObligation) (os : List FinancialObligation) (remaining : ℕ) (db : Db)
      (r : Receipt)
      → live_receipt ws rid db.receipts ≡ some r
      → get_receipt_allocated_total ws rid db + remaining ≤ r.amount_pence
      → All (λ p. same_ref o.target p.target ≡ false) os
      → existing_allocation ws rid o.target db.allocations ≡ none
      → 0 < min remaining (wants_in ws db o)
      → ((n : ℕ) (d2 : Db)
          → live_receipt ws rid d2.receipts ≡ some r
          → get_receipt_allocated_total ws rid d2 + n ≤ r.amount_pence
          → All (IsFresh new_id ws rid d2) os
          → Poured new_id ws rid os n d2 (allocate_open new_id ws rid os n d2))
      → All (IsFresh new_id ws rid db) os
      → Poured new_id ws rid (o ∷ os) remaining db (
          pay_obligation new_id ws rid o
            (allocate_open new_id ws rid os)
            remaining
            (wants_in ws db o)
            db)
  unfolding get_receipt_allocated_total
  paying-Poured o os remaining db r live room d none_yet positive pours f =
      let wants = wants_in ws db o in
      let p : Poured new_id ws rid os (remaining - min remaining wants)
          (after new_id ws rid o remaining wants db)
          (allocate_open new_id ws rid os (remaining - min remaining wants)
            (after new_id ws rid o remaining wants db)) =
        pours _ _ live (omega (arith, after_receipt new_id ws rid o remaining wants db live))
          (after-IsFresh new_id ws rid o remaining wants db os d f) in
      let same : waterfall (wants_in ws (after new_id ws rid o remaining wants db))
            (remaining - min remaining wants) os
          ≡ waterfall (wants_in ws db) (remaining - min remaining wants) os =
        waterfall-cong _ _ (remaining - min remaining wants) os
          (after_wants new_id ws rid o remaining wants db os d) in
      rw
        (pay_obligation-eq new_id ws rid o remaining wants db (allocate_open new_id ws rid os)
          (allocate_receipt-stores _ _ r positive none_yet live (omega arith))
          (p.returned ∙ ap ok same))
        (paid-Poured o os remaining db r live d positive p)

  -- The loop ends, returns what the waterfall gives, and stores exactly that.
  pub allocate_open-Poured :
      (os : List FinancialObligation) (remaining : ℕ) (db : Db) (r : Receipt)
      → live_receipt ws rid db.receipts ≡ some r
      → get_receipt_allocated_total ws rid db + remaining ≤ r.amount_pence
      → Distinct os
      → All (IsFresh new_id ws rid db) os
      → Poured new_id ws rid os remaining db (allocate_open new_id ws rid os remaining db)
  unfolding allocate_open
  allocate_open-Poured [] remaining db r live room d f = record {
    returned = refl;
    receipts = refl;
    stored = refl;
    others = λ t h. refl;
    settled = inr tt;
  }
  allocate_open-Poured (o ∷ os) remaining db r live room d f = elim (Bool-cases (leb remaining 0)) [
    | inl stop ↦ let e : remaining ≡ 0 = ground arith in rw e (stopped-Poured (o ∷ os) db)
    | inr go ↦ elim (Bool-cases (wants_in ws db o == 0)) [
      | inl paid ↦
          rw (go, paid)
            (skipped-Poured o os remaining db (ground arith) d.0
              (allocate_open-Poured os remaining db r live room d.1 f.1))
      | inr unpaid ↦
          rw (go, unpaid)
            (elim f.0 [
              | inl none_yet ↦
                  paying-Poured o os remaining db r live room d.0 none_yet (ground arith)
                    (λ n d2 l2 room2 f2. allocate_open-Poured os n d2 r l2 room2 d.1 f2) f.1
              | inr paid ↦ absurd (ground arith)
            ])
    ]
  ]
