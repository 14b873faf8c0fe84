-- ===== src/Finance/Allocation/Bounds.antt =====
-- What a collection never does: allocate a receipt beyond its amount, or pay a target beyond what
-- is due.
use sozan.Common.{
  ℕ, ◌+◌, ◌-◌, ◌≤◌, ◌≡◌, refl, String, Option, none, some, List, [], ◌∷◌, arith, ltb, leb, ◌==◌,
  inl, inr, Bool-cases, All,
}
use sozan.Common.Exec.{Exec, bind_keeps, ◌>>=◌, ◌>>◌}
use sozan.Common.Number.{to_nat}
use sozan.Common.Order.{Collation, All-sort}
use sozan.Finance.Contracts.{
  PayerReference, RecordReceiptCommand, ExternalReference, AllocateReceiptCommand, same_ref,
}
use sozan.Finance.Gateway.{
  Allocation, record_receipt, Db, get_allocated_total, get_receipt_allocated_total,
  allocate_receipt, allocation_row,
}
use sozan.Finance.Gateway.Steps.{same_ref-eq, Allocates, allocate_receipt-Allocates}
use sozan.Finance.Gateway.Conserved.{
  IsValid, record_receipt-IsValid, allocate_receipt-IsValid, record_receipt-target,
}
use sozan.Finance.Gateway.Steps.{put_allocation}
use sozan.Finance.Gateway.Totals.{target_total_ne, target_total_le}
use sozan.Finance.Allocation.{
  ObligationProvider, CollectCommand, concat_map, CollectionResult, collect_recorded, choose_id,
  with_id, allocate_payer, compare_financial_obligations, FinancialObligation, TargetAmount,
  allocate_open, pay_obligation, mint, collect,
}

-- What every stored row and every new identifier keep is kept by the whole loop.
module _ (P : Db → Type 0) (Q : FinancialObligation → Type 0) (new_id : ℕ → String) (ws : String)
    (mints : (db : Db) → P db → P (mint new_id db).1)
    (allocates : (o : FinancialObligation)
      → Q o
      → (command : AllocateReceiptCommand) (db : Db) → command.workspace_id ≡ ws
      → command.target ≡ o.target
      → command.amount_pence + get_allocated_total ws o.target db ≤ o.amount_due_pence
      → P db
      → P (allocate_receipt command db).1) where
  pay_obligation_keeps :
      (rid : String) (o : FinancialObligation) (next : ℕ → Exec Db (ℕ × List TargetAmount))
      (remaining outstanding : ℕ) (db : Db)
      → Q o
      → outstanding + get_allocated_total ws o.target db ≤ o.amount_due_pence
      → ((n : ℕ) (d : Db) → P d → P (next n d).1)
      → P db
      → P (pay_obligation new_id ws rid o next remaining outstanding db).1
  unfolding pay_obligation get_allocated_total
  pay_obligation_keeps rid o next remaining outstanding db q room then_ p =
      bind_keeps P (allocate_receipt _) _ _ (allocates o q _ _ refl refl (omega arith) (mints db p))
        (λ _ _.
          bind_keeps P (next _) _ _
            (then_ _ _ (allocates o q _ _ refl refl (omega arith) (mints db p)))
            (λ _ _. then_ _ _ (allocates o q _ _ refl refl (omega arith) (mints db p))))

  allocate_open_keeps :
      (rid : String) (os : List FinancialObligation) (remaining : ℕ) (db : Db)
      → All Q os
      → P db
      → P (allocate_open new_id ws rid os remaining db).1
  unfolding allocate_open
  allocate_open_keeps rid [] remaining db qs p = p
  allocate_open_keeps rid (o ∷ os) remaining db qs p = elim (Bool-cases (leb remaining 0)) [
    | inl stop ↦ rw stop p
    | inr go ↦
        rw go (elim (Bool-cases (o.amount_due_pence - get_allocated_total ws o.target db == 0)) [
          | inl paid ↦ rw paid (allocate_open_keeps rid os remaining db qs.1 p)
          | inr unpaid ↦ rw unpaid (
              pay_obligation_keeps rid o (allocate_open new_id ws rid os) remaining _ db qs.0
                (ground arith) (λ n d k. allocate_open_keeps rid os n d qs.1 k) p)
        ])
  ]

  module _ (c : Collation) (providers : List ObligationProvider)
      (records : (command : RecordReceiptCommand) (db : Db)
        → P db
        → P (record_receipt command db).1) where
    allocate_payer_keeps :
        (rid : String) (payer : Option PayerReference) (remaining : ℕ) (db : Db)
        → ((p : PayerReference) → All Q (concat_map providers ws p))
        → P db
        → P (allocate_payer new_id c providers ws rid payer remaining db).1
    unfolding allocate_payer
    allocate_payer_keeps rid none remaining db qs p = p
    allocate_payer_keeps rid (some payer) remaining db qs p = elim (Bool-cases (ltb 0 remaining)) [
      | inl more ↦ rw more (
          allocate_open_keeps rid _ remaining db
            (All-sort (compare_financial_obligations c) Q _ (qs payer)) p)
      | inr done ↦ rw done p
    ]

    collect_recorded_keeps :
        (command : CollectCommand) (rid : String) (db : Db)
        → command.workspace_id ≡ ws
        → ((p : PayerReference) → All Q (concat_map providers ws p))
        → P db
        → P (collect_recorded new_id c providers command rid db).1
    unfolding collect_recorded
    collect_recorded_keeps command rid db e qs p =
        elim (Bool-cases (
          ltb (to_nat command.amount_pence)
            (get_receipt_allocated_total command.workspace_id rid db))) [
              | inl over ↦ rw over p
              | inr fits ↦
                  rw (fits, e)
                    (bind_keeps P (allocate_payer new_id c providers ws rid command.payer _) _ db
                      (allocate_payer_keeps rid command.payer _ db qs p)
                      (λ _ _. allocate_payer_keeps rid command.payer _ db qs p))
            ]

    recorded_keeps :
        (command : CollectCommand) (rid : String) (db : Db)
        → command.workspace_id ≡ ws
        → ((p : PayerReference) → All Q (concat_map providers ws p))
        → P db
        → P
            ((record_receipt (with_id command rid)
                >> collect_recorded new_id c providers command rid)
              db).1
    recorded_keeps command rid db e qs p =
        bind_keeps P (record_receipt (with_id command rid)) _ db (records _ db p)
          (λ _ _. collect_recorded_keeps command rid _ e qs (records _ db p))

    choose_keeps :
        (o : Option String) (k : String → Exec Db CollectionResult) (db : Db)
        → ((rid : String) (d : Db) → P d → P (k rid d).1)
        → P db
        → P ((choose_id new_id o >>= k) db).1
    choose_keeps none k db then_ p = then_ _ _ (mints db p)
    choose_keeps (some rid) k db then_ p = then_ rid db p

    pub collect_keeps :
        (command : CollectCommand) (db : Db)
        → command.workspace_id ≡ ws
        → ((p : PayerReference) → All Q (concat_map providers ws p))
        → P db
        → P (collect new_id c providers command db).1
    unfolding collect
    collect_keeps command db e qs p =
        choose_keeps command.receipt_id _ db (λ rid d k. recorded_keeps command rid d e qs k) p

module _ (new_id : ℕ → String) (c : Collation) (providers : List ObligationProvider) where
  mint-IsValid : (db : Db) → IsValid db → IsValid (mint new_id db).1
  unfolding get_receipt_allocated_total
  mint-IsValid db v = record { conserved = v.conserved; no_orphans = v.no_orphans }

  All-Unit : (os : List FinancialObligation) → All (λ _. Unit {0}) os
  All-Unit [] = tt
  All-Unit (o ∷ os) = (tt, All-Unit os)

  -- A collection keeps the invariant of the tables, whatever the command, whatever the providers
  -- list, and whether it returns or throws half-way: no live receipt is allocated beyond its amount.
  pub collect-IsValid :
      (command : CollectCommand) (db : Db)
      → IsValid db
      → IsValid (collect new_id c providers command db).1
  collect-IsValid command db v =
      collect_keeps IsValid (λ _. Unit {0}) new_id command.workspace_id mint-IsValid
        (λ o q cmd d ew et room k. allocate_receipt-IsValid cmd d k) c providers
        record_receipt-IsValid command db refl (λ p. All-Unit _) v

  put-AtMost :
      (ws : String) (limit : ExternalReference → ℕ) (o : FinancialObligation) (a : Allocation)
      (db : Db)
      → o.amount_due_pence ≤ limit o.target
      → a.target ≡ o.target
      → a.amount_pence + get_allocated_total ws o.target db ≤ o.amount_due_pence
      → (t : ExternalReference) → get_allocated_total ws t db ≤ limit t
      → get_allocated_total ws t (put_allocation a db) ≤ limit t
  put-AtMost ws limit o a db due et room t m = elim (Bool-cases (same_ref a.target t)) [
    | inl same ↦
        rw (← same_ref-eq a.target t same)
          (rw et (omega (arith, rw et at (target_total_le ws a db a.target))))
    | inr other ↦ rw (target_total_ne ws a db t other) m
  ]

  allocate_receipt-AtMost :
      (ws : String) (limit : ExternalReference → ℕ) (o : FinancialObligation)
      → o.amount_due_pence ≤ limit o.target
      → (command : AllocateReceiptCommand) (db : Db) → command.target ≡ o.target
      → command.amount_pence + get_allocated_total ws o.target db ≤ o.amount_due_pence
      → (t : ExternalReference) → get_allocated_total ws t db ≤ limit t
      → get_allocated_total ws t (allocate_receipt command db).1 ≤ limit t
  allocate_receipt-AtMost ws limit o due command db et room t m =
      elim (allocate_receipt-Allocates command db) [
        | Allocates.refused e out ↦ rw out m
        | Allocates.replayed a e same out ↦ rw out m
        | Allocates.stored r e live fits out ↦
            rw out (put-AtMost ws limit o (allocation_row command) db due et room t m)
      ]

  -- Whatever `limit` is set for the targets of a workspace, if no target is allocated more than its
  -- limit before a collection, and no obligation listed for a payer is over the limit of its target,
  -- then no target is allocated more than its limit after it, also where it throws half-way.
  pub collect-AtMost :
      (limit : ExternalReference → ℕ) (command : CollectCommand) (db : Db)
      → IsValid db
      → ((p : PayerReference)
          → All
              (λ o. o.amount_due_pence ≤ limit o.target)
              (concat_map providers command.workspace_id p))
      → ((t : ExternalReference) → get_allocated_total command.workspace_id t db ≤ limit t)
      → (t : ExternalReference)
      → get_allocated_total command.workspace_id t (collect new_id c providers command db).1
        ≤ limit t
  unfolding get_allocated_total
  collect-AtMost limit command db v due m =
      (collect_keeps
        (λ d.
          IsValid d
          × ((t : ExternalReference) → get_allocated_total command.workspace_id t d ≤ limit t))
        (λ o. o.amount_due_pence ≤ limit o.target) new_id command.workspace_id
        (λ d k. (mint-IsValid d k.0, k.1))
        (λ o q cmd d ew et room k. (
          allocate_receipt-IsValid cmd d k.0,
          λ t. allocate_receipt-AtMost command.workspace_id limit o q cmd d et room t (k.1 t),
        ))
        c providers
        (λ cmd d k. (
          record_receipt-IsValid cmd d k.0,
          λ t. rw (record_receipt-target cmd d command.workspace_id t k.0) (k.1 t),
        ))
        command db refl due (v, m)).1
