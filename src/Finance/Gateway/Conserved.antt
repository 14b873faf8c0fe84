-- ===== src/Finance/Gateway/Conserved.antt =====
-- The invariant of the two tables: no live receipt is allocated beyond its amount, and every
-- allocation belongs to a receipt.
use sozan.Common.{
  ◌+◌, ◌≤◌, ◌≡◌, refl, ap, sym, ◌∙◌, String, true, false, none, some, is_some, List, [], ◌∷◌,
  str_eq, arith, eq_iff, find_first, sum_by, inl, inr, Bool-cases, All,
}
use sozan.Finance.Contracts.{ExternalReference, RecordReceiptCommand, AllocateReceiptCommand}
use sozan.Finance.Gateway.{
  Receipt, Allocation, Db, receipt_by_id, live_receipt, target_pence, receipt_pence,
  get_allocated_total, get_receipt_allocated_total, allocation_row, allocate_receipt,
  record_receipt, row_of,
}
use sozan.Finance.Gateway.Steps.{
  put_allocation, Allocates, Records, allocate_receipt-Allocates, record_receipt-Records,
}

pub record IsValid (db : Db) : Type 0 where
  pub conserved :
      (workspace_id receipt_id : String) (r : Receipt)
      → live_receipt workspace_id receipt_id db.receipts ≡ some r
      → get_receipt_allocated_total workspace_id receipt_id db ≤ r.amount_pence
  pub no_orphans : All (λ a. is_some (receipt_by_id a.receipt_id db.receipts) ≡ true) db.allocations

-- A new receipt's identifier is not that of any row to which an allocation belongs.
strangers :
    (id : String) (rows : List Receipt) (allocs : List Allocation)
    → receipt_by_id id rows ≡ none
    → All (λ a. is_some (receipt_by_id a.receipt_id rows) ≡ true) allocs
    → All (λ a. str_eq id a.receipt_id ≡ false) allocs
strangers id rows [] e h = tt
strangers id rows (a ∷ allocs) e h = (
  elim (Bool-cases (str_eq id a.receipt_id)) [
    | inl same ↦
        absurd
          (ground (arith, ap (λ i. receipt_by_id i rows) ((eq_iff id a.receipt_id).0 same), h.0))
    | inr other ↦ other
  ],
  strangers id rows allocs e h.1,
)

live_receipt-cons :
    (row : Receipt) (workspace_id id : String) (rows : List Receipt)
    → str_eq row.id id ≡ false
    → live_receipt workspace_id id (row ∷ rows) ≡ live_receipt workspace_id id rows
unfolding find_first
live_receipt-cons row workspace_id id rows h = ground arith

receipt_total-cons :
    (row : Receipt) (rows : List Receipt) (workspace_id id : String) (allocs : List Allocation)
    → All (λ a. str_eq row.id a.receipt_id ≡ false) allocs
    → sum_by (receipt_pence (row ∷ rows) workspace_id id) allocs
      ≡ sum_by (receipt_pence rows workspace_id id) allocs
receipt_total-cons row rows workspace_id id [] h = refl
receipt_total-cons row rows workspace_id id (a ∷ allocs) h = rw (
  live_receipt-cons row a.workspace_id a.receipt_id rows h.0,
  receipt_total-cons row rows workspace_id id allocs h.1,
)

target_total-cons :
    (row : Receipt) (rows : List Receipt) (workspace_id : String) (t : ExternalReference)
    (allocs : List Allocation)
    → All (λ a. str_eq row.id a.receipt_id ≡ false) allocs
    → sum_by (target_pence (row ∷ rows) workspace_id t) allocs
      ≡ sum_by (target_pence rows workspace_id t) allocs
target_total-cons row rows workspace_id t [] h = refl
target_total-cons row rows workspace_id t (a ∷ allocs) h = rw (
  live_receipt-cons row a.workspace_id a.receipt_id rows h.0,
  target_total-cons row rows workspace_id t allocs h.1,
)

known-cons :
    (row : Receipt) (rows : List Receipt) (allocs : List Allocation)
    → All (λ a. is_some (receipt_by_id a.receipt_id rows) ≡ true) allocs
    → All (λ a. is_some (receipt_by_id a.receipt_id (row ∷ rows)) ≡ true) allocs
unfolding find_first
known-cons row rows [] h = tt
known-cons row rows (a ∷ allocs) h = (ground arith, known-cons row rows allocs h.1)

-- No row of a stranger counts for the new receipt.
receipt_total-stranger :
    (rows : List Receipt) (workspace_id id : String) (allocs : List Allocation)
    → All (λ a. str_eq id a.receipt_id ≡ false) allocs
    → sum_by (receipt_pence rows workspace_id id) allocs ≡ 0
receipt_total-stranger rows workspace_id id [] h = refl
receipt_total-stranger rows workspace_id id (a ∷ allocs) h = ground (
  arith,
  receipt_total-stranger rows workspace_id id allocs h.1,
  eq_iff id a.receipt_id,
  eq_iff a.receipt_id id,
)

live-known :
    (workspace_id id : String) (rows : List Receipt) {r : Receipt}
    → live_receipt workspace_id id rows ≡ some r
    → is_some (receipt_by_id id rows) ≡ true
unfolding find_first
live-known workspace_id id [] {r} h = cc
live-known workspace_id id (x ∷ rows) {r} h =
    ground
      (arith, λ (q : live_receipt workspace_id id rows ≡ some r). live-known workspace_id id rows q)

-- A stored receipt keeps the invariant.
created-IsValid :
    (command : RecordReceiptCommand) (db : Db)
    → receipt_by_id command.id db.receipts ≡ none
    → IsValid db
    → IsValid (record db { receipts = row_of command ∷ db.receipts })
unfolding get_receipt_allocated_total find_first
created-IsValid command db e v = record {
  conserved = λ ws rid r h. elim (Bool-cases (str_eq command.id rid)) [
    | inl same ↦
        rw
          (
            receipt_total-cons (row_of command) db.receipts ws rid db.allocations others,
            ap (λ i. sum_by (receipt_pence db.receipts ws i) db.allocations)
                (sym ((eq_iff command.id rid).0 same)),
            receipt_total-stranger db.receipts ws command.id db.allocations others,
          )
          (omega arith)
    | inr other ↦
        rw (receipt_total-cons (row_of command) db.receipts ws rid db.allocations others) (
          v.conserved ws rid r
            (sym (live_receipt-cons (row_of command) ws rid db.receipts other) ∙ h))
  ];
  no_orphans = known-cons (row_of command) db.receipts db.allocations v.no_orphans;
}
  where
    others : All (λ a. str_eq command.id a.receipt_id ≡ false) db.allocations
    others = strangers command.id db.receipts db.allocations e v.no_orphans

-- A stored allocation that its receipt covers keeps the invariant.
stored-IsValid :
    (command : AllocateReceiptCommand) (db : Db) (r : Receipt)
    → live_receipt command.workspace_id command.receipt_id db.receipts ≡ some r
    → get_receipt_allocated_total command.workspace_id command.receipt_id db + command.amount_pence
      ≤ r.amount_pence
    → IsValid db
    → IsValid (put_allocation (allocation_row command) db)
unfolding get_receipt_allocated_total
stored-IsValid command db r live fits v = record {
  conserved = λ ws rid q h. ground (
    arith,
    v.conserved ws rid q h,
    eq_iff command.workspace_id ws,
    eq_iff command.receipt_id rid,
  );
  no_orphans = (live-known command.workspace_id command.receipt_id db.receipts live, v.no_orphans);
}

-- `recordReceipt` keeps the invariant, whether it returns or throws.
pub record_receipt-IsValid :
    (command : RecordReceiptCommand) (db : Db) → IsValid db → IsValid (record_receipt command db).1
record_receipt-IsValid command db v = elim (record_receipt-Records command db) [
  | Records.refused e out ↦ rw out v
  | Records.known r e same out ↦ rw out v
  | Records.created e out ↦ rw out (created-IsValid command db e v)
]

-- `allocateReceipt` keeps the invariant, whether it returns or throws.
pub allocate_receipt-IsValid :
    (command : AllocateReceiptCommand) (db : Db)
    → IsValid db
    → IsValid (allocate_receipt command db).1
allocate_receipt-IsValid command db v = elim (allocate_receipt-Allocates command db) [
  | Allocates.refused e out ↦ rw out v
  | Allocates.replayed a e same out ↦ rw out v
  | Allocates.stored r e live fits out ↦ rw out (stored-IsValid command db r live fits v)
]

-- Recording a receipt changes the total of no target.
pub record_receipt-target :
    (command : RecordReceiptCommand) (db : Db) (workspace_id : String) (t : ExternalReference)
    → IsValid db
    → get_allocated_total workspace_id t (record_receipt command db).1
      ≡ get_allocated_total workspace_id t db
unfolding get_allocated_total
record_receipt-target command db ws t v = elim (record_receipt-Records command db) [
  | Records.refused e out ↦ rw out
  | Records.known r e same out ↦ rw out
  | Records.created e out ↦ rw out (
      target_total-cons (row_of command) db.receipts ws t db.allocations
        (strangers command.id db.receipts db.allocations e v.no_orphans))
]
