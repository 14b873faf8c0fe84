-- ===== src/Finance/Gateway/Steps.antt =====
-- What one call of the gateway can do to the tables.
use text.Mathlib.TextPositions.{eq_refl}
use sozan.Common.{
  ◌+◌, ◌≤◌, ◌≡◌, refl, true, Option, none, some, ◌∷◌, arith, eq_iff, ltb, leb, ◌==◌, inl, inr,
  Bool-cases,
}
use sozan.Common.Results.{
  Error, Result, ok, err, receipt_allocation_exceeds_amount, allocation_conflict,
  receipt_id_conflict,
}
use sozan.Finance.Contracts.{
  ExternalReference, RecordReceiptCommand, AllocateReceiptCommand, same_ref, assert_receipt_command,
}
use sozan.Finance.Gateway.{
  Receipt, Allocation, Db, receipt_by_id, live_receipt, get_receipt_allocated_total,
  existing_allocation, allocation_row, allocate_found, allocate_from, allocate_receipt,
  record_receipt, row_of, same_receipt, record_found,
}

pub same_ref_refl : (a : ExternalReference) → same_ref a a ≡ true
same_ref_refl a = ground (arith, eq_refl a.module_key, eq_refl a.type, eq_refl a.id)

pub same_ref-eq : (a b : ExternalReference) → same_ref a b ≡ true → a ≡ b
same_ref-eq a b h =
    ground (arith, eq_iff a.module_key b.module_key, eq_iff a.type b.type, eq_iff a.id b.id)

-- One row more in the table of allocations.
abbrev pub put_allocation : Allocation → Db → Db
put_allocation a db = record db { allocations = a ∷ db.allocations }

-- How a call of `allocate_receipt` ends: it throws and stores nothing, it finds the same
-- allocation, or it stores one row that the receipt still covers.
pub data Allocates (command : AllocateReceiptCommand) (db : Db) (out : Result (Unit {0}) × Db)
    : Type 0 where
  refused : (e : Error) → out ≡ (err e, db) → Allocates command db out
  replayed :
      (a : Allocation)
      → existing_allocation command.workspace_id command.receipt_id command.target db.allocations
        ≡ some a
      → a.amount_pence ≡ command.amount_pence
      → out ≡ (ok tt, db)
      → Allocates command db out
  stored :
      (r : Receipt)
      → existing_allocation command.workspace_id command.receipt_id command.target db.allocations
        ≡ none
      → live_receipt command.workspace_id command.receipt_id db.receipts ≡ some r
      → get_receipt_allocated_total command.workspace_id command.receipt_id db
          + command.amount_pence
        ≤ r.amount_pence
      → out ≡ (ok tt, put_allocation (allocation_row command) db)
      → Allocates command db out

allocate_from-Allocates :
    (command : AllocateReceiptCommand) (db : Db) (o : Option Receipt)
    → existing_allocation command.workspace_id command.receipt_id command.target db.allocations
      ≡ none
    → live_receipt command.workspace_id command.receipt_id db.receipts ≡ o
    → Allocates command db (allocate_from command o db)
allocate_from-Allocates command db none e l = refused _ refl
allocate_from-Allocates command db (some r) e l =
    elim (Bool-cases (
      ltb r.amount_pence (
        get_receipt_allocated_total command.workspace_id command.receipt_id db
        + command.amount_pence))) [
          | inl over ↦ refused receipt_allocation_exceeds_amount (rw over)
          | inr fits ↦ stored r e l (ground arith) (rw fits)
        ]

allocate_found-Allocates :
    (command : AllocateReceiptCommand) (db : Db) (o : Option Allocation)
    → existing_allocation command.workspace_id command.receipt_id command.target db.allocations ≡ o
    → Allocates command db (allocate_found command o db)
allocate_found-Allocates command db none e = allocate_from-Allocates command db _ e refl
allocate_found-Allocates command db (some a) e =
    elim (Bool-cases (a.amount_pence == command.amount_pence)) [
      | inl same ↦ replayed a e (ground arith) (rw same)
      | inr differs ↦ refused allocation_conflict (rw differs)
    ]

pub allocate_receipt-Allocates :
    (command : AllocateReceiptCommand) (db : Db)
    → Allocates command db (allocate_receipt command db)
unfolding allocate_receipt
allocate_receipt-Allocates command db = elim (Bool-cases (leb command.amount_pence 0)) [
  | inl bad ↦ rw bad (refused _ refl)
  | inr good ↦ rw good (allocate_found-Allocates command db _ refl)
]

-- How a call of `record_receipt` ends: it throws, it finds the same receipt, or it stores one row
-- under an identifier that no row had.
pub data Records (command : RecordReceiptCommand) (db : Db) (out : Result (Unit {0}) × Db)
    : Type 0 where
  refused : (e : Error) → out ≡ (err e, db) → Records command db out
  known :
      (r : Receipt)
      → receipt_by_id command.id db.receipts ≡ some r
      → same_receipt r command ≡ true
      → out ≡ (ok tt, db)
      → Records command db out
  created :
      receipt_by_id command.id db.receipts ≡ none
      → out ≡ (ok tt, record db { receipts = row_of command ∷ db.receipts })
      → Records command db out

record_found-Records :
    (command : RecordReceiptCommand) (db : Db) (o : Option Receipt)
    → receipt_by_id command.id db.receipts ≡ o
    → Records command db (record_found command o db)
record_found-Records command db none e = Records.created e refl
record_found-Records command db (some r) e = elim (Bool-cases (same_receipt r command)) [
  | inl same ↦ Records.known r e same (rw same)
  | inr differs ↦ Records.refused receipt_id_conflict (rw differs)
]

asserted-Records :
    (command : RecordReceiptCommand) (db : Db) (checked : Result (Unit {0}))
    → assert_receipt_command command ≡ checked
    → Records command db (record_receipt command db)
unfolding record_receipt
asserted-Records command db (ok u) e = rw e (record_found-Records command db _ refl)
asserted-Records command db (err x) e = rw e (Records.refused x refl)

pub record_receipt-Records :
    (command : RecordReceiptCommand) (db : Db) → Records command db (record_receipt command db)
record_receipt-Records command db = asserted-Records command db _ refl
