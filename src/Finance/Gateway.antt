-- ===== src/Finance/Gateway.antt =====
-- src/server/adapters/d1/finance.gateway.ts: receipts and allocations in the cloud database. Each
-- query is read from its SQL; a table is the list of its rows, the newest first, since no query
-- depends on their order. `id` is the primary key of the receipts. The amount of an allocation is a
-- natural number, of which `allocateReceipt` then tests that it is positive; its test for a safe
-- integer is left out.
pub mod Steps
pub mod Totals
pub mod Conserved
use sozan.Common.{
  ℕ, ◌+◌, String, Bool, true, false, ◌&&◌, not, Option, none, some, is_some, List, [], ◌∷◌, str_eq,
  option_eq, ◌==◌, ltb, leb, if◌then◌else◌, find_first, sum_by,
}
use sozan.Common.Results.{
  receipt_id_conflict, allocation_amount_invalid, allocation_conflict, receipt_not_found,
  receipt_allocation_exceeds_amount,
}
use sozan.Common.Exec.{Exec, pure, throw, lift, gets, throw_when, modify, ◌>>=◌, ◌>>◌}
use sozan.Common.Number.{Number, to_nat}
use sozan.Finance.Contracts.{
  ExternalReference, PayerReference, PaymentMethod, SourceKind, RecordReceiptCommand,
  AllocateReceiptCommand, assert_receipt_command, same_ref, same_method, same_kind, same_payer,
  same_source,
}

-- A row of finance_receipts.
pub record Receipt : Type 0 where
  pub id : String
  pub workspace_id : String
  pub payer : Option PayerReference
  pub amount_pence : ℕ
  pub received_at : String
  pub payment_method : PaymentMethod
  pub source_kind : SourceKind
  pub source : Option ExternalReference
  pub note : Option String
  pub deleted_at : Option String

-- A row of finance_receipt_allocations.
pub record Allocation : Type 0 where
  pub id : String
  pub workspace_id : String
  pub receipt_id : String
  pub target : ExternalReference
  pub amount_pence : ℕ

-- The two tables, and how many identifiers have been made.
pub record Db : Type 0 where
  pub receipts : List Receipt
  pub allocations : List Allocation
  pub minted : ℕ

abbrev pub receipt_by_id : String → List Receipt → Option Receipt
receipt_by_id id rows = find_first (λ r. str_eq r.id id) rows

-- `WHERE workspace_id=?1 AND id=?2 AND deleted_at IS NULL`
abbrev pub is_live : String → String → Receipt → Bool
is_live workspace_id id r =
    str_eq r.workspace_id workspace_id && str_eq r.id id && not (is_some r.deleted_at)

abbrev pub live_receipt : String → String → List Receipt → Option Receipt
live_receipt workspace_id id rows = find_first (is_live workspace_id id) rows

-- What an allocation adds to the total of a target, joined with its live receipt.
abbrev pub target_pence : List Receipt → String → ExternalReference → Allocation → ℕ
target_pence rows workspace_id target a =
    if str_eq a.workspace_id workspace_id
      && same_ref a.target target
      && is_some (live_receipt a.workspace_id a.receipt_id rows)
    then a.amount_pence
    else 0

-- What an allocation adds to the total of a receipt, joined with its live receipt.
abbrev pub receipt_pence : List Receipt → String → String → Allocation → ℕ
receipt_pence rows workspace_id receipt_id a =
    if str_eq a.workspace_id workspace_id
      && str_eq a.receipt_id receipt_id
      && is_some (live_receipt a.workspace_id a.receipt_id rows)
    then a.amount_pence
    else 0

unfoldable pub get_allocated_total : String → ExternalReference → Db → ℕ
get_allocated_total workspace_id target db =
    sum_by (target_pence db.receipts workspace_id target) db.allocations

unfoldable pub get_receipt_allocated_total : String → String → Db → ℕ
get_receipt_allocated_total workspace_id receipt_id db =
    sum_by (receipt_pence db.receipts workspace_id receipt_id) db.allocations

unfoldable pub same_receipt : Receipt → RecordReceiptCommand → Bool
same_receipt existing command =
    str_eq existing.workspace_id command.workspace_id
    && same_payer existing.payer command.payer
    && existing.amount_pence == to_nat command.amount_pence
    && str_eq existing.received_at command.received_at
    && same_method existing.payment_method command.payment_method
    && same_kind existing.source_kind command.source_kind
    && same_source existing.source command.source
    && option_eq existing.note command.note

abbrev pub row_of : RecordReceiptCommand → Receipt
row_of command = record {
  id = command.id;
  workspace_id = command.workspace_id;
  payer = command.payer;
  amount_pence = to_nat command.amount_pence;
  received_at = command.received_at;
  payment_method = command.payment_method;
  source_kind = command.source_kind;
  source = command.source;
  note = command.note;
  deleted_at = none;
}

-- The part of `recordReceipt` after its first query.
abbrev pub record_found : RecordReceiptCommand → Option Receipt → Exec Db (Unit {0})
record_found command (some existing) =
    throw_when (not (same_receipt existing command)) receipt_id_conflict
record_found command none = modify (λ db. record db { receipts = row_of command ∷ db.receipts })

unfoldable pub record_receipt : RecordReceiptCommand → Exec Db (Unit {0})
record_receipt command = do
  lift (assert_receipt_command command)
  existing ← gets (λ db. receipt_by_id command.id db.receipts)
  record_found command existing

-- The allocation of a receipt to a target, if there is one.
abbrev pub existing_allocation :
    String → String → ExternalReference → List Allocation → Option Allocation
existing_allocation workspace_id receipt_id target rows =
    find_first
      (λ a.
        str_eq a.workspace_id workspace_id
        && str_eq a.receipt_id receipt_id
        && same_ref a.target target)
      rows

abbrev pub allocation_row : AllocateReceiptCommand → Allocation
allocation_row command = record {
  id = command.id;
  workspace_id = command.workspace_id;
  receipt_id = command.receipt_id;
  target = command.target;
  amount_pence = command.amount_pence;
}

-- The part of `allocateReceipt` after the receipt was looked up.
abbrev pub allocate_from : AllocateReceiptCommand → Option Receipt → Exec Db (Unit {0})
allocate_from command none = throw receipt_not_found
allocate_from command (some receipt) = do
  allocated ← gets (get_receipt_allocated_total command.workspace_id command.receipt_id)
  throw_when (ltb receipt.amount_pence (allocated + command.amount_pence))
      receipt_allocation_exceeds_amount
  modify (λ db. record db { allocations = allocation_row command ∷ db.allocations })

-- The part of `allocateReceipt` after an allocation to the same target was looked up.
abbrev pub allocate_found : AllocateReceiptCommand → Option Allocation → Exec Db (Unit {0})
allocate_found command (some existing) =
    throw_when (not (existing.amount_pence == command.amount_pence)) allocation_conflict
allocate_found command none = do
  receipt ← gets (λ db. live_receipt command.workspace_id command.receipt_id db.receipts)
  allocate_from command receipt

unfoldable pub allocate_receipt : AllocateReceiptCommand → Exec Db (Unit {0})
allocate_receipt command = do
  throw_when (leb command.amount_pence 0) allocation_amount_invalid
  existing ← gets (λ db.
      existing_allocation command.workspace_id command.receipt_id command.target db.allocations)
  allocate_found command existing
