-- ===== src/Finance/Allocation.antt =====
-- src/modules/finance/allocation.service.ts: one receipt is collected against the open obligations
-- of its payer, the oldest first. The obligation providers, the maker of identifiers and the order
-- of texts are parameters.
pub mod Bounds
pub mod Waterfall
pub mod Pouring
pub mod Collect
pub mod Oldest
use Prim.Native.Nat.{Ordering, compare}
use sozan.Common.{
  ℕ, ◌+◌, ◌-◌, min, String, Option, none, some, or_default, List, [], ◌∷◌, ◌++◌, map, ltb, leb,
  ◌==◌, if◌then◌else◌,
}
use sozan.Common.Exec.{Exec, pure, throw_when, gets, ◌>>=◌, ◌>>◌}
use sozan.Common.Results.{Result, ok, err, receipt_overallocated}
use sozan.Common.Order.{Collation, then_by, sort}
use sozan.Common.Number.{Number, to_nat}
use sozan.Finance.Contracts.{
  ExternalReference, PayerReference, PaymentMethod, SourceKind, RecordReceiptCommand,
}
use sozan.Finance.Gateway.{
  Db, get_allocated_total, get_receipt_allocated_total, record_receipt, allocate_receipt,
}

pub record FinancialObligation : Type 0 where
  pub target : ExternalReference
  pub due_at : String
  pub amount_due_pence : ℕ

-- `ObligationProvider.listOpenObligations`
abbrev pub ObligationProvider : Type 0
ObligationProvider = String → PayerReference → List FinancialObligation

pub record TargetAmount : Type 0 where
  pub target : ExternalReference
  pub amount_pence : ℕ

pub record CollectionResult : Type 0 where
  pub receipt_id : String
  pub allocated_pence : ℕ
  pub credit_pence : ℕ
  pub allocations : List TargetAmount

pub record CollectCommand : Type 0 where
  pub receipt_id : Option String
  pub workspace_id : String
  pub payer : Option PayerReference
  pub amount_pence : Number
  pub received_at : String
  pub payment_method : PaymentMethod
  pub source_kind : SourceKind
  pub source : Option ExternalReference
  pub note : Option String

-- `{ ...receiptCommand, id: receiptId }`
abbrev pub with_id : CollectCommand → String → RecordReceiptCommand
with_id command id = record {
  id = id;
  workspace_id = command.workspace_id;
  payer = command.payer;
  amount_pence = command.amount_pence;
  received_at = command.received_at;
  payment_method = command.payment_method;
  source_kind = command.source_kind;
  source = command.source;
  note = command.note;
}

unfoldable pub compare_financial_obligations :
    Collation → FinancialObligation → FinancialObligation → Ordering
compare_financial_obligations c left right = then_by (c.locale_compare left.due_at right.due_at) (
    then_by (c.locale_compare left.target.module_key right.target.module_key) (
      then_by (c.locale_compare left.target.type right.target.type)
        (c.locale_compare left.target.id right.target.id)))

abbrev pub concat_map : List ObligationProvider → String → PayerReference → List FinancialObligation
concat_map [] workspace_id payer = []
concat_map (provider ∷ providers) workspace_id payer =
    provider workspace_id payer ++ concat_map providers workspace_id payer

module _ (new_id : ℕ → String) where
  -- `this.idFactory()`
  abbrev pub mint : Exec Db String
  mint db = (ok (new_id db.minted), record db { minted = db.minted + 1 })

  -- The receipt's identifier: the caller's, or a new one.
  abbrev pub choose_id : Option String → Exec Db String
  choose_id (some id) = pure id
  choose_id none = mint

  -- The part of the loop's body that pays one obligation, and then makes the rounds that follow.
  unfoldable pub pay_obligation :
      String
      → String
      → FinancialObligation
      → (ℕ → Exec Db (ℕ × List TargetAmount))
      → ℕ
      → ℕ
      → Exec Db (ℕ × List TargetAmount)
  pay_obligation workspace_id receipt_id obligation next remaining outstanding = do
    id ← mint
    let amount = min remaining outstanding
    allocate_receipt (record {
      id = id;
      workspace_id = workspace_id;
      receipt_id = receipt_id;
      target = obligation.target;
      amount_pence = amount;
    })
    made ← next (remaining - amount)
    pure (made.0, record { target = obligation.target; amount_pence = amount } ∷ made.1)

  -- The loop over the obligations: what remains of the receipt, and the allocations made.
  unfoldable pub allocate_open :
      String → String → List FinancialObligation → ℕ → Exec Db (ℕ × List TargetAmount)
  allocate_open workspace_id receipt_id [] remaining = pure (remaining, [])
  allocate_open workspace_id receipt_id (obligation ∷ obligations) remaining =
      let next = allocate_open workspace_id receipt_id obligations in
      if leb remaining 0 then pure (remaining, []) else do
        already ← gets (get_allocated_total workspace_id obligation.target)
        let outstanding = obligation.amount_due_pence - already
        if outstanding == 0
            then next remaining
            else pay_obligation workspace_id receipt_id obligation next remaining outstanding

  module _ (c : Collation) (providers : List ObligationProvider) where
    -- `if (payer && remaining > 0) { ... }`
    unfoldable pub allocate_payer :
        String → String → Option PayerReference → ℕ → Exec Db (ℕ × List TargetAmount)
    allocate_payer workspace_id receipt_id none remaining = pure (remaining, [])
    allocate_payer workspace_id receipt_id (some payer) remaining =
        if ltb 0 remaining
        then allocate_open workspace_id receipt_id
            (sort (compare_financial_obligations c) (concat_map providers workspace_id payer))
            remaining
        else pure (remaining, [])

    -- The part of `collect` after the receipt was recorded.
    unfoldable pub collect_recorded : CollectCommand → String → Exec Db CollectionResult
    collect_recorded command receipt_id = do
      previously ← gets (get_receipt_allocated_total command.workspace_id receipt_id)
      let amount = to_nat command.amount_pence
      throw_when (ltb amount previously) receipt_overallocated
      made ← allocate_payer command.workspace_id receipt_id command.payer (amount - previously)
      pure (record {
        receipt_id = receipt_id;
        allocated_pence = amount - made.0;
        credit_pence = made.0;
        allocations = made.1;
      })

    unfoldable pub collect : CollectCommand → Exec Db CollectionResult
    unfolding collect_recorded allocate_payer
    collect command = do
      receipt_id ← choose_id command.receipt_id
      record_receipt (with_id command receipt_id)
      collect_recorded command receipt_id
