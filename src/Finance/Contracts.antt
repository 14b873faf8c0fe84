-- ===== src/Finance/Contracts.antt =====
-- src/modules/finance/contracts.ts: the values that pass between finance and its callers.
use sozan.Common.{ℕ, String, Bool, ◌&&◌, ◌||◌, not, Option, none, some, is_some, str_eq}
use sozan.Common.Results.{Result, throw_if, ◌>>◌, receipt_amount_invalid, receipt_without_payer}
use sozan.Common.Number.{Number, pos, is_safe_integer, number_lt}

pub record ExternalReference : Type 0 where
  pub module_key : String
  pub type : String
  pub id : String

pub record PayerReference : Type 0 where
  pub type : String
  pub id : String

pub data PaymentMethod : Type 0 where
  cash bank wallet other : PaymentMethod

pub data SourceKind : Type 0 where
  manual quick migration : SourceKind

pub record RecordReceiptCommand : Type 0 where
  pub id : String
  pub workspace_id : String
  pub payer : Option PayerReference
  pub amount_pence : Number
  pub received_at : String
  pub payment_method : PaymentMethod
  pub source_kind : SourceKind
  pub source : Option ExternalReference
  pub note : Option String

pub record AllocateReceiptCommand : Type 0 where
  pub id : String
  pub workspace_id : String
  pub receipt_id : String
  pub target : ExternalReference
  pub amount_pence : ℕ

unfoldable pub assert_receipt_command : RecordReceiptCommand → Result (Unit {0})
assert_receipt_command command =
    throw_if
      (not (is_safe_integer command.amount_pence) || not (number_lt (pos 0) command.amount_pence))
      receipt_amount_invalid
    >> throw_if (not (is_some command.payer) && not (is_some command.source)) receipt_without_payer

-- The same reference, as the queries compare it.
abbrev pub same_ref : ExternalReference → ExternalReference → Bool
same_ref a b = str_eq a.module_key b.module_key && str_eq a.type b.type && str_eq a.id b.id

abbrev pub same_method : PaymentMethod → PaymentMethod → Bool
same_method cash cash = Bool.true
same_method bank bank = Bool.true
same_method wallet wallet = Bool.true
same_method other other = Bool.true
same_method _ _ = Bool.false

abbrev pub same_kind : SourceKind → SourceKind → Bool
same_kind manual manual = Bool.true
same_kind quick quick = Bool.true
same_kind migration migration = Bool.true
same_kind _ _ = Bool.false

-- `existing.x === (command.payer?.x ?? null)`, for both columns at once: a stored payer has both.
abbrev pub same_payer : Option PayerReference → Option PayerReference → Bool
same_payer none none = Bool.true
same_payer (some a) (some b) = str_eq a.type b.type && str_eq a.id b.id
same_payer _ _ = Bool.false

abbrev pub same_source : Option ExternalReference → Option ExternalReference → Bool
same_source none none = Bool.true
same_source (some a) (some b) = same_ref a b
same_source _ _ = Bool.false
