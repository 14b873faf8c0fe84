-- ===== src/Finance/Tests.antt =====
-- Runs of a collection on small tables, and the theorems at concrete inputs.
use Prim.Native.Nat.{compare, Ordering}
use Prim.Native.String.{len}
use sozan.Common.{
  ℕ, ◌≤◌, ◌≡◌, refl, String, none, some, false, [], ◌∷◌, arith, All, inl, find_first, eq_iff,
}
use sozan.Common.Results.{ok}
use sozan.Common.Order.{Collation, flip, is_gt, sort}
use sozan.Common.Number.{pos}
use sozan.Finance.Contracts.{
  ExternalReference, PayerReference, cash, manual, assert_receipt_command,
}
use sozan.Finance.Gateway.{
  Db, Receipt, Allocation, record_receipt, allocate_receipt, get_allocated_total,
  get_receipt_allocated_total, row_of,
}
use sozan.Finance.Gateway.Conserved.{IsValid}
use sozan.Finance.Allocation.{
  FinancialObligation, ObligationProvider, CollectCommand, allocate_open, pay_obligation, collect,
  with_id, compare_financial_obligations, concat_map,
}
use sozan.Finance.Allocation.Bounds.{collect-IsValid, collect-AtMost}
use sozan.Finance.Allocation.Waterfall.{entry}
use sozan.Finance.Allocation.Collect.{IsReady, expected, collect_waterfall, collect_retry}

-- An order of texts that meets the laws: by their length.
abbrev length_compare : String → String → Ordering
length_compare a b = compare (len a) (len b)

flip_law : (a b : String) → length_compare b a ≡ flip (length_compare a b)
flip_law a b = ground arith

trans_law :
    (a b c : String)
    → is_gt (length_compare a b) ≡ false
    → is_gt (length_compare b c) ≡ false
    → is_gt (length_compare a c) ≡ false
trans_law a b c h k = ground arith

abbrev by_length : Collation
by_length = record {
  locale_compare = length_compare;
  compare_flip = flip_law;
  compare_trans = trans_law;
}

abbrev ids : ℕ → String
ids n = "new"

abbrev lesson : String → ExternalReference
lesson id = record { module_key = "tutoring"; type = "student_occurrence"; id = id }

abbrev sara : PayerReference
sara = record { type = "tutoring.student"; id = "sara" }

abbrev due : String → String → ℕ → FinancialObligation
due id at n = record { target = lesson id; due_at = at; amount_due_pence = n }

-- Listed out of order; the text of the last date is the longest.
abbrev provider : ObligationProvider
provider ws payer =
    due "l3" "2024-05-03T" 700 ∷ due "l1" "2024-05-1" 300 ∷ due "l2" "2024-05-2" 500 ∷ []

abbrev command : CollectCommand
command = record {
  receipt_id = some "r2";
  workspace_id = "w";
  payer = some sara;
  amount_pence = pos 900;
  received_at = "2024-06-01";
  payment_method = cash;
  source_kind = manual;
  source = none;
  note = none;
}

abbrev old_receipt : Receipt
old_receipt = record {
  id = "r1";
  workspace_id = "w";
  payer = some sara;
  amount_pence = 100;
  received_at = "2024-05-01";
  payment_method = cash;
  source_kind = manual;
  source = none;
  note = none;
  deleted_at = none;
}

abbrev old_allocation : Allocation
old_allocation = record {
  id = "a1";
  workspace_id = "w";
  receipt_id = "r1";
  target = lesson "l1";
  amount_pence = 100;
}

abbrev tables : Db
tables = record { receipts = old_receipt ∷ []; allocations = old_allocation ∷ []; minted = 1 }

abbrev recorded : Db
recorded = record tables { receipts = row_of (with_id command "r2") ∷ old_receipt ∷ [] }

-- 200 of the first lesson, which had 100, and all of the second; 200 of the third.
collect-run :
    (collect ids by_length (provider ∷ []) command tables).0
    ≡ ok (record {
      receipt_id = "r2";
      allocated_pence = 900;
      credit_pence = 0;
      allocations =
          entry (lesson "l1") 200 ∷ entry (lesson "l2") 500 ∷ entry (lesson "l3") 200 ∷ [];
    })
unfolding collect record_receipt allocate_receipt assert_receipt_command find_first
    get_allocated_total get_receipt_allocated_total allocate_open sort compare_financial_obligations
    pay_obligation
collect-run = refl

tables-IsValid : IsValid tables
unfolding find_first get_receipt_allocated_total
tables-IsValid = record {
  conserved = λ ws rid r h. ground (arith, eq_iff "r1" rid, eq_iff "w" ws);
  no_orphans = (refl, tt);
}

abbrev limits : ExternalReference → ℕ
limits t = 700

obligations_within :
    (p : PayerReference)
    → All (λ o. o.amount_due_pence ≤ limits o.target) (concat_map (provider ∷ []) "w" p)
obligations_within p = omega arith

totals_within : (t : ExternalReference) → get_allocated_total "w" t tables ≤ limits t
unfolding get_allocated_total
totals_within t = ground arith

is_ready :
    IsReady ids by_length
      (provider ∷ [])
      command
      "r2"
      sara
      tables
      recorded
      (row_of (with_id command "r2"))
unfolding record_receipt assert_receipt_command find_first sort compare_financial_obligations
is_ready = record {
  named = refl;
  paid_by = refl;
  recorded = refl;
  live = refl;
  amount = refl;
  distinct = ((refl, (refl, tt)), ((refl, tt), (tt, tt)));
  fresh = (inl refl, (inl refl, (inl refl, tt)));
}

collect-IsValid_example : IsValid (collect ids by_length (provider ∷ []) command tables).1
collect-IsValid_example =
    collect-IsValid ids by_length (provider ∷ []) command tables tables-IsValid

collect-AtMost_example :
    get_allocated_total "w" (lesson "l1") (collect ids by_length (provider ∷ []) command tables).1
    ≤ 700
collect-AtMost_example =
    collect-AtMost ids by_length (provider ∷ []) limits command tables tables-IsValid
      obligations_within totals_within (lesson "l1")

collect_waterfall_example :
    ((collect ids by_length (provider ∷ []) command tables).0
      ≡ ok (expected ids by_length (provider ∷ []) command "r2" sara recorded))
    × (get_receipt_allocated_total "w" "r2" (collect ids by_length (provider ∷ []) command tables).1
        ≡ (expected ids by_length (provider ∷ []) command "r2" sara recorded).allocated_pence)
collect_waterfall_example =
    collect_waterfall ids by_length (provider ∷ []) command "r2" sara tables recorded
      (row_of (with_id command "r2")) tables-IsValid is_ready

collect_retry_example :
    collect ids by_length
      (provider ∷ [])
      command
      (collect ids by_length (provider ∷ []) command tables).1
    ≡ (
      ok (record (expected ids by_length (provider ∷ []) command "r2" sara recorded) {
        allocations = [];
      }),
      (collect ids by_length (provider ∷ []) command tables).1,
    )
collect_retry_example =
    collect_retry ids by_length (provider ∷ []) command "r2" sara tables recorded
      (row_of (with_id command "r2")) tables-IsValid is_ready
