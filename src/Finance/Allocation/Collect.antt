-- ===== src/Finance/Allocation/Collect.antt =====
-- A whole collection: its result is the waterfall over the sorted obligations, and a retry of the
-- same command changes nothing.
use text.Mathlib.TextPositions.{eq_refl}
use sozan.Common.{
  ℕ, ◌-◌, ◌≤◌, ◌≡◌, refl, sym, ap, ◌∙◌, String, true, Option, none, some, List, [], ◌∷◌, arith, ltb,
  ◌==◌, inl, inr, Bool-cases, All, sum_by, ge→ltb, option_eq, find_first,
}
use sozan.Common.Results.{Result, ok, err}
use sozan.Common.Exec.{continue, pure}
use sozan.Common.Order.{Collation, sort}
use sozan.Common.Number.{to_nat}
use sozan.Finance.Contracts.{
  ExternalReference, PayerReference, RecordReceiptCommand, assert_receipt_command, same_payer,
  same_source, same_method, same_kind, PaymentMethod, SourceKind,
}
use sozan.Finance.Gateway.{
  Db, Receipt, receipt_by_id, live_receipt, get_receipt_allocated_total, record_receipt, row_of,
  same_receipt,
}
use sozan.Finance.Gateway.Steps.{same_ref_refl}
use sozan.Finance.Gateway.Conserved.{IsValid, record_receipt-IsValid}
use sozan.Finance.Allocation.{
  FinancialObligation, ObligationProvider, CollectCommand, CollectionResult, TargetAmount,
  concat_map, with_id, compare_financial_obligations, allocate_open, allocate_payer,
  collect_recorded, collect,
}
use sozan.Finance.Allocation.Waterfall.{
  waterfall, waterfall-left, wants_in, Distinct, IsFresh, Poured, allocate_open-settled,
  allocate_open-stop,
}
use sozan.Finance.Allocation.Pouring.{allocate_open-Poured}

same_method_refl : (m : PaymentMethod) → same_method m m ≡ true
same_method_refl m = ground arith

same_kind_refl : (k : SourceKind) → same_kind k k ≡ true
same_kind_refl k = ground arith

same_payer_refl : (p : Option PayerReference) → same_payer p p ≡ true
same_payer_refl none = refl
same_payer_refl (some p) = ground (arith, eq_refl p.type, eq_refl p.id)

same_source_refl : (s : Option ExternalReference) → same_source s s ≡ true
same_source_refl none = refl
same_source_refl (some s) = same_ref_refl s

option_eq_refl : (o : Option String) → option_eq o o ≡ true
option_eq_refl none = refl
option_eq_refl (some t) = eq_refl t

same_receipt-row_of :
    (command : RecordReceiptCommand) → same_receipt (row_of command) command ≡ true
unfolding same_receipt
same_receipt-row_of c =
    let amounts : (to_nat c.amount_pence == to_nat c.amount_pence) ≡ true = ground arith in
    rw (
      eq_refl c.workspace_id,
      same_payer_refl c.payer,
      amounts,
      eq_refl c.received_at,
      same_method_refl c.payment_method,
      same_kind_refl c.source_kind,
      same_source_refl c.source,
      option_eq_refl c.note,
    )

-- A receipt that was recorded is found by the next call of the same command.
recorded_again :
    (c : RecordReceiptCommand) (db db1 d : Db) (checked : Result (Unit {0})) (o : Option Receipt)
    → assert_receipt_command c ≡ checked
    → receipt_by_id c.id db.receipts ≡ o
    → record_receipt c db ≡ (ok tt, db1)
    → d.receipts ≡ db1.receipts
    → record_receipt c d ≡ (ok tt, d)
unfolding record_receipt find_first
recorded_again c db db1 d (err e) o a f h s = cc (rw a at h)
recorded_again c db db1 d (ok u) none a f h s =
    let rows : d.receipts ≡ row_of c ∷ db.receipts =
      s ∙ sym (ap (λ x. x.1.receipts) (rw (a, f) at h)) in
    let found : receipt_by_id c.id (row_of c ∷ db.receipts) ≡ some (row_of c) = rw (eq_refl c.id) in
    rw (a, rows, found, same_receipt-row_of c)
recorded_again c db db1 d (ok u) (some r) a f h s = elim (Bool-cases (same_receipt r c)) [
  | inl same ↦
      let rows : d.receipts ≡ db.receipts =
        s ∙ sym (ap (λ x. x.1.receipts) (rw (a, f, same) at h)) in
      rw (a, rows, f, same)
  | inr differs ↦ cc (rw (a, f, differs) at h)
]

module _ (new_id : ℕ → String) (c : Collation) (providers : List ObligationProvider) where
  -- The obligations of a payer in the order in which a collection meets them.
  abbrev pub sorted_obligations : String → PayerReference → List FinancialObligation
  sorted_obligations ws payer =
      sort (compare_financial_obligations c) (concat_map providers ws payer)

  -- The result that the waterfall over those obligations gives.
  abbrev pub expected : CollectCommand → String → PayerReference → Db → CollectionResult
  expected command id payer db =
      let amount = to_nat command.amount_pence in
      let ws = command.workspace_id in
      let poured =
        waterfall (wants_in ws db) (amount - get_receipt_allocated_total ws id db)
          (sorted_obligations ws payer) in
      record {
        receipt_id = id;
        allocated_pence = amount - poured.0;
        credit_pence = poured.0;
        allocations = poured.1;
      }

  -- What a collection needs to run through: its receipt is recorded and live, and among the
  -- obligations of its payer no target occurs twice and none that still wants money has an
  -- allocation of this receipt.
  pub record IsReady (command : CollectCommand) (id : String) (payer : PayerReference) (db db1 : Db)
      (r : Receipt) : Type 0 where
    pub named : command.receipt_id ≡ some id
    pub paid_by : command.payer ≡ some payer
    pub recorded : record_receipt (with_id command id) db ≡ (ok tt, db1)
    pub live : live_receipt command.workspace_id id db1.receipts ≡ some r
    pub amount : r.amount_pence ≡ to_nat command.amount_pence
    pub distinct : Distinct (sorted_obligations command.workspace_id payer)
    pub fresh :
        All
          (IsFresh new_id command.workspace_id id db1)
          (sorted_obligations command.workspace_id payer)

  -- The part after the receipt was recorded, when the receipt is covered.
  recorded-eq :
      (command : CollectCommand) (id : String) (payer : PayerReference) (d : Db) {left : ℕ}
      {made : List TargetAmount} {d' : Db}
      → command.payer ≡ some payer
      → get_receipt_allocated_total command.workspace_id id d ≤ to_nat command.amount_pence
      → allocate_open new_id command.workspace_id id
          (sorted_obligations command.workspace_id payer)
          (to_nat command.amount_pence - get_receipt_allocated_total command.workspace_id id d)
          d
        ≡ (ok (left, made), d')
      → collect_recorded new_id c providers command id d ≡ (
        ok (record {
          receipt_id = id;
          allocated_pence = to_nat command.amount_pence - left;
          credit_pence = left;
          allocations = made;
        }),
        d',
      )
  unfolding collect_recorded allocate_payer
  recorded-eq command id payer d paid_by covered h =
      elim (Bool-cases (
        ltb 0
          (to_nat command.amount_pence - get_receipt_allocated_total command.workspace_id id d))) [
            | inl more ↦ rw (paid_by, ge→ltb (to_nat command.amount_pence) _ covered, more, h)
            | inr done ↦
                let z : to_nat command.amount_pence
                      - get_receipt_allocated_total command.workspace_id id d
                    ≡ 0 =
                  ground arith in
                rw (paid_by, ge→ltb (to_nat command.amount_pence) _ covered, done, z)
                  (ap
                    (λ x.
                      continue {S = Db} {A = ℕ × List TargetAmount} {B = CollectionResult} x.0
                        (λ made. pure (record {
                          receipt_id = id;
                          allocated_pence = to_nat command.amount_pence - made.0;
                          credit_pence = made.0;
                          allocations = made.1;
                        }))
                        x.1)
                    (sym (
                        allocate_open-stop new_id command.workspace_id id
                          (sorted_obligations command.workspace_id payer) d)
                      ∙ (rw z at h)))
          ]

  collect-recorded :
      (command : CollectCommand) (id : String) (db db1 : Db)
      → command.receipt_id ≡ some id
      → record_receipt (with_id command id) db ≡ (ok tt, db1)
      → collect new_id c providers command db ≡ collect_recorded new_id c providers command id db1
  unfolding collect
  collect-recorded command id db db1 named recorded = rw (named, recorded)

  module _ (command : CollectCommand) (id : String) (payer : PayerReference) (db db1 : Db)
      (r : Receipt) (v : IsValid db) (ready : IsReady command id payer db db1 r) where
    covered : get_receipt_allocated_total command.workspace_id id db1 ≤ to_nat command.amount_pence
    covered = rw (← ready.amount) (
        (rw ready.recorded at (record_receipt-IsValid (with_id command id) db v)).conserved
          command.workspace_id id r ready.live)

    abbrev remaining : ℕ
    remaining =
        to_nat command.amount_pence - get_receipt_allocated_total command.workspace_id id db1

    abbrev loop : Result (ℕ × List TargetAmount) × Db
    loop =
        allocate_open new_id command.workspace_id id (sorted_obligations command.workspace_id payer)
          remaining db1

    poured :
        Poured new_id command.workspace_id id
          (sorted_obligations command.workspace_id payer)
          remaining
          db1
          loop
    poured =
        allocate_open-Poured new_id command.workspace_id id _ remaining db1 r ready.live
          (omega (arith, covered, ready.amount)) ready.distinct ready.fresh

    collect-eq :
        collect new_id c providers command db ≡ (ok (expected command id payer db1), loop.1)
    collect-eq =
        collect-recorded command id db db1 ready.named ready.recorded
        ∙ recorded-eq command id payer db1 ready.paid_by covered
            (ap (λ x. (x, loop.1)) poured.returned)

    -- What the first run leaves of the amount, read from the tables.
    left_over :
        to_nat command.amount_pence - get_receipt_allocated_total command.workspace_id id loop.1
        ≡ (expected command id payer db1).credit_pence
    left_over = omega (arith, poured.stored, covered)

    -- The loop finds nothing to do with it.
    idle :
        allocate_open new_id command.workspace_id id
          (sorted_obligations command.workspace_id payer)
          (expected command id payer db1).credit_pence
          loop.1
        ≡ (ok ((expected command id payer db1).credit_pence, []), loop.1)
    idle = elim (poured.settled) [
      | inl spent ↦ rw spent (allocate_open-stop new_id command.workspace_id id _ loop.1)
      | inr paid ↦ allocate_open-settled new_id command.workspace_id id _ _ loop.1 paid
    ]

    -- A collection that is ready returns what the waterfall over its sorted obligations gives, and
    -- what the tables then hold of its receipt is what the result reports.
    pub collect_waterfall :
        ((collect new_id c providers command db).0 ≡ ok (expected command id payer db1))
        × (get_receipt_allocated_total command.workspace_id id
              (collect new_id c providers command db).1
            ≡ (expected command id payer db1).allocated_pence)
    collect_waterfall =
        (ap (λ x. x.0) collect-eq, rw collect-eq (omega (arith, poured.stored, covered)))

    -- In valid tables, let a command name the identifier of its receipt and its payer, let that receipt
    -- be recorded, live and of the command's amount, let no two obligations of the payer have one
    -- target, let none that still wants money have an allocation of this receipt, and let the providers
    -- list the same both times. Then running the command again on the tables that it left reports the
    -- same amounts, makes no allocation and changes no table.
    pub collect_retry :
        collect new_id c providers command (collect new_id c providers command db).1 ≡ (
          ok (record (expected command id payer db1) { allocations = [] }),
          (collect new_id c providers command db).1,
        )
    collect_retry = rw collect-eq (
        collect-recorded command id loop.1 loop.1 ready.named (
          recorded_again (with_id command id) db db1 loop.1 _ _ refl refl ready.recorded
            poured.receipts)
        ∙ recorded-eq command id payer loop.1 ready.paid_by (omega (arith, poured.stored, covered))
            (rw left_over idle))

    -- The credit that is left does not depend on the order of the obligations: it is what exceeds
    -- all that they still want.
    pub collect_credit :
        (expected command id payer db1).credit_pence
        ≡ remaining
          - sum_by
              (wants_in command.workspace_id db1)
              (sorted_obligations command.workspace_id payer)
    collect_credit = waterfall-left _ remaining _
