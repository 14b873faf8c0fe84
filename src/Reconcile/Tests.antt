-- ===== src/Reconcile/Tests.antt =====
-- The reconciliation at concrete inputs: a student with a package whose lessons were taken before it
-- was recorded, the next package, and one receipt that pays the first.
use sozan.Reconcile.{max_text}
use sozan.Common.{filter_map, find_first, select}
use sozan.Billing.Repository.{links_of, real_completed}
use sozan.Common.{
  ◌≡◌, refl, String, Bool, true, false, none, some, [], ◌∷◌, map, inl, inr, if◌then◌else◌, arith,
  eq_iff,
}
use Prim.Native.Nat.{Ordering}
use mathlib.Core.List.{Memᴰ}
use sozan.Common.Results.{ok}
use sozan.Common.Order.{Collation}
use sozan.Billing.Repository.{CycleRow, opened}
use sozan.Billing.Repository.Valid.{IsDistinct}
use sozan.Finance.Contracts.{cash, manual}
use sozan.Finance.Gateway.{Db, get_receipt_allocated_total}
use sozan.Finance.Gateway.Conserved.{IsValid}
use sozan.Sync.Push.{SyncMutation}
use sozan.Reconcile.{Ledger, is_current, normalize_cycles}
use sozan.Reconcile.Students.{after_apply}
use sozan.Reconcile.Normalized.{with_cycles, normalized, IsDated, normalize_cycles-passes}
use sozan.Reconcile.Twice.{normalize_cycles-twice}
use sozan.Reconcile.Kept.{after_apply-IsValid}

abbrev never : String → String → Bool
never a b = false

abbrev first : CycleRow
first = record {
  id = "c1";
  workspace_id = "w";
  student_id = "s";
  sequence_no = 1;
  session_limit = 2;
  price_pence = 100;
  opening_completed_count = 2;
  opening_progress_locked_at = none;
  status = opened;
  started_on = some "2026-01-01";
  completed_on = none;
  paid_on = none;
}

abbrev second : CycleRow
second = record first { id = "c2"; sequence_no = 2; opening_completed_count = 0 }

abbrev finance : Db
finance = record {
  receipts =
      record {
        id = "r";
        workspace_id = "w";
        payer = some (record { type = "tutoring.student"; id = "s" });
        amount_pence = 100;
        received_at = "2026-02-01";
        payment_method = cash;
        source_kind = manual;
        source = none;
        note = none;
        deleted_at = none;
      }
      ∷ [];
  allocations =
      record {
        id = "a";
        workspace_id = "w";
        receipt_id = "r";
        target = record { module_key = "tutoring"; type = "package_cycle"; id = "c1" };
        amount_pence = 100;
      }
      ∷ [];
  minted = 0;
}

abbrev ledger : Ledger
ledger = record {
  billing = record {
    plans = [];
    cycles = first ∷ second ∷ [];
    links = [];
    occurrences = [];
    session_students = [];
    now = "2026-03-01";
    minted = 0;
  };
  finance = finance;
  lessons = [];
  attended = [];
  families = [];
  created_at = λ id. "2026-01-01";
}

distinct : IsDistinct ledger.billing.cycles
distinct = ((refl, tt), (tt, tt))

dated_first : IsDated never "w" ledger first
unfolding max_text filter_map
dated_first = record { stored = Memᴰ.head refl; has_date = inr ("2026-01-01", refl) }

dated_second : IsDated never "w" ledger second
unfolding real_completed links_of select
dated_second = record { stored = Memᴰ.tail (Memᴰ.head refl); has_date = inl refl }

dated :
    (r : CycleRow)
    → Memᴰ r ledger.billing.cycles
    → is_current "w" "s" r ≡ true
    → IsDated never "w" ledger r
dated r (Memᴰ.head e) h = rw e dated_first
dated r (Memᴰ.tail (Memᴰ.head e)) h = rw e dated_second
dated r (Memᴰ.tail (Memᴰ.tail m)) h = elim m [ ]

normalize_cycles-passes_example : normalize_cycles never "w" "s" ledger ≡ (
  ok tt,
  with_cycles
      (map
        (λ r. if is_current "w" "s" r then normalized never "w" ledger r else r)
        (first ∷ second ∷ []))
      ledger,
)
normalize_cycles-passes_example = normalize_cycles-passes never "w" ledger distinct "s" dated

normalize_cycles-twice_example :
    normalize_cycles never "w" "s" (normalize_cycles never "w" "s" ledger).1
    ≡ (ok tt, (normalize_cycles never "w" "s" ledger).1)
normalize_cycles-twice_example = normalize_cycles-twice never "w" ledger distinct "s" dated

covered : IsValid finance
unfolding find_first get_receipt_allocated_total
covered = record {
  conserved = λ ws id r found. ground (arith, eq_iff "r" id, eq_iff "w" ws);
  no_orphans = (refl, tt);
}

abbrev by_nothing : Collation
by_nothing = record {
  locale_compare = λ a b. Ordering.eq;
  compare_flip = λ a b. refl;
  compare_trans = λ a b c h k. refl;
}

abbrev configured : SyncMutation
configured = record {
  id = "m";
  workspace_id = "w";
  module_key = "tutoring";
  operation = "billing.configure";
  entity_type = "student";
  entity_id = "s";
  payload = "{}";
  created_at = "2026-03-01";
}

after_apply-IsValid_example :
    IsValid
      (after_apply never (λ n. "new") by_nothing (λ ws d. "s" ∷ []) "w" configured ledger).1.finance
after_apply-IsValid_example =
    after_apply-IsValid never (λ n. "new") by_nothing (λ ws d. "s" ∷ []) "w" configured ledger
      covered
