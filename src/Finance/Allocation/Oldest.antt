-- ===== src/Finance/Allocation/Oldest.antt =====
-- The order in which a collection meets the obligations.
use sozan.Common.{ℕ, String, List}
use mathlib.Core.List.{Perm}
use sozan.Common.Order.{
  Collation, IsPreorder, then_by-IsPreorder, key-IsPreorder, IsSorted, sort-perm, sort-IsSorted,
}
use sozan.Finance.Contracts.{PayerReference}
use sozan.Finance.Allocation.{ObligationProvider, compare_financial_obligations, concat_map}
use sozan.Finance.Allocation.Collect.{sorted_obligations}

compare-IsPreorder : (c : Collation) → IsPreorder (compare_financial_obligations c)
unfolding compare_financial_obligations
compare-IsPreorder c = then_by-IsPreorder _ _ (key-IsPreorder c (λ o. o.due_at)) (
    then_by-IsPreorder _ _ (key-IsPreorder c (λ o. o.target.module_key)) (
      then_by-IsPreorder _ _ (key-IsPreorder c (λ o. o.target.type))
        (key-IsPreorder c (λ o. o.target.id))))

-- A collection meets every obligation that its providers list, as often as they list it, and none
-- before one that is due earlier; equal dates are ordered by module, type and identifier.
pub sorted_obligations-lem :
    (new_id : ℕ → String) (c : Collation) (providers : List ObligationProvider) (ws : String)
    (payer : PayerReference)
    → IsSorted (compare_financial_obligations c) (sorted_obligations new_id c providers ws payer)
      × Perm (sorted_obligations new_id c providers ws payer) (concat_map providers ws payer)
sorted_obligations-lem new_id c providers ws payer = (
  sort-IsSorted (compare_financial_obligations c) (compare-IsPreorder c) _,
  sort-perm (compare_financial_obligations c) _,
)
