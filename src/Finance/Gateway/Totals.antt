-- ===== src/Finance/Gateway/Totals.antt =====
-- The totals of targets and receipts after one more allocation.
use text.Mathlib.TextPositions.{eq_refl}
use sozan.Common.{◌+◌, ◌≤◌, ◌≡◌, String, false, some, ◌∷◌, arith, find_first}
use sozan.Finance.Contracts.{ExternalReference, same_ref}
use sozan.Finance.Gateway.{
  Db, Receipt, Allocation, live_receipt, get_allocated_total, get_receipt_allocated_total,
  existing_allocation,
}
use sozan.Finance.Gateway.Steps.{put_allocation, same_ref_refl}

module _ (ws : String) (a : Allocation) (db : Db) where
  pub target_total_ne :
      (t : ExternalReference)
      → same_ref a.target t ≡ false
      → get_allocated_total ws t (put_allocation a db) ≡ get_allocated_total ws t db
  unfolding get_allocated_total
  target_total_ne t h = rw h (ground arith)

  pub target_total_le :
      (t : ExternalReference)
      → get_allocated_total ws t (put_allocation a db)
        ≤ a.amount_pence + get_allocated_total ws t db
  unfolding get_allocated_total
  target_total_le t = ground arith

  -- An allocation of a live receipt counts for its target.
  pub target_total_self :
      (r : Receipt)
      → live_receipt ws a.receipt_id db.receipts ≡ some r
      → a.workspace_id ≡ ws
      → get_allocated_total ws a.target (put_allocation a db)
        ≡ a.amount_pence + get_allocated_total ws a.target db
  unfolding get_allocated_total
  target_total_self r live e = rw (e, same_ref_refl a.target, eq_refl ws, live)

  pub receipt_total_self :
      (r : Receipt)
      → live_receipt ws a.receipt_id db.receipts ≡ some r
      → a.workspace_id ≡ ws
      → get_receipt_allocated_total ws a.receipt_id (put_allocation a db)
        ≡ a.amount_pence + get_receipt_allocated_total ws a.receipt_id db
  unfolding get_receipt_allocated_total
  receipt_total_self r live e = rw (e, eq_refl ws, eq_refl a.receipt_id, live)

  pub existing_ne :
      (rid : String) (t : ExternalReference)
      → same_ref a.target t ≡ false
      → existing_allocation ws rid t (a ∷ db.allocations)
        ≡ existing_allocation ws rid t db.allocations
  unfolding find_first
  existing_ne rid t h = rw h (ground arith)
