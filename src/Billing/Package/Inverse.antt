-- ===== src/Billing/Package/Inverse.antt =====
-- What the checked share returns, when it returns.
use sozan.Common.{ℕ, ◌≡◌, inl, inr, Bool-cases, ◌||◌, not}
use sozan.Common.Results.{ok}
use sozan.Common.Number.{pos, not_natural, is_safe_integer, number_lt}
use sozan.Billing.Package.{unit_share, package_unit_share, bad_size}

pub package_unit_share-inv :
    (total size position : ℕ) {share : ℕ}
    → package_unit_share (pos total) (pos size) (pos position) ≡ ok share
    → share ≡ unit_share total size position
unfolding package_unit_share
package_unit_share-inv total size position h = elim (Bool-cases (not_natural (pos total))) [
  | inl bad ↦ cc (rw bad at h)
  | inr fine ↦ elim (Bool-cases (bad_size (pos size))) [
    | inl bad ↦ cc (rw (fine, bad) at h)
    | inr fair ↦
        elim (Bool-cases (
          not (is_safe_integer (pos position))
          || number_lt (pos position) (pos 1)
          || number_lt (pos size) (pos position))) [
            | inl bad ↦ cc (rw (fine, fair, bad) at h)
            | inr inside ↦ cc (rw (fine, fair, inside) at h)
          ]
  ]
]
