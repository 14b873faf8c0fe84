-- ===== src/Billing/Package/Tests.antt =====
-- Runs of the package arithmetic, and the theorems at concrete inputs.
use sozan.Common.{◌≡◌, refl, false, some, ok, arith}
use sozan.Common.Number.{pos}
use sozan.Billing.Package.{PackageProgress, unit_share, package_unit_share}
use sozan.Billing.Package.Shares.{earned_upto, earned_upto-size}

share-run : package_unit_share (pos 1000) (pos 3) (pos 2) ≡ ok 333
unfolding package_unit_share unit_share
share-run = refl

earned_upto-size_example : earned_upto 1000 3 3 ≡ ok 1000
earned_upto-size_example = earned_upto-size 1000 3 (omega arith) (omega arith) (omega arith)

abbrev half_done : PackageProgress
half_done = record {
  size = 8;
  opening_completed = 3;
  real_completed = 1;
  completed = 4;
  remaining = 4;
  next_position = some 5;
  due = false;
}
