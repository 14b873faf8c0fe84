-- ===== src/Billing/Package/Progress.antt =====
-- The progress of a package: what is accepted, and how the fields hang together.
use sozan.Common.{is_ok, true, ℕ, ◌+◌, ◌≤◌, ◌≡◌, ◌↔◌, true, none, some, ok, arith}
use sozan.Common.Number.{Number, pos, to_nat}
use sozan.Billing.Package.{PackageProgress, package_progress, progress_of}

-- The fields of a progress hang together: what is done and what remains make the size, the next
-- position follows what is done, and a package is due exactly when nothing remains.
pub record IsConsistent (p : PackageProgress) : Type 0 where
  pub done : p.completed ≡ p.opening_completed + p.real_completed
  pub whole : p.completed + p.remaining ≡ p.size
  pub next : (k : ℕ) → (p.next_position ≡ some k) ↔ ((k ≡ p.completed + 1) × (k ≤ p.size))
  pub due_iff : (p.due ≡ true) ↔ (p.next_position ≡ none)

progress_of-IsConsistent :
    (size opening real : ℕ) {p : PackageProgress}
    → progress_of size opening real ≡ ok p
    → IsConsistent p
unfolding progress_of
progress_of-IsConsistent size opening real {p} h = record {
  done = ground arith;
  whole = ground arith;
  next = λ k. (ground arith, ground arith);
  due_iff = (ground arith, ground arith);
}

package_progress-parts :
    (size opening real : Number) {p : PackageProgress}
    → package_progress size opening real ≡ ok p
    → progress_of (to_nat size) (to_nat opening) (to_nat real) ≡ ok p
unfolding package_progress
package_progress-parts size opening real h = ground arith

-- Whatever numbers `package_progress` is called with, a progress that it returns is consistent.
pub package_progress-IsConsistent :
    (size opening real : Number) {p : PackageProgress}
    → package_progress size opening real ≡ ok p
    → IsConsistent p
package_progress-IsConsistent size opening real h =
    progress_of-IsConsistent (to_nat size) (to_nat opening) (to_nat real)
      (package_progress-parts size opening real h)

-- A progress is returned for exactly the counts that fit a package of 1 to 100 lessons.
pub package_progress_accepts :
    (size opening real : ℕ)
    → (is_ok (package_progress (pos size) (pos opening) (pos real)) ≡ true)
      ↔ ((1 ≤ size) × (size ≤ 100) × (opening + real ≤ size))
unfolding package_progress progress_of
package_progress_accepts size opening real = (λ h. ground arith, λ h. ground arith)
