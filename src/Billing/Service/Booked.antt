-- ===== src/Billing/Service/Booked.antt =====
-- What the booking of a lesson does when nobody else writes.
use sozan.Common.{
  arith, ℕ, ◌≤◌, ◌≡◌, refl, String, Bool, true, false, ◌&&◌, none, some, [], ◌∷◌, find_first,
  str_eq, ltb, ◌==◌, if◌then◌else◌, ge→ltb,
}
use sozan.Common.Results.{ok}
use sozan.Common.Number.{pos}
use sozan.Common.Exec.{pure, ◌>>=◌}
use sozan.Billing.Package.{package_unit_share}
use sozan.Billing.Repository.{
  by_package, BillingPlan, BillingCycle, BillingDb, is_row, is_open, is_linked, open_cycle,
  cycle_for_occurrence, insert_link, update_cycles, lock_opening, due_row, get_plan, get_open_cycle,
  get_cycle_for_occurrence, add_occurrence_to_cycle, mark_cycle_due, get_current_cycle,
}
use sozan.Billing.Package.{unit_share}
use sozan.Billing.Package.Shares.{package_unit_share-ok}
use sozan.Common.Number.{max_safe_integer}
use sozan.Billing.Repository.Valid.{IsValid}
use sozan.Billing.Service.Accepted.{open_unlinked, insert_link-accepts}
use sozan.Billing.Service.{
  get_student_billing, next_position, link_to, book, record_completed_occurrence,
}

-- The tables with the lesson linked, the opening count of its cycle locked, and the cycle due where the
-- lesson was its last.
abbrev pub with_lesson : String → String → String → BillingCycle → ℕ → BillingDb → BillingDb
with_lesson ws occurrence date c share d =
    let linked = record d { links = link_to ws occurrence c share ∷ d.links } in
    let locked = update_cycles (is_row ws c.row.id) (lock_opening d.now) linked in
    if next_position c == c.row.session_limit
    then update_cycles (λ r. is_row ws c.row.id r && is_open r.status) (due_row d.now date) locked
    else locked

module _ (new_id : ℕ → String) (ws student occurrence date : String) where
  reads_only : (d : BillingDb) → (get_student_billing ws student (d, [])).1 ≡ (d, [])
  unfolding get_student_billing get_plan get_current_cycle
  reads_only d = refl

  finished :
      (b : Bool) (id : String) (d : BillingDb)
      → (((if b then mark_cycle_due ws id date else pure tt) >>= λ u.
            get_student_billing ws student)
          (d, [])).1.0
        ≡ (if b
            then update_cycles (λ r. is_row ws id r && is_open r.status) (due_row d.now date) d
            else d)
  unfolding mark_cycle_due get_student_billing get_plan get_current_cycle
  finished true id d = refl
  finished false id d = refl

  book_adds :
      (c : BillingCycle) (share : ℕ) (d : BillingDb)
      → package_unit_share (pos c.row.price_pence) (pos c.row.session_limit) (pos (next_position c))
        ≡ ok share
      → is_linked ws c.row.id occurrence d.links ≡ false
      → insert_link (link_to ws occurrence c share) d
        ≡ (ok true, record d { links = link_to ws occurrence c share ∷ d.links })
      → book ws occurrence c (d, []) ≡ (
        ok tt,
        (
          update_cycles
              (is_row ws c.row.id)
              (lock_opening d.now)
              (record d { links = link_to ws occurrence c share ∷ d.links }),
          [],
        ),
      )
  unfolding book add_occurrence_to_cycle
  book_adds c share d earns new taken = rw (earns, new, taken)

  -- When nobody else writes, the tables are valid, the student has a package plan, the lesson is in no
  -- cycle yet and the open cycle has a place for it, with a safe price and at most 100 lessons: the
  -- booking links the lesson at the next position with the share of this position, locks the opening
  -- count of the cycle, marks the cycle as due when the lesson was its last, and changes nothing else.
  pub record_completed_occurrence-books :
      (plan : BillingPlan) (c : BillingCycle) (size price : ℕ) (d : BillingDb)
      → IsValid d
      → find_first (λ p. str_eq p.workspace_id ws && str_eq p.student_id student) d.plans
        ≡ some plan
      → plan.billing_mode ≡ by_package
      → plan.package_size ≡ some size
      → plan.package_price_pence ≡ some price
      → cycle_for_occurrence ws student occurrence d ≡ none
      → open_cycle ws student d ≡ some c
      → next_position c ≤ c.row.session_limit
      → c.row.session_limit ≤ 100
      → c.row.price_pence ≤ max_safe_integer
      → (record_completed_occurrence new_id ws student occurrence date (d, [])).1.0
        ≡ with_lesson ws occurrence date c
            (unit_share c.row.price_pence c.row.session_limit (next_position c))
            d
  unfolding record_completed_occurrence get_plan get_cycle_for_occurrence get_open_cycle
  record_completed_occurrence-books plan c size price d v planned mode sized priced fresh current
        place few safe =
      let room : ltb c.row.session_limit (next_position c) ≡ false =
        ge→ltb c.row.session_limit (next_position c) place in
      let new = open_unlinked ws student occurrence d c current fresh in
      let share = unit_share c.row.price_pence c.row.session_limit (next_position c) in
      let earns =
        package_unit_share-ok c.row.price_pence c.row.session_limit (next_position c) safe
          (omega (arith, place)) few (omega arith) place in
      let taken = insert_link-accepts ws student occurrence share d v c current place new in
      rw (planned, mode, sized, priced, fresh, current, room, book_adds c share d earns new taken)
        (finished (next_position c == c.row.session_limit) c.row.id _)
