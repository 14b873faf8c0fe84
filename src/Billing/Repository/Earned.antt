-- ===== src/Billing/Repository/Earned.antt =====
-- What the lessons of a cycle earn in valid tables: the shares of their positions, and the price of
-- the package when the cycle is full.
use sozan.Common.{
  ℕ, suc, ◌+◌, ◌≤◌, ◌<◌, ◌≡◌, refl, ◌∙◌, true, List, [], ◌∷◌, length, sum_by, All, All-mp,
  All-select, arith, if◌then◌else◌,
}
use sozan.Billing.Package.{unit_share}
use sozan.Billing.Package.Shares.{shares_upto, shares_upto-size}
use sozan.Billing.Repository.{
  CycleRow, Link, BillingDb, OccurrenceRow, links_of, is_link_completed, real_completed,
}
use sozan.Billing.Repository.Valid.{IsNumbered, nothing, next, IsCounted, IsValid}

-- The sum of `earned_pence` over the lessons of a cycle.
abbrev pub earned_pence_of : CycleRow → BillingDb → ℕ
earned_pence_of c db = sum_by (λ l. l.earned_pence) (links_of c db.links)

earned-shares :
    (opening limit price : ℕ) (ls : List Link)
    → IsNumbered opening limit price ls
    → sum_by (λ l. l.earned_pence) ls + shares_upto price limit opening
      ≡ shares_upto price limit (opening + length ls)
earned-shares opening limit price [] nothing =
    let e : opening + 0 ≡ opening = omega arith in rw e (omega arith)
earned-shares opening limit price (l ∷ ls) (next _ _ position fits share other h) =
    let e : opening + suc (length ls) ≡ suc (opening + length ls) = omega arith in
    let s : l.earned_pence ≡ unit_share price limit (suc (opening + length ls)) =
      share ∙ rw (position, e) in
    rw (e, s) (omega (arith, earned-shares opening limit price ls h))

completed_all :
    (occurrences : List OccurrenceRow) (ls : List Link)
    → All (λ l. is_link_completed occurrences l ≡ true) ls
    → sum_by (λ l. if is_link_completed occurrences l then 1 else 0) ls ≡ length ls
completed_all occurrences [] h = refl
completed_all occurrences (l ∷ ls) h = rw h.0 (omega (arith, completed_all occurrences ls h.1))

pub real_completed-length :
    (c : CycleRow) (db : BillingDb)
    → IsValid db
    → real_completed c db ≡ length (links_of c db.links)
unfolding real_completed links_of
real_completed-length c db v = completed_all db.occurrences _ (All-select _ _ db.links v.taught)

fits_numbered :
    (opening limit price : ℕ) (ls : List Link)
    → opening ≤ limit
    → IsNumbered opening limit price ls
    → opening + length ls ≤ limit
fits_numbered opening limit price [] le nothing = omega arith
fits_numbered opening limit price (l ∷ ls) le (next _ _ position fits share other h) = omega arith

fits_of :
    (c : CycleRow) (db : BillingDb)
    → IsValid db
    → IsCounted db.links c
    → c.opening_completed_count + real_completed c db ≤ c.session_limit
fits_of c db v h = rw (real_completed-length c db v) (fits_numbered _ _ _ _ h.0 h.1)

earned_of :
    (c : CycleRow) (db : BillingDb)
    → IsValid db
    → IsCounted db.links c
    → earned_pence_of c db + shares_upto c.price_pence c.session_limit c.opening_completed_count
      ≡ shares_upto c.price_pence c.session_limit (c.opening_completed_count + real_completed c db)
earned_of c db v h = rw (real_completed-length c db v) (
    earned-shares c.opening_completed_count c.session_limit c.price_pence (links_of c db.links) h.1)

module _ (db : BillingDb) (v : IsValid db) where
  -- In valid tables the earnings that the lessons of a cycle have stored are the shares of the
  -- positions from its opening count on, as many as lessons are completed; the count never passes
  -- the size of the package.
  pub earned_pence_of-shares :
      All
        (λ c.
          (earned_pence_of c db
              + shares_upto c.price_pence c.session_limit c.opening_completed_count
            ≡ shares_upto c.price_pence c.session_limit
                (c.opening_completed_count + real_completed c db))
          × (c.opening_completed_count + real_completed c db ≤ c.session_limit))
        db.cycles
  earned_pence_of-shares =
      All-mp db.cycles (λ c h. (earned_of c db v h, fits_of c db v h)) v.counted

  -- In valid tables a package without opening progress, whose lessons are all completed, has stored
  -- earnings that add up to its price, to the penny.
  pub whole_cycle-price :
      (c : CycleRow)
      → IsCounted db.links c
      → 0 < c.session_limit
      → c.opening_completed_count ≡ 0
      → real_completed c db ≡ c.session_limit
      → earned_pence_of c db ≡ c.price_pence
  unfolding links_of
  whole_cycle-price c h positive start full =
      let all : c.opening_completed_count + real_completed c db ≡ c.session_limit = omega arith in
      let sum = earned_of c db v h in
      omega (arith, rw (all, start) at sum, shares_upto-size c.price_pence c.session_limit positive)
