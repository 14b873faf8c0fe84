-- ===== src/Billing/Service/Keeps.antt =====
-- Booking a lesson keeps the tables of the packages valid, whatever honest others do between its
-- statements, whether it returns or throws.
use sozan.Common.{
  ℕ, zero, suc, ◌+◌, ◌≡◌, inl, inr, Bool-cases, String, Bool, true, ◌&&◌, Option, none, some,
  str_eq, if◌then◌else◌, find_first,
}
use sozan.Common.Results.{Result, ok, err}
use sozan.Common.Number.{pos}
use sozan.Common.Exec.{Exec, pure, ◌>>=◌}
use sozan.Common.Interleave.{World}
use sozan.Common.Interleave.Triples.{
  Outcome, Outcome-both, OrNone, Holds, IsRespected, Runs, statement-Runs, pure-Runs, throw-Runs,
  if-Runs, lift-Runs, catching-Runs, from-Runs, bind-Runs,
}
use sozan.Billing.Package.{package_unit_share, unit_share}
use sozan.Billing.Package.Inverse.{package_unit_share-inv}
use sozan.Billing.Repository.{
  BillingPlan, CycleRow, BillingCycle, Link, BillingDb, query, run_sql, get_plan, get_current_cycle,
  get_open_cycle, get_cycle_for_occurrence, get_next_sequence_no, create_cycle, inserted,
  insert_cycle, insert_link, add_occurrence_to_cycle, explain_refusal, refused_link, mark_cycle_due,
  update_cycles, lock_opening, due_row, links_of, max_sequence, is_row, is_open,
  is_lesson_completed, open_cycle, current_cycle,
}
use sozan.Billing.Repository.Valid.{IsValid, HasTerms, insert_cycle-IsValid, update_cycles-IsValid}
use sozan.Billing.Repository.Linked.{insert_link-IsValid}
use sozan.Billing.Repository.Terms.{OfSome, open_cycle-HasTerms, current_cycle-HasTerms}
use sozan.Billing.Plan.{StudentBillingSnapshot}
use sozan.Billing.Service.{
  get_student_billing, mint, create_next, next_cycle, cycle_or_new, is_retried, finish_linked,
  next_position, link_to, book, finish_booked, book_in, attempt_from, book_attempts, book_under,
  book_planned, record_completed_occurrence,
}
use sozan.Billing.Service.Honest.{
  Honest, lock-IsGentle, due-IsGentle, insert_cycle-lessons, with_minted, insert_link-lessons,
  shares_of,
}

module _ (ws occurrence : String) where
  -- The tables are valid, and the lesson is completed.
  abbrev pub Ready : BillingDb → Type 0
  Ready d = IsValid d × (is_lesson_completed ws occurrence d.occurrences ≡ true)

  abbrev pub ReadyFor : BillingCycle → BillingDb → Type 0
  ReadyFor c d = Ready d × HasTerms c.row d

  Ready-IsRespected : IsRespected Honest Ready
  Ready-IsRespected g h d r = (h.valid d r.0, h.lessons ws occurrence d r.1)

  ReadyFor-IsRespected : (c : BillingCycle) → IsRespected Honest (ReadyFor c)
  ReadyFor-IsRespected c g h d r = (Ready-IsRespected g h d r.0, h.terms c.row d r.1)

  query-Runs : {A : Type 0} (f : BillingDb → A) → Runs Honest Ready Ready (λ a. Ready) (query f)
  query-Runs f = statement-Runs _ Ready-IsRespected (λ d r. r)

  snapshot-Runs :
      (student : String) → Runs Honest Ready Ready (λ a. Ready) (get_student_billing ws student)
  unfolding get_student_billing get_plan get_current_cycle
  snapshot-Runs student =
      bind-Runs (λ a. Ready) _ _ (query-Runs _)
        (λ plan.
          bind-Runs (λ a. Ready) _ _ (query-Runs _)
            (λ cycle. lift-Runs _ (λ a e d r. r) (λ d r. r)))

  mark-Runs : (id date : String) → Runs Honest Ready Ready (λ a. Ready) (mark_cycle_due ws id date)
  unfolding mark_cycle_due links_of
  mark-Runs id date = statement-Runs _ Ready-IsRespected (λ d r. (
    update_cycles-IsValid _ (due_row d.now date) (due-IsGentle d.now date) d (λ c e h. h) r.0,
    r.1,
  ))

  -- Marking a cycle as due where a test says so, and then reading the result.
  finish-Runs :
      (b : Bool) (student id date : String)
      → Runs Honest Ready Ready
          (λ a. Ready)
          ((if b then mark_cycle_due ws id date else pure tt) >>= λ u.
            get_student_billing ws student)
  finish-Runs b student id date =
      bind-Runs (λ a. Ready) _ _
        (if-Runs b _ _ (λ e. mark-Runs id date) (λ e. pure-Runs tt (λ d r. r)))
        (λ u. snapshot-Runs student)

  abbrev pub MayFor : Option BillingCycle → BillingDb → Type 0
  MayFor = OrNone ReadyFor Ready

  may_open :
      (d : BillingDb)
      → Ready d
      → (o : Option BillingCycle) → OfSome (λ c. HasTerms c.row d) o
      → MayFor o d
  may_open d r none t = r
  may_open d r (some c) t = (r, t)

  open-Runs : (student : String) → Runs Honest Ready Ready MayFor (get_open_cycle ws student)
  unfolding get_open_cycle
  open-Runs student =
      statement-Runs _ Ready-IsRespected
        (λ d r. may_open d r _ (open_cycle-HasTerms ws student d r.0))

  inserted-Runs : (o : Option BillingCycle) → Runs Honest Ready (MayFor o) ReadyFor (inserted o)
  inserted-Runs none = throw-Runs _ (λ d r. r)
  inserted-Runs (some c) = pure-Runs c (λ d r. r)

  insert-Ready : (row : CycleRow) (d : BillingDb) → Ready d → Ready (insert_cycle row d)
  insert-Ready row d r =
      (insert_cycle-IsValid row d r.0, insert_cycle-lessons ws occurrence row d r.1)

  created :
      (row : CycleRow) (d : BillingDb)
      → Ready d
      → MayFor
          ((if is_open row.status
              then open_cycle row.workspace_id row.student_id
              else current_cycle row.workspace_id row.student_id)
            d)
          d
  created row d r = elim (Bool-cases (is_open row.status)) [
    | inl e ↦ rw e (may_open d r _ (open_cycle-HasTerms row.workspace_id row.student_id d r.0))
    | inr e ↦ rw e (may_open d r _ (current_cycle-HasTerms row.workspace_id row.student_id d r.0))
  ]

  create-Runs : (row : CycleRow) → Runs Honest Ready Ready ReadyFor (create_cycle row)
  unfolding create_cycle
  create-Runs row =
      bind-Runs (λ a. Ready) _ _ (statement-Runs _ Ready-IsRespected (insert-Ready row))
        (λ u. bind-Runs MayFor _ _ (statement-Runs _ Ready-IsRespected (created row)) inserted-Runs)

  mint-Runs : (new_id : ℕ → String) → Runs Honest Ready Ready (λ a. Ready) (mint new_id)
  mint-Runs new_id = record { run = λ w h. ((with_minted w.0 h.here.0, h.here.1), h.others) }

  next-Runs :
      (new_id : ℕ → String) (student date : String) (size price : ℕ)
      → Runs Honest Ready Ready ReadyFor (create_next new_id ws student size price date)
  unfolding create_next get_next_sequence_no
  next-Runs new_id student date size price =
      bind-Runs (λ a. Ready) _ _ (mint-Runs new_id)
        (λ id.
          bind-Runs (λ a. Ready) _ _ (query-Runs (λ db. max_sequence ws student db.cycles + 1))
            (λ sequence. create-Runs (next_cycle new_id id ws student sequence size price date)))

  cycle-Runs :
      (new_id : ℕ → String) (student date : String) (size price : ℕ) (o : Option BillingCycle)
      → Runs Honest Ready (MayFor o) MayFor (cycle_or_new new_id ws student size price date o)
  cycle-Runs new_id student date size price (some c) = pure-Runs (some c) (λ d r. r)
  cycle-Runs new_id student date size price none =
      catching-Runs (λ e. true) _ (next-Runs new_id student date size price)

  refused-Runs :
      (o : Option CycleRow) (n : ℕ) → Runs Honest Ready Ready (λ a. Ready) (refused_link o n)
  refused-Runs none n = throw-Runs _ (λ d r. r)
  refused-Runs (some c) n =
      if-Runs _ _ _ (λ e. throw-Runs _ (λ d r. r)) (λ e. throw-Runs _ (λ d r. r))

  explain-Runs : (l : Link) → Runs Honest Ready Ready (λ a. Ready) (explain_refusal l)
  unfolding explain_refusal
  explain-Runs l =
      bind-Runs (λ a. Ready) _ _ (query-Runs _)
        (λ linked.
          if-Runs linked _ _ (λ e. pure-Runs tt (λ d r. r))
            (λ e.
              bind-Runs (λ a. Ready) _ _ (query-Runs _) (λ found. refused-Runs found.0 found.1)))

  lock-Runs :
      (l : Link)
      → Runs Honest Ready Ready
          (λ a. Ready)
          (run_sql (λ db.
            update_cycles (is_row l.workspace_id l.billing_cycle_id) (lock_opening db.now) db))
  unfolding links_of
  lock-Runs l = statement-Runs _ Ready-IsRespected (λ d r.
      (update_cycles-IsValid _ (lock_opening d.now) (lock-IsGentle d.now) d (λ c e h. h) r.0, r.1))

  link-Ready :
      (c : BillingCycle) (share : ℕ)
      → share ≡ unit_share c.row.price_pence c.row.session_limit (next_position c)
      → (d : BillingDb) → ReadyFor c d
      → Ready (insert_link (link_to ws occurrence c share) d).1
  link-Ready c share e d r = (
    insert_link-IsValid (link_to ws occurrence c share) d
        (shares_of c ws occurrence share e d.cycles r.1) r.0.1 r.0.0,
    insert_link-lessons ws occurrence (link_to ws occurrence c share) d r.0.1,
  )

  add-Runs :
      (c : BillingCycle) (share : ℕ)
      → share ≡ unit_share c.row.price_pence c.row.session_limit (next_position c)
      → Runs Honest Ready
          (ReadyFor c)
          (λ a. Ready)
          (add_occurrence_to_cycle (link_to ws occurrence c share))
  unfolding add_occurrence_to_cycle
  add-Runs c share e =
      bind-Runs (λ a. ReadyFor c) _ _ (statement-Runs _ (ReadyFor-IsRespected c) (λ d r. r))
        (λ existing.
          if-Runs existing _ _ (λ t. pure-Runs tt (λ d r. r.0))
            (λ t.
              bind-Runs (λ a. Ready) _ _
                (statement-Runs _ (ReadyFor-IsRespected c)
                  (λ d r. Outcome-both Ready _ _ (link-Ready c share e d r)))
                (λ changed.
                  if-Runs changed _ _ (λ t. lock-Runs (link_to ws occurrence c share))
                    (λ t. explain-Runs (link_to ws occurrence c share)))))

  book-Runs :
      (c : BillingCycle) → Runs Honest Ready (ReadyFor c) (λ a. Ready) (book ws occurrence c)
  unfolding book
  book-Runs c =
      bind-Runs
        (λ share d.
          ReadyFor c d
          × (package_unit_share (pos c.row.price_pence) (pos c.row.session_limit)
                (pos (next_position c))
              ≡ ok share))
        _ _ (lift-Runs _ (λ share e d r. (r, e)) (λ d r. r.0))
        (λ share. record {
          run = λ w h.
              (add-Runs c share (
                  package_unit_share-inv c.row.price_pence c.row.session_limit (next_position c)
                    h.here.1)).run
                w (record { here = h.here.0; others = h.others });
        })

  outcome-IsValid :
      {A : Type 0} (r : Result A) (d : BillingDb) → Outcome (λ a. Ready) Ready r d → IsValid d
  outcome-IsValid (ok a) d h = h.0
  outcome-IsValid (err e) d h = h.0

  module _ (new_id : ℕ → String) (student date : String) where
    booked-Runs :
        (c : BillingCycle) (again : Exec (World BillingDb) StudentBillingSnapshot)
        (o : Option (Unit {0}))
        → Runs Honest Ready Ready (λ a. Ready) again
        → Runs Honest Ready
            (OrNone (λ a. Ready) Ready o)
            (λ a. Ready)
            (finish_booked ws student date c again o)
    booked-Runs c again none k = k
    booked-Runs c again (some u) k = finish-Runs _ student c.row.id date

    in-Runs :
        (again : Exec (World BillingDb) StudentBillingSnapshot) (o : Option BillingCycle)
        → Runs Honest Ready Ready (λ a. Ready) again
        → Runs Honest Ready (MayFor o) (λ a. Ready) (book_in ws student occurrence date again o)
    in-Runs again none k = k
    in-Runs again (some c) k =
        if-Runs _ _ _ (λ e. from-Runs _ _ k (λ d r. r.0))
          (λ e.
            bind-Runs (OrNone (λ a. Ready) Ready) _ _ (catching-Runs is_retried _ (book-Runs c))
              (λ o. booked-Runs c again o k))

    attempt-Runs :
        (size price : ℕ) (again : Exec (World BillingDb) StudentBillingSnapshot)
        (o : Option BillingCycle)
        → Runs Honest Ready Ready (λ a. Ready) again
        → Runs Honest Ready Ready
            (λ a. Ready)
            (attempt_from new_id ws student occurrence date size price again o)
    unfolding finish_linked
    attempt-Runs size price again (some c) k = finish-Runs _ student c.row.id date
    attempt-Runs size price again none k = bind-Runs MayFor _ _ (open-Runs student) (λ found.
        bind-Runs MayFor _ _ (cycle-Runs new_id student date size price found)
          (λ o. in-Runs again o k))

    attempts-Runs :
        (size price attempts : ℕ)
        → Runs Honest Ready Ready
            (λ a. Ready)
            (book_attempts new_id ws student occurrence date size price attempts)
    unfolding book_attempts get_cycle_for_occurrence
    attempts-Runs size price zero = throw-Runs _ (λ d r. r)
    attempts-Runs size price (suc attempts) =
        bind-Runs (λ a. Ready) _ _ (query-Runs _)
          (λ linked. attempt-Runs size price _ linked (attempts-Runs size price attempts))

    under-Runs :
        (size price : Option ℕ)
        → Runs Honest Ready Ready
            (λ a. Ready)
            (book_under new_id ws student occurrence date size price)
    under-Runs (some size) (some price) = attempts-Runs size price 4
    under-Runs none price = throw-Runs _ (λ d r. r)
    under-Runs (some size) none = throw-Runs _ (λ d r. r)

    planned-Runs :
        (plan : Option BillingPlan)
        → Runs Honest Ready Ready (λ a. Ready) (book_planned new_id ws student occurrence date plan)
    planned-Runs none = snapshot-Runs student
    planned-Runs (some plan) =
        if-Runs _ _ _ (λ e. under-Runs plan.package_size plan.package_price_pence)
          (λ e. snapshot-Runs student)

    -- Whatever honest others do between its statements, and whether it returns or throws: the booking
    -- of a completed lesson leaves valid tables. In every cycle the lessons then have the positions that
    -- follow the opening count, no lesson stands twice, none lies beyond the size of the package, and
    -- each earns the share of its position.
    pub record_completed_occurrence-IsValid :
        (w : World BillingDb)
        → Holds Honest Ready w
        → IsValid (record_completed_occurrence new_id ws student occurrence date w).1.0
    unfolding record_completed_occurrence get_plan
    record_completed_occurrence-IsValid w h =
        outcome-IsValid _ _
          ((bind-Runs {E = Ready} (λ a. Ready) _ _
              (query-Runs (λ db.
                find_first (λ p. str_eq p.workspace_id ws && str_eq p.student_id student) db.plans))
              planned-Runs).run
            w h).0
