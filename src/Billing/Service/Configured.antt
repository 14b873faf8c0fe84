-- ===== src/Billing/Service/Configured.antt =====
-- Configuring the billing of a student keeps the tables of the packages valid, whatever honest others
-- do between its statements.
use sozan.Common.{
  ℕ, ◌+◌, ◌≤◌, ◌≡◌, refl, inl, inr, Bool-cases, String, Option, none, some, or_default, arith, ltb,
  ◌==◌, if◌then◌else◌,
}
use sozan.Common.Results.{Result, ok, err}
use sozan.Common.Exec.{pure, lift, ◌>>=◌}
use sozan.Common.Interleave.{World}
use sozan.Common.Interleave.Triples.{
  Outcome, OrNone, Holds, IsRespected, Runs, statement-Runs, pure-Runs, throw-Runs, if-Runs,
  lift-Runs, bind-Runs,
}
use sozan.Billing.Repository.{
  BillingPlan, CycleRow, BillingCycle, BillingDb, CycleStatus, opened, due, query, get_plan,
  upsert_plan, has_billing_history, get_current_cycle, create_cycle, inserted, opening_changes,
  update_opening_progress,
}
use sozan.Billing.Repository.Valid.{IsValid, HasTerms, insert_cycle-IsValid, update_cycles_counted}
use sozan.Billing.Repository.Terms.{OfSome, current_cycle-HasTerms}
use sozan.Billing.Plan.{ConfigureBillingInput, per_session_from, package_from, check_opening}
use sozan.Billing.Service.{get_student_billing, mint}
use sozan.Billing.Service.Configuration.{
  plan_of, change_opening, first_cycle, start_first_cycle, current_for, configure,
}
use sozan.Billing.Service.Honest.{Honest, with_minted}
use sozan.Billing.Repository.Reopened.{reopened, reopened-IsGentle, rows_counted}

abbrev ValidFor : BillingCycle → BillingDb → Type 0
ValidFor c d = IsValid d × HasTerms c.row d

IsValid-IsRespected : IsRespected Honest IsValid
IsValid-IsRespected g h d v = h.valid d v

ValidFor-IsRespected : (c : BillingCycle) → IsRespected Honest (ValidFor c)
ValidFor-IsRespected c g h d v = (h.valid d v.0, h.terms c.row d v.1)

abbrev CurrentFor : Option BillingCycle → BillingDb → Type 0
CurrentFor = OrNone ValidFor IsValid

CurrentFor-IsValid : (o : Option BillingCycle) (d : BillingDb) → CurrentFor o d → IsValid d
CurrentFor-IsValid none d v = v
CurrentFor-IsValid (some c) d v = v.0

found_current :
    (d : BillingDb)
    → IsValid d
    → (o : Option BillingCycle) → OfSome (λ c. HasTerms c.row d) o
    → CurrentFor o d
found_current d v none t = v
found_current d v (some c) t = (v, t)

outcome-IsValid :
    {A : Type 0} (r : Result A) (d : BillingDb) → Outcome (λ a. IsValid) IsValid r d → IsValid d
outcome-IsValid (ok a) d h = h
outcome-IsValid (err e) d h = h

query-Runs : {A : Type 0} (f : BillingDb → A) → Runs Honest IsValid IsValid (λ a. IsValid) (query f)
query-Runs f = statement-Runs _ IsValid-IsRespected (λ d v. v)

snapshot-Runs :
    (ws student : String)
    → Runs Honest IsValid IsValid (λ a. IsValid) (get_student_billing ws student)
unfolding get_student_billing get_plan get_current_cycle
snapshot-Runs ws student =
    bind-Runs (λ a. IsValid) _ _ (query-Runs _)
      (λ plan.
        bind-Runs (λ a. IsValid) _ _ (query-Runs _)
          (λ cycle. lift-Runs _ (λ a e d v. v) (λ d v. v)))

opening_fits :
    (c : BillingCycle) (size price : ℕ) (date : String) (anchor : Option String) (opening : ℕ)
    {u : Unit {0}}
    → check_opening (some c) (package_from size price date anchor opening) ≡ ok u
    → opening ≤ c.row.session_limit
opening_fits c size price date anchor opening h =
    elim (Bool-cases (ltb c.row.session_limit opening)) [
      | inl over ↦ cc (rw over at h)
      | inr fits ↦ ground arith
    ]

update-Runs :
    (ws : String) (c : BillingCycle) (opening : ℕ) (status : CycleStatus)
    (completed_on : Option String)
    → opening ≤ c.row.session_limit
    → Runs Honest IsValid
        (ValidFor c)
        (λ a. IsValid)
        (update_opening_progress ws c.row.id opening status completed_on)
unfolding update_opening_progress
update-Runs ws c opening status completed_on fits =
    bind-Runs (λ a. IsValid) _ _
      (statement-Runs _ (ValidFor-IsRespected c) (λ d v.
        update_cycles_counted (opening_changes ws c.row.id d)
          (reopened ws c.row.id opening status completed_on)
          (reopened-IsGentle ws c.row.id opening status completed_on) d
          (rows_counted ws c.row.id opening status completed_on c d v.0 fits refl d.cycles v.1)
          v.0))
      (λ changed. if-Runs changed _ _ (λ e. pure-Runs tt (λ d v. v)) (λ e. throw-Runs _ (λ d v. v)))

change-Runs :
    (ws : String) (current : Option BillingCycle) (input : ConfigureBillingInput) {u : Unit {0}}
    → check_opening current input ≡ ok u
    → Runs Honest IsValid (CurrentFor current) (λ a. IsValid) (change_opening ws current input)
unfolding change_opening
change-Runs ws none (per_session_from date) e = pure-Runs tt (λ d v. v)
change-Runs ws none (package_from size price date anchor opening) e = pure-Runs tt (λ d v. v)
change-Runs ws (some c) (per_session_from date) e = pure-Runs tt (λ d v. v.0)
change-Runs ws (some c) (package_from size price date anchor opening) e =
    let full = opening + c.real_completed_count == c.row.session_limit in
    let status = if full then due else opened in
    let completed_on = if full then some (or_default c.row.completed_on date) else none in
    if-Runs (c.row.opening_completed_count == opening) (pure tt)
      (update_opening_progress ws c.row.id opening status completed_on)
      (λ same. pure-Runs tt (λ d v. v.0))
      (λ other.
        update-Runs ws c opening status completed_on
          (opening_fits c size price date anchor opening e))

plan-Runs : (plan : BillingPlan) → Runs Honest IsValid IsValid (λ a. IsValid) (upsert_plan plan)
unfolding upsert_plan
plan-Runs plan = statement-Runs _ IsValid-IsRespected (λ d v. record {
  counted = v.counted;
  distinct = v.distinct;
  owned = v.owned;
  taught = v.taught;
})

inserted-Runs : (o : Option BillingCycle) → Runs Honest IsValid IsValid (λ a. IsValid) (inserted o)
inserted-Runs none = throw-Runs _ (λ d v. v)
inserted-Runs (some c) = pure-Runs c (λ d v. v)

create-Runs : (row : CycleRow) → Runs Honest IsValid IsValid (λ a. IsValid) (create_cycle row)
unfolding create_cycle
create-Runs row =
    bind-Runs (λ a. IsValid) _ _ (statement-Runs _ IsValid-IsRespected (insert_cycle-IsValid row))
      (λ u. bind-Runs (λ a. IsValid) _ _ (query-Runs _) inserted-Runs)

module _ (new_id : ℕ → String) (ws student : String) where
  mint-Runs : Runs Honest IsValid IsValid (λ a. IsValid) (mint new_id)
  mint-Runs = record { run = λ w h. (with_minted w.0 h.here, h.others) }

  start-Runs :
      (current : Option BillingCycle) (input : ConfigureBillingInput)
      → Runs Honest IsValid IsValid
          (λ a. IsValid)
          (start_first_cycle new_id ws student current input)
  unfolding start_first_cycle
  start-Runs none (per_session_from date) = pure-Runs tt (λ d v. v)
  start-Runs (some c) (per_session_from date) = pure-Runs tt (λ d v. v)
  start-Runs (some c) (package_from size price date anchor opening) = pure-Runs tt (λ d v. v)
  start-Runs none (package_from size price date anchor opening) =
      bind-Runs (λ a. IsValid) _ _ mint-Runs
        (λ id.
          bind-Runs (λ a. IsValid) _ _
            (create-Runs (first_cycle new_id id ws student size price date anchor opening))
            (λ c. pure-Runs tt (λ d v. v)))

  current-Runs :
      (input : ConfigureBillingInput)
      → Runs Honest IsValid IsValid CurrentFor (current_for new_id ws student input)
  unfolding get_current_cycle
  current-Runs (per_session_from date) = pure-Runs none (λ d v. v)
  current-Runs (package_from size price date anchor opening) =
      statement-Runs _ IsValid-IsRespected
        (λ d v. found_current d v _ (current_cycle-HasTerms ws student d v))

  -- The writes, and the snapshot after them.
  rest-Runs :
      (current : Option BillingCycle) (input : ConfigureBillingInput) {u : Unit {0}}
      → check_opening current input ≡ ok u
      → Runs Honest IsValid
          (CurrentFor current)
          (λ a. IsValid)
          (change_opening ws current input >>= λ u. upsert_plan (plan_of ws student input) >>= λ u.
            start_first_cycle new_id ws student current input >>= λ u.
            get_student_billing ws student)
  rest-Runs current input e =
      bind-Runs (λ a. IsValid) _ _ (change-Runs ws current input e)
        (λ u.
          bind-Runs (λ a. IsValid) _ _ (plan-Runs (plan_of ws student input))
            (λ u.
              bind-Runs (λ a. IsValid) _ _ (start-Runs current input)
                (λ u. snapshot-Runs ws student)))

  checked-Runs :
      (current : Option BillingCycle) (input : ConfigureBillingInput)
      → Runs Honest IsValid
          (CurrentFor current)
          (λ a. IsValid)
          (lift (check_opening current input) >>= λ u. change_opening ws current input >>= λ u.
            upsert_plan (plan_of ws student input) >>= λ u.
            start_first_cycle new_id ws student current input >>= λ u.
            get_student_billing ws student)
  checked-Runs current input =
      bind-Runs (λ u d. CurrentFor current d × (check_opening current input ≡ ok u)) _ _
        (lift-Runs (check_opening current input) (λ u e d v. (v, e))
          (λ d v. CurrentFor-IsValid current d v))
        (λ u. record {
          run = λ w h.
              (rest-Runs current input h.here.1).run w
                (record { here = h.here.0; others = h.others });
        })

  -- Whatever honest others do between its statements, and whether it returns or throws: configuring
  -- the billing of a student leaves valid tables, so no change of an opening count moves the positions
  -- of lessons that are there, and none passes the size of its package.
  pub configure-IsValid :
      (input : ConfigureBillingInput) (w : World BillingDb)
      → Holds Honest IsValid w
      → IsValid (configure new_id ws student input w).1.0
  unfolding configure get_plan has_billing_history
  configure-IsValid input w h =
      outcome-IsValid _ _
        ((bind-Runs {E = IsValid} (λ a. IsValid) (get_plan ws student) _ (query-Runs _)
            (λ existing.
              bind-Runs (λ a. IsValid) (has_billing_history ws student) _ (query-Runs _)
                (λ history. bind-Runs CurrentFor _ _ (current-Runs input) (λ current.
                  bind-Runs (λ a. CurrentFor current) _ _
                    (lift-Runs _ (λ a e d v. v) (λ d v. CurrentFor-IsValid current d v))
                    (λ u. checked-Runs current input))))).run
          w h).0
