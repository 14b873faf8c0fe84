-- ===== src/Tutoring/Family/Sequence.antt =====
-- When a package of a family is complete, stated on the rows of members and cycles.
use mathlib.Core.List.{Memᴰ}
use mathlib.Core.List.Memᴰ
use text.Mathlib.TextEquality.{eq_iff}
use text.Mathlib.TextPositions.{eq_refl}
use sozan.Common.Members.{found-stored, All-Mem, Mem-All, mem-select, select-Mem}
use sozan.Common.{
  ℕ, ◌≤◌, ◌≡◌, ◌↔◌, refl, String, Bool, true, false, ◌&&◌, ◌==◌, some, List, [], ◌∷◌, map, every,
  find_first, str_eq, inl, inr, Option-cases, All, arith,
}
use sozan.Common.Order.{Collation, mem-sort, All-sort}
use sozan.Billing.Repository.{is_cancelled}
use sozan.Tutoring.Family.{
  CountingMode, BillingAccount, BillingAccountMember, StudentProgressCycle, cycle_matches,
  completed_student_cycle_count, student_cycle_for_sequence, has_lessons, is_nonempty, required_ids,
  required_progress_student_ids, active_family_members, family_sequence_complete,
}

-- Whose progress a package requires: of the primary student where one occurrence counts for all, of
-- each active member of the account where every member has a quota.
pub record IsMemberOf (account : BillingAccount) (members : List BillingAccountMember)
    (student : String) (m : BillingAccountMember) : Type 0 where
  pub stored : Memᴰ m members
  pub active : m.active ≡ true
  pub belongs : m.billing_account_id ≡ account.id
  pub named : m.student_id ≡ student

abbrev pub RequiredBy : CountingMode → BillingAccount → List BillingAccountMember → String → Type 0
RequiredBy CountingMode.shared_occurrence account members student =
    student ≡ account.primary_student_id
RequiredBy CountingMode.per_member_quota account members student =
    (m : BillingAccountMember) × IsMemberOf account members student m

abbrev pub IsRequired : BillingAccount → List BillingAccountMember → String → Type 0
IsRequired account = RequiredBy account.counting_mode account

-- The student has a cycle of this number that is not cancelled and has all its lessons.
pub record HasDone (cycles : List StudentProgressCycle) (sequence_no : ℕ) (student : String)
    (c : StudentProgressCycle) : Type 0 where
  pub stored : Memᴰ c cycles
  pub of_student : c.student_id ≡ student
  pub numbered : c.sequence_no ≡ sequence_no
  pub valid : is_cancelled c.status ≡ false
  pub lessons : c.session_limit ≤ completed_student_cycle_count c

-- No two cycles have one student and one number, as UNIQUE (student_id, sequence_no) of the table.
abbrev pub CyclesUnique : List StudentProgressCycle → Type 0
CyclesUnique [] = Unit
CyclesUnique (c ∷ cs) =
    All (λ d. str_eq d.student_id c.student_id && d.sequence_no == c.sequence_no ≡ false) cs
    × CyclesUnique cs

and_left : (a b : Bool) → a && b ≡ true → a ≡ true
and_left a b h = ground arith

and_right : (a b : Bool) → a && b ≡ true → b ≡ true
and_right a b h = ground arith

every-All :
    {A : Type 0} (p : A → Bool) (xs : List A) → (every p xs ≡ true) ↔ All (λ x. p x ≡ true) xs
unfolding every
every-All p [] = (λ e. tt, λ h. refl)
every-All p (x ∷ xs) =
    let rest = every-All p xs in
    (λ e. (and_left _ _ e, rest.0 (and_right _ _ e)), λ h. rw h.0 (rest.1 h.1))

nonempty-Mem : (xs : List String) → (is_nonempty xs ≡ true) ↔ ((x : String) × Memᴰ x xs)
nonempty-Mem [] = (λ e. cc, λ (x, m). elim m [ ])
nonempty-Mem (x ∷ xs) = (λ e. (x, Memᴰ.head refl), λ h. refl)

-- The members whose progress is required, as the list that the code makes has them.
module _ (c : Collation) (account : BillingAccount) (members : List BillingAccountMember) where
  members-Mem :
      (student : String)
      → Memᴰ student (map (λ m. m.student_id) (active_family_members c members account.id))
        ↔ RequiredBy CountingMode.per_member_quota account members student
  unfolding active_family_members
  members-Mem student = (
    λ h.
        let (m, stored, named) = Memᴰ.of_map (λ m. m.student_id) _ h in
        let meets =
          All-Mem
            (λ x. (Memᴰ x members × (x.active && str_eq x.billing_account_id account.id ≡ true))) m
            _
            (All-sort _ _ _ (
              select-Mem (λ x. x.active && str_eq x.billing_account_id account.id) members members
                (λ x m. m)))
            stored in
        (
          m,
          record {
            stored = meets.0;
            active = and_left _ _ meets.1;
            belongs = (eq_iff m.billing_account_id account.id).0 (and_right _ _ meets.1);
            named = named;
          },
        ),
    λ (m, h). rw (← h.named) (
        Memᴰ.map (λ m. m.student_id)
          (mem-sort _ m _
            (mem-select _ m members (rw (h.active, h.belongs, eq_refl account.id)) h.stored))),
  )

  required-Mem :
      (mode : CountingMode) (student : String)
      → Memᴰ student (required_ids c mode account members) ↔ RequiredBy mode account members student
  required-Mem CountingMode.shared_occurrence student =
      (λ m. Memᴰ.eq_of_singleton m, λ e. Memᴰ.head e)
  required-Mem CountingMode.per_member_quota student = members-Mem student

module _ (sequence_no : ℕ) (student : String) where
  matches-other :
      (c d : StudentProgressCycle)
      → cycle_matches student sequence_no c ≡ true
      → str_eq c.student_id d.student_id && c.sequence_no == d.sequence_no ≡ false
      → cycle_matches student sequence_no d ≡ false
  matches-other c d h other = ground (
    arith,
    eq_iff c.student_id student,
    eq_iff d.student_id student,
    eq_iff c.student_id d.student_id,
  )

  cycle_found :
      (c : StudentProgressCycle) (cycles : List StudentProgressCycle)
      → CyclesUnique cycles
      → Memᴰ c cycles
      → cycle_matches student sequence_no c ≡ true
      → student_cycle_for_sequence cycles student sequence_no ≡ some c
  unfolding find_first
  cycle_found c [] q m h = elim m [ ]
  cycle_found c (d ∷ ds) q (Memᴰ.head e) h = rw (← e, h)
  cycle_found c (d ∷ ds) q (Memᴰ.tail m) h =
      rw (matches-other c d h (All-Mem _ c ds q.0 m), cycle_found c ds q.1 m h)

  lessons-HasDone :
      (cycles : List StudentProgressCycle)
      → CyclesUnique cycles
      → (has_lessons (student_cycle_for_sequence cycles student sequence_no) ≡ true)
        ↔ ((c : StudentProgressCycle) × HasDone cycles sequence_no student c)
  lessons-HasDone cycles q = (
    λ e. elim (Option-cases (student_cycle_for_sequence cycles student sequence_no)) [
      | inl missing ↦ cc (rw missing at e)
      | inr (c, found) ↦
          let (stored, test) = found-stored _ c cycles found in
          (
            c,
            record {
              stored = stored;
              of_student = (eq_iff c.student_id student).0 (ground arith);
              numbered = ground arith;
              valid = ground arith;
              lessons = ground (arith, rw found at e);
            },
          )
    ],
    λ (c, h).
        let test : cycle_matches student sequence_no c ≡ true =
          ground (arith, h, eq_refl student) in
        rw (cycle_found c cycles q h.stored test) (ground (arith, h.lessons)),
  )

-- Where no two cycles have one student and one number, a package of a family is complete exactly when
-- somebody's progress is required and everybody whose progress is required has a cycle of this number
-- that is not cancelled and has all its lessons. Required is the progress of the primary student of a
-- shared account, and of each active member of another account.
pub family_sequence_complete_iff :
    (c : Collation) (account : BillingAccount) (members : List BillingAccountMember)
    (cycles : List StudentProgressCycle) (sequence_no : ℕ)
    → CyclesUnique cycles
    → (family_sequence_complete c account members cycles sequence_no ≡ true) ↔ (
        ((student : String) × IsRequired account members student)
        × ((student : String)
            → IsRequired account members student
            → (d : StudentProgressCycle) × HasDone cycles sequence_no student d))
unfolding family_sequence_complete
family_sequence_complete_iff c account members cycles sequence_no q =
    let required = required_progress_student_ids c account members in
    let listed = required-Mem c account members account.counting_mode in
    let all =
      every-All (λ s. has_lessons (student_cycle_for_sequence cycles s sequence_no)) required in
    (
      λ e.
          let (s, m) = (nonempty-Mem required).0 (and_left _ _ e) in
          (
            (s, (listed s).0 m),
            λ t r.
                (lessons-HasDone sequence_no t cycles q).0
                  (All-Mem _ t required (all.0 (and_right _ _ e)) ((listed t).1 r)),
          ),
      λ ((s, r), h). rw ((nonempty-Mem required).1 (s, (listed s).1 r)) (
          all.1 (
            Mem-All _ required
              (λ t m. (lessons-HasDone sequence_no t cycles q).1 (h t ((listed t).0 m))))),
    )
