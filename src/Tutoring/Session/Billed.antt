-- ===== src/Tutoring/Session/Billed.antt =====
-- Who is billed: only linked students, each once; and what archiving keeps.
use sozan.Common.{
  ◌≡◌, refl, ap, inl, inr, Bool-cases, String, Bool, true, false, ◌&&◌, ◌||◌, not, Option, none,
  some, List, [], ◌∷◌, length, select, includes, option_eq, str_eq, All, arith, if◌then◌else◌,
  eq_iff, ◌==◌,
}
use text.Mathlib.TextPositions.{eq_refl}
use sozan.Tutoring.Session.{
  RecurringSession, PriceBasis, total_session, per_student, linked_of, linked_payer, billed,
  owner_of, unique_from, billing_student_ids_for_occurrence, billing_owner_student_id, without,
  archive_student_from_recurring_session,
}

some-injective {ℓ} : {A : Type ℓ} {a b : A} → some a ≡ some b → a ≡ b
some-injective h = cc

and_right : (a b : Bool) → (a && b) ≡ true → b ≡ true
and_right true b h = h
and_right false b h = cc

-- No text occurs twice.
unfoldable pub IsDistinct : List String → Type 0
IsDistinct [] = Unit {0}
IsDistinct (x ∷ xs) = (includes x xs ≡ false) × IsDistinct xs

includes-unique_from :
    (x : String) (seen xs : List String)
    → includes x seen ≡ true
    → includes x (unique_from seen xs) ≡ false
unfolding unique_from includes
includes-unique_from x seen [] h = refl
includes-unique_from x seen (y ∷ ys) h = elim (Bool-cases (includes y seen)) [
  | inl old ↦ rw old (includes-unique_from x seen ys h)
  | inr new_ ↦
      let ih = includes-unique_from x (y ∷ seen) ys (rw h (ground arith)) in
      let differ : str_eq y x ≡ false = elim (Bool-cases (str_eq y x)) [
        | inr other ↦ other
        | inl same ↦ let p : y ≡ x = ground (arith, eq_iff y x) in cc (rw p at new_)
      ] in
      rw (new_, differ, ih)
]

unique_from-IsDistinct : (seen xs : List String) → IsDistinct (unique_from seen xs)
unfolding unique_from IsDistinct includes
unique_from-IsDistinct seen [] = tt
unique_from-IsDistinct seen (x ∷ xs) = elim (Bool-cases (includes x seen)) [
  | inl old ↦ rw old (unique_from-IsDistinct seen xs)
  | inr new_ ↦
      rw new_ (
        includes-unique_from x (x ∷ seen) xs (rw (eq_refl x)),
        unique_from-IsDistinct (x ∷ seen) xs,
      )
]

includes-select :
    (p : String → Bool) (x : String) (xs : List String)
    → includes x xs ≡ false
    → includes x (select p xs) ≡ false
unfolding select includes
includes-select p x [] h = refl
includes-select p x (y ∷ ys) h = elim (Bool-cases (str_eq y x)) [
  | inl same ↦ cc (rw same at h)
  | inr other ↦ elim (Bool-cases (p y)) [
    | inl kept ↦ rw (kept, other) (includes-select p x ys (rw other at h))
    | inr left ↦ rw left (includes-select p x ys (rw other at h))
  ]
]

select-IsDistinct :
    (p : String → Bool) (xs : List String) → IsDistinct xs → IsDistinct (select p xs)
unfolding select IsDistinct
select-IsDistinct p [] h = tt
select-IsDistinct p (x ∷ xs) h = elim (Bool-cases (p x)) [
  | inl kept ↦ rw kept (includes-select p x xs h.0, select-IsDistinct p xs h.1)
  | inr left ↦ rw left (select-IsDistinct p xs h.1)
]

All-select : (p : String → Bool) (xs : List String) → All (λ x. p x ≡ true) (select p xs)
unfolding select
All-select p [] = tt
All-select p (x ∷ xs) = elim (Bool-cases (p x)) [
  | inl kept ↦ rw kept (kept, All-select p xs)
  | inr left ↦ rw left (All-select p xs)
]

linked_of-includes :
    (basis : PriceBasis) (o : Option String) (ids : List String) {payer : String}
    → linked_of basis o ids ≡ some payer
    → includes payer ids ≡ true
linked_of-includes per_student o ids h = cc
linked_of-includes total_session none ids h = cc
linked_of-includes total_session (some p) ids {payer} h =
    elim (Bool-cases (not (str_eq p "") && includes p ids)) [
      | inr bad ↦ cc (rw bad at h)
      | inl good ↦
          let same : p ≡ payer = some-injective (rw good at h) in rw (← same) (and_right _ _ good)
    ]

billed-IsDistinct :
    (o : Option String) (ids participants : List String)
    → ((payer : String) → o ≡ some payer → includes payer ids ≡ true)
    → IsDistinct (billed o ids participants)
      × All (λ id. includes id ids ≡ true) (billed o ids participants)
unfolding IsDistinct includes
billed-IsDistinct (some payer) ids participants h = ((refl, tt), (h payer refl, tt))
billed-IsDistinct none ids participants h =
    (select-IsDistinct _ _ (unique_from-IsDistinct [] participants), All-select _ _)

-- Whoever attended, only students who are linked to the session are billed for a lesson, and no one
-- twice.
pub billing_student_ids-IsDistinct :
    (session : RecurringSession) (participants : List String)
    → IsDistinct (billing_student_ids_for_occurrence session participants)
      × All
          (λ id. includes id session.student_ids ≡ true)
          (billing_student_ids_for_occurrence session participants)
unfolding billing_student_ids_for_occurrence IsDistinct includes
billing_student_ids-IsDistinct session participants =
    billed-IsDistinct (linked_payer session) session.student_ids participants (λ payer e.
      linked_of-includes session.price_basis session.payer_student_id session.student_ids e)

owner_alone :
    (o : Option String) (ids : List String) {owner : String}
    → owner_of o ids ≡ some owner
    → billed o ids (owner ∷ []) ≡ owner ∷ []
unfolding unique_from select includes
owner_alone (some payer) ids h = let e = some-injective h in rw e
owner_alone none [] h = cc
owner_alone none (x ∷ []) {owner} h = let e : x ≡ owner = some-injective h in rw (e, eq_refl owner)
owner_alone none (x ∷ y ∷ ys) h = cc

-- When a session has a billing owner, a lesson that just the owner attended is billed to the owner
-- and to nobody else.
pub billing_owner-billed :
    (session : RecurringSession) {owner : String}
    → billing_owner_student_id session ≡ some owner
    → billing_student_ids_for_occurrence session (owner ∷ []) ≡ owner ∷ []
unfolding billing_owner_student_id billing_student_ids_for_occurrence
billing_owner-billed session h = owner_alone (linked_payer session) session.student_ids h

includes-kept :
    (p : String → Bool) (x : String) (xs : List String)
    → p x ≡ true
    → includes x xs ≡ true
    → includes x (select p xs) ≡ true
unfolding select includes
includes-kept p x [] k h = cc
includes-kept p x (y ∷ ys) k h = elim (Bool-cases (str_eq y x)) [
  | inl same ↦ let e : y ≡ x = ground (arith, eq_iff y x) in rw (e, k, eq_refl x)
  | inr other ↦ elim (Bool-cases (p y)) [
    | inl kept ↦ rw (kept, other) (includes-kept p x ys k (rw other at h))
    | inr left ↦ rw left (includes-kept p x ys k (rw other at h))
  ]
]

detached_payer :
    (o : Option String) (student : String) {payer : String}
    → (if option_eq o (some student) then none else o) ≡ some payer
    → (o ≡ some payer) × (not (str_eq payer student) ≡ true)
detached_payer none student h = cc
detached_payer (some p) student {payer} h = elim (Bool-cases (str_eq p student)) [
  | inl same ↦ cc (rw same at h)
  | inr other ↦ let e : p ≡ payer = some-injective (rw other at h) in (ap some e, rw (← e, other))
]

-- `SESSION_PAYER_MUST_BE_LINKED_STUDENT`: the rule of the schema on the payer.
abbrev pub IsPayerLinked : RecurringSession → Type 0
IsPayerLinked session =
    (payer : String)
    → session.payer_student_id ≡ some payer
    → includes payer session.student_ids ≡ true

-- Archiving a student keeps the rule that the payer is a linked student.
pub archive_student-IsPayerLinked :
    (session : RecurringSession) (student : String)
    → IsPayerLinked session
    → IsPayerLinked (archive_student_from_recurring_session session student).1
unfolding archive_student_from_recurring_session
archive_student-IsPayerLinked session student h =
    elim (Bool-cases (not session.active || not (includes student session.student_ids))) [
      | inl idle ↦ rw idle h
      | inr joined ↦ elim (Bool-cases (length (without student session.student_ids) == 0)) [
        | inl alone ↦ rw (joined, alone) h
        | inr shared ↦
            rw (joined, shared)
              (λ payer e.
                let (named, other) = detached_payer session.payer_student_id student e in
                includes-kept (λ id. not (str_eq id student)) payer session.student_ids other
                  (h payer named))
      ]
    ]
