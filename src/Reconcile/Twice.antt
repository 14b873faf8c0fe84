-- ===== src/Reconcile/Twice.antt =====
-- Reconciling the cycles of a student again changes nothing.
use sozan.Common.{
  ◌≡◌, refl, ap, ◌∙◌, String, Bool, true, false, Option, none, some, List, [], ◌∷◌, map, or_else,
  inl, inr, ◌⊎◌, Bool-cases, All, str_eq, if◌then◌else◌, arith,
}
use mathlib.Core.List.{Memᴰ}
use sozan.Common.Results.{ok}
use sozan.Billing.Repository.{CycleRow, map_cycle, real_completed, links_of}
use sozan.Billing.Repository.Valid.{IsDistinct}
use sozan.Reconcile.{
  Ledger, is_complete, given, completion_date, completed_dates, is_paid, is_current, read_cycle,
  max_text, normalize_cycles,
}
use sozan.Reconcile.Normalized.{
  with_cycles, normalized, IsDated, map_same, map-map, normalize_cycles-passes,
}

given-again :
    (date : Option String) (text : String) → given date ≡ some text → given (some text) ≡ some text
given-again none text h = cc
given-again (some t) text h = elim (Bool-cases (str_eq t "")) [
  | inl e ↦ cc (rw e at h)
  | inr e ↦ let same : t ≡ text = cc (rw e at h) in rw (← same) (rw e)
]

map-stored :
    (f : CycleRow → CycleRow) (rows : List CycleRow) (x : CycleRow)
    → Memᴰ x (map f rows)
    → (r : CycleRow) × Memᴰ r rows × (x ≡ f r)
map-stored f [] x m = elim m [ ]
map-stored f (r ∷ rest) x (Memᴰ.head e) = (r, Memᴰ.head refl, e)
map-stored f (r ∷ rest) x (Memᴰ.tail m) =
    let (y, n, e) = map-stored f rest x m in (y, Memᴰ.tail n, e)

stored-map :
    (f : CycleRow → CycleRow) (rows : List CycleRow) (r : CycleRow)
    → Memᴰ r rows
    → Memᴰ (f r) (map f rows)
stored-map f [] r m = elim m [ ]
stored-map f (x ∷ rest) r (Memᴰ.head e) = Memᴰ.head (ap f e)
stored-map f (x ∷ rest) r (Memᴰ.tail m) = Memᴰ.tail (stored-map f rest r m)

IsDistinct-map :
    (f : CycleRow → CycleRow) (rows : List CycleRow)
    → ((r : CycleRow) → Memᴰ r rows → (f r).id ≡ r.id)
    → IsDistinct rows
    → IsDistinct (map f rows)
IsDistinct-map f [] same u = tt
IsDistinct-map f (r ∷ rest) same u = (
  rw (same r (Memᴰ.head refl)) (apart r.id rest (λ x m. same x (Memᴰ.tail m)) u.0),
  IsDistinct-map f rest (λ x m. same x (Memᴰ.tail m)) u.1,
)
  where
    apart :
        (id : String) (xs : List CycleRow)
        → ((x : CycleRow) → Memᴰ x xs → (f x).id ≡ x.id)
        → All (λ d. str_eq d.id id ≡ false) xs
        → All (λ d. str_eq d.id id ≡ false) (map f xs)
    apart id [] k h = tt
    apart id (x ∷ xs) k h =
        (rw (k x (Memᴰ.head refl)) h.0, apart id xs (λ y m. k y (Memᴰ.tail m)) h.1)

module _ (before : String → String → Bool) (ws : String) (d : Ledger) where
  given_date :
      (r : CycleRow) (date : String)
      → completion_date before ws (read_cycle before ws d r) ≡ some date
      → given (some date) ≡ some date
  given_date r date =
      given-again
        (or_else r.completed_on (or_else (max_text before (completed_dates r d)) r.started_on)) date

  normalized-twice :
      (r : CycleRow)
      → IsDated before ws d r
      → normalized before ws d (normalized before ws d r) ≡ normalized before ws d r
  unfolding real_completed links_of
  normalized-twice r h = elim (Bool-cases (is_complete (map_cycle d.billing r))) [
    | inr open_yet ↦ rw open_yet (rw open_yet)
    | inl full ↦ elim h.has_date [
      | inl open_yet ↦ cc
      | inr (date, e) ↦ elim (Bool-cases (is_paid before ws r d)) [
        | inl covered ↦ rw (full, e, covered) (rw (full, given_date r date e, covered))
        | inr owed ↦ rw (full, e, owed) (rw (full, given_date r date e, owed))
      ]
    ]
  ]

  still_current :
      (student : String) (r : CycleRow)
      → IsDated before ws d r
      → is_current ws student r ≡ true
      → is_current ws student (normalized before ws d r) ≡ true
  still_current student r h e = elim (Bool-cases (is_complete (map_cycle d.billing r))) [
    | inr open_yet ↦ rw open_yet (ground arith)
    | inl full ↦ elim h.has_date [
      | inl open_yet ↦ cc
      | inr (date, f) ↦ elim (Bool-cases (is_paid before ws r d)) [
        | inl covered ↦ rw (full, f, covered) (ground arith)
        | inr owed ↦ rw (full, f, owed) (ground arith)
      ]
    ]
  ]

  normalized-id : (r : CycleRow) → IsDated before ws d r → (normalized before ws d r).id ≡ r.id
  normalized-id r h = elim (Bool-cases (is_complete (map_cycle d.billing r))) [
    | inr open_yet ↦ rw open_yet
    | inl full ↦ elim h.has_date [
      | inl open_yet ↦ cc
      | inr (date, f) ↦ elim (Bool-cases (is_paid before ws r d)) [
        | inl covered ↦ rw (full, f, covered)
        | inr owed ↦ rw (full, f, owed)
      ]
    ]
  ]

  -- A cycle in its state is complete exactly where it was, and then has its date.
  normalized-date :
      (r : CycleRow)
      → IsDated before ws d r
      → (is_complete (map_cycle d.billing (normalized before ws d r)) ≡ false)
        ⊎ ((date : String) × (completion_date before ws
                (read_cycle before ws d (normalized before ws d r))
              ≡ some date))
  unfolding real_completed links_of
  normalized-date r h = elim (Bool-cases (is_complete (map_cycle d.billing r))) [
    | inr open_yet ↦ inl (rw open_yet (rw open_yet))
    | inl full ↦ elim h.has_date [
      | inl open_yet ↦ cc
      | inr (date, f) ↦ elim (Bool-cases (is_paid before ws r d)) [
        | inl covered ↦ inr (date, rw (full, f, covered) (given_date r date f))
        | inr owed ↦ inr (date, rw (full, f, owed) (given_date r date f))
      ]
    ]
  ]

  module _ (unique : IsDistinct d.billing.cycles) (student : String)
      (dated_all : (r : CycleRow)
        → Memᴰ r d.billing.cycles
        → is_current ws student r ≡ true
        → IsDated before ws d r) where
    abbrev pass : CycleRow → CycleRow
    pass r = if is_current ws student r then normalized before ws d r else r

    pass-id : (r : CycleRow) → Memᴰ r d.billing.cycles → (pass r).id ≡ r.id
    pass-id r m = elim (Bool-cases (is_current ws student r)) [
      | inl e ↦ rw e (normalized-id r (dated_all r m e))
      | inr e ↦ rw e
    ]

    pass-twice : (r : CycleRow) → Memᴰ r d.billing.cycles → pass (pass r) ≡ pass r
    pass-twice r m = elim (Bool-cases (is_current ws student r)) [
      | inl e ↦
          let h = dated_all r m e in rw e (rw (still_current student r h e) (normalized-twice r h))
      | inr e ↦ rw e (rw e)
    ]

    dated_after :
        (x : CycleRow)
        → Memᴰ x (map pass d.billing.cycles)
        → is_current ws student x ≡ true
        → IsDated before ws (with_cycles (map pass d.billing.cycles) d) x
    unfolding real_completed
    dated_after x m e =
        let (r, n, same) = map-stored pass d.billing.cycles x m in
        elim (Bool-cases (is_current ws student r)) [
          | inl current ↦
              let h = dated_all r n current in
              let y : x ≡ normalized before ws d r = rw current at same in
              record { stored = m; has_date = rw y (normalized-date r h) }
          | inr other ↦ let y : x ≡ r = rw other at same in cc (rw y at e)
        ]

    -- Where the identifiers are unique and every complete cycle of the student has a date, normalising
    -- the cycles again returns and changes nothing.
    pub normalize_cycles-twice :
        normalize_cycles before ws student (normalize_cycles before ws student d).1
        ≡ (ok tt, (normalize_cycles before ws student d).1)
    unfolding real_completed
    normalize_cycles-twice =
        let first = normalize_cycles-passes before ws d unique student dated_all in
        let again =
          normalize_cycles-passes before ws (with_cycles (map pass d.billing.cycles) d)
            (IsDistinct-map pass d.billing.cycles pass-id unique) student dated_after in
        let rows = map-map pass pass d.billing.cycles ∙ map_same _ _ d.billing.cycles pass-twice in
        rw first (again ∙ ap (λ rows. (ok tt, with_cycles rows d)) rows)
