-- ===== src/Reconcile/Normalized.antt =====
-- The cycles of a student after `normalizeCycles`.
use sozan.Common.{
  ◌≡◌, refl, sym, ap, ◌∙◌, String, Bool, true, false, ◌&&◌, ◌||◌, Option, none, some, List, [], ◌∷◌,
  map, inl, inr, ◌⊎◌, Bool-cases, All, select, some_of, str_eq, str_eq-flip, if◌then◌else◌, arith,
}
use text.Mathlib.TextPositions.{eq_refl}
use mathlib.Core.List.{Memᴰ}
use sozan.Common.Results.{ok}
use sozan.Common.Order.{sort, compare_numbers, All-sort, some_of-sort}
use sozan.Billing.Repository.{CycleRow, CycleStatus, opened, due, paid, is_row, map_cycle}
use sozan.Billing.Repository.Valid.{IsDistinct}
use sozan.Reconcile.{
  Ledger, is_complete, set_state, completion_date, is_paid, paid_date, state_complete, is_current,
  read_cycle, normalize_cycle, normalize_each, normalize_cycles,
}

abbrev pub with_cycles : List CycleRow → Ledger → Ledger
with_cycles cycles d = record d { billing = record d.billing { cycles = cycles } }

pub map_same :
    {A B : Type 0} (f g : A → B) (xs : List A)
    → ((x : A) → Memᴰ x xs → f x ≡ g x)
    → map f xs ≡ map g xs
map_same f g [] k = refl
map_same f g (x ∷ xs) k =
    rw (k x (Memᴰ.head refl)) (ap (λ ys. g x ∷ ys) (map_same f g xs (λ y m. k y (Memᴰ.tail m))))

map_id : {A : Type 0} (xs : List A) → map (λ x. x) xs ≡ xs
map_id [] = refl
map_id (x ∷ xs) = ap (λ ys. x ∷ ys) (map_id xs)

pub map-map : {A : Type 0} (f g : A → A) (xs : List A) → map f (map g xs) ≡ map (λ x. f (g x)) xs
map-map f g [] = refl
map-map f g (x ∷ xs) = ap (λ ys. f (g x) ∷ ys) (map-map f g xs)

unlike :
    (x r : CycleRow) (rest : List CycleRow)
    → All (λ d. str_eq d.id x.id ≡ false) rest
    → Memᴰ r rest
    → str_eq r.id x.id ≡ false
unlike x r [] h m = elim m [ ]
unlike x r (y ∷ rest) h (Memᴰ.head e) = rw e h.0
unlike x r (y ∷ rest) h (Memᴰ.tail m) = unlike x r rest h.1 m

-- Two rows of the table with one identifier are the same row.
same_row :
    (c r : CycleRow) (rows : List CycleRow)
    → IsDistinct rows
    → Memᴰ c rows
    → Memᴰ r rows
    → str_eq r.id c.id ≡ true
    → r ≡ c
same_row c r [] u m n e = elim m [ ]
same_row c r (x ∷ rest) u (Memᴰ.head p) (Memᴰ.head q) e = cc
same_row c r (x ∷ rest) u (Memᴰ.head p) (Memᴰ.tail n) e =
    let other = unlike x r rest u.0 n in cc (rw p at e)
same_row c r (x ∷ rest) u (Memᴰ.tail m) (Memᴰ.head q) e =
    let other = str_eq-flip c.id x.id (unlike x c rest u.0 m) in cc (rw q at e)
same_row c r (x ∷ rest) u (Memᴰ.tail m) (Memᴰ.tail n) e = same_row c r rest u.1 m n e

or_false : (b : Bool) → (b || false) ≡ b
or_false b = ground arith

or_assoc : (a b c : Bool) → ((a || b) || c) ≡ (a || (b || c))
or_assoc a b c = ground arith

and_right : (a b : Bool) → a && b ≡ true → b ≡ true
and_right a b h = ground arith

module _ (before : String → String → Bool) (ws : String) (d : Ledger) where
  -- The state that follows for a row from its lessons and the allocations to it.
  abbrev dated : CycleRow → Option String → CycleRow → CycleRow
  dated c none r = r
  dated c (some date) r = state_complete before ws c d date r

  abbrev action : CycleRow → CycleRow → CycleRow
  action c r =
      if is_complete (map_cycle d.billing c)
      then dated c (completion_date before ws (read_cycle before ws d c)) r
      else set_state opened none none r

  abbrev pub normalized : CycleRow → CycleRow
  normalized c = action c c

  -- The rows where `done` says so are in their state.
  abbrev stage : (CycleRow → Bool) → CycleRow → CycleRow
  stage done r = if done r then normalized r else r

  -- A cycle of the table, with a date where it is complete.
  pub record IsDated (c : CycleRow) : Type 0 where
    pub stored : Memᴰ c d.billing.cycles
    pub has_date :
        (is_complete (map_cycle d.billing c) ≡ false)
        ⊎ ((date : String) × (completion_date before ws (read_cycle before ws d c) ≡ some date))

  one_step :
      (c : CycleRow) (cycles : List CycleRow)
      → IsDated c
      → normalize_cycle before ws (read_cycle before ws d c) (with_cycles cycles d)
        ≡ (ok tt, with_cycles (map (λ r. if is_row ws c.id r then action c r else r) cycles) d)
  unfolding normalize_cycle
  one_step c cycles h = elim h.has_date [
    | inl open_yet ↦ rw open_yet
    | inr (date, e) ↦ elim (Bool-cases (is_complete (map_cycle d.billing c))) [
      | inl full ↦ rw (full, e)
      | inr open_yet ↦ rw open_yet
    ]
  ]

  -- What the update of a cycle sets does not depend on the row.
  action_sets :
      (c : CycleRow)
      → IsDated c
      → (status : CycleStatus) × (completed_on : Option String) × (paid_on : Option String)
        × ((r : CycleRow) → action c r ≡ set_state status completed_on paid_on r)
  action_sets c h = elim (Bool-cases (is_complete (map_cycle d.billing c))) [
    | inr open_yet ↦ (opened, none, none, λ r. rw open_yet)
    | inl full ↦ elim h.has_date [
      | inl open_yet ↦ cc
      | inr (date, e) ↦ elim (Bool-cases (is_paid before ws c d)) [
        | inl covered ↦ (paid, some date, paid_date before ws c date d, λ r. rw (full, e, covered))
        | inr owed ↦ (due, some date, none, λ r. rw (full, e, owed))
      ]
    ]
  ]

  action-twice : (c : CycleRow) → IsDated c → action c (normalized c) ≡ normalized c
  action-twice c h = let (s, x, y, e) = action_sets c h in rw (e c, e (set_state s x y c))

  stage-row :
      (done : CycleRow → Bool) (c r : CycleRow)
      → (done r ≡ true → IsDated r)
      → is_row ws c.id (stage done r) ≡ is_row ws c.id r
  stage-row done c r h = elim (Bool-cases (done r)) [
    | inl e ↦ let (s, x, y, f) = action_sets r (h e) in rw (e, f r)
    | inr e ↦ rw e
  ]

  -- One update more.
  stage_next :
      (done : CycleRow → Bool) (c r : CycleRow)
      → IsDated c
      → (done r ≡ true → IsDated r)
      → (is_row ws c.id r ≡ true → r ≡ c)
      → (if is_row ws c.id (stage done r) then action c (stage done r) else stage done r)
        ≡ stage (λ r. done r || is_row ws c.id r) r
  stage_next done c r h hr same = elim (Bool-cases (is_row ws c.id r)) [
    | inr other ↦ elim (Bool-cases (done r)) [
      | inl e ↦ rw (stage-row done c r hr, other, e)
      | inr e ↦ rw (stage-row done c r hr, other, e)
    ]
    | inl here ↦ elim (Bool-cases (done r)) [
      | inl e ↦ rw (stage-row done c r hr, here, e, same here) (action-twice c h)
      | inr e ↦ rw (stage-row done c r hr, here, e, same here) refl
    ]
  ]

  module _ (unique : IsDistinct d.billing.cycles) where
    -- The loop, from the rows that `done` says are in their state already.
    loop-normalizes :
        (cycles : List CycleRow) (done : CycleRow → Bool)
        → All IsDated cycles
        → ((r : CycleRow) → Memᴰ r d.billing.cycles → done r ≡ true → IsDated r)
        → normalize_each before ws
            (map (read_cycle before ws d) cycles)
            (with_cycles (map (stage done) d.billing.cycles) d)
          ≡ (
            ok tt,
            with_cycles
                (map
                  (stage (λ r. done r || some_of (λ c. is_row ws c.id r) cycles))
                  d.billing.cycles)
                d,
          )
    unfolding normalize_each some_of
    loop-normalizes [] done h k =
        ap (λ rows. (ok tt, with_cycles rows d))
          (map_same _ _ d.billing.cycles (λ r m. rw (or_false (done r))))
    loop-normalizes (c ∷ rest) done h k =
        let step = one_step c (map (stage done) d.billing.cycles) h.0 in
        let rows =
          map-map (λ r. if is_row ws c.id r then action c r else r) (stage done) d.billing.cycles in
        let next = map_same _ (stage (λ r. done r || is_row ws c.id r)) d.billing.cycles (λ r m.
          stage_next done c r h.0 (k r m)
            (λ e. same_row c r d.billing.cycles unique (h.0).stored m (and_right _ _ e))) in
        rw (step, rows, next)
          (loop-normalizes rest (λ r. done r || is_row ws c.id r) h.1
              (λ r m e. elim (Bool-cases (done r)) [
                | inl f ↦ k r m f
                | inr f ↦
                    let here = rw f at e in
                    let same =
                      same_row c r d.billing.cycles unique (h.0).stored m (and_right _ _ here) in
                    rw same h.0
              ])
            ∙ ap (λ rows. (ok tt, with_cycles rows d))
                (map_same _ _ d.billing.cycles (λ r m.
                  ap (λ b. if b then normalized r else r)
                    (or_assoc (done r) (is_row ws c.id r) (some_of (λ c. is_row ws c.id r) rest)))))

    selected :
        (student : String) (rows : List CycleRow)
        → ((r : CycleRow) → Memᴰ r rows → is_current ws student r ≡ true → IsDated r)
        → All IsDated (select (is_current ws student) rows)
    unfolding select
    selected student [] k = tt
    selected student (r ∷ rest) k = elim (Bool-cases (is_current ws student r)) [
      | inl e ↦ rw e (k r (Memᴰ.head refl) e, selected student rest (λ x m. k x (Memᴰ.tail m)))
      | inr e ↦ rw e (selected student rest (λ x m. k x (Memᴰ.tail m)))
    ]

    some_here :
        (student : String) (rows : List CycleRow) (r : CycleRow)
        → Memᴰ r rows
        → is_current ws student r ≡ true
        → some_of (λ c. is_row ws c.id r) (select (is_current ws student) rows) ≡ true
    unfolding select some_of
    some_here student [] r m e = elim m [ ]
    some_here student (x ∷ rest) r (Memᴰ.head p) e =
        let here : is_row ws x.id r ≡ true = rw (← p, eq_refl r.id) (ground arith) in
        let current : is_current ws student x ≡ true = rw p at e in rw (current, here)
    some_here student (x ∷ rest) r (Memᴰ.tail m) e = elim (Bool-cases (is_current ws student x)) [
      | inl f ↦ rw (f, some_here student rest r m e) (ground arith)
      | inr f ↦ rw (f, some_here student rest r m e)
    ]

    none_here :
        (student : String) (rows : List CycleRow) (r : CycleRow)
        → ((c : CycleRow) → Memᴰ c rows → is_row ws c.id r ≡ true → r ≡ c)
        → is_current ws student r ≡ false
        → some_of (λ c. is_row ws c.id r) (select (is_current ws student) rows) ≡ false
    unfolding select some_of
    none_here student [] r k e = refl
    none_here student (x ∷ rest) r k e =
        let later = none_here student rest r (λ c m. k c (Memᴰ.tail m)) e in
        elim (Bool-cases (is_current ws student x)) [
          | inr f ↦ rw (f, later)
          | inl f ↦ elim (Bool-cases (is_row ws x.id r)) [
            | inr other ↦ rw (f, other, later)
            | inl here ↦ cc (k x (Memᴰ.head refl) here, rw (k x (Memᴰ.head refl) here) at e)
          ]
        ]

    -- A row of the table is among the cycles that are read exactly when it is a current one.
    found_current :
        (student : String) (r : CycleRow)
        → Memᴰ r d.billing.cycles
        → some_of
            (λ c. is_row ws c.id r)
            (sort
              (λ a b. compare_numbers a.sequence_no b.sequence_no)
              (select (is_current ws student) d.billing.cycles))
          ≡ is_current ws student r
    found_current student r m =
        some_of-sort (λ a b. compare_numbers a.sequence_no b.sequence_no) (λ c. is_row ws c.id r)
          (select (is_current ws student) d.billing.cycles)
        ∙ elim (Bool-cases (is_current ws student r)) [
          | inl e ↦ rw e (some_here student d.billing.cycles r m e)
          | inr e ↦ rw e (
              none_here student d.billing.cycles r
                (λ c n f. same_row c r d.billing.cycles unique n m (and_right _ _ f)) e)
        ]

    -- Where the identifiers are unique and every complete cycle of the student has a date, the
    -- statements of the loop, one for each cycle, amount to one pass over the table: each current cycle
    -- of the student becomes open where its lessons are not complete, and else paid or due, as the
    -- allocations from live receipts cover its price or not; every other row, and every other table,
    -- stays as it was.
    pub normalize_cycles-passes :
        (student : String)
        → ((r : CycleRow) → Memᴰ r d.billing.cycles → is_current ws student r ≡ true → IsDated r)
        → normalize_cycles before ws student d ≡ (
          ok tt,
          with_cycles
              (map (λ r. if is_current ws student r then normalized r else r) d.billing.cycles)
              d,
        )
    unfolding normalize_cycles
    normalize_cycles-passes student dated_all =
        let read =
          sort (λ a b. compare_numbers a.sequence_no b.sequence_no)
            (select (is_current ws student) d.billing.cycles) in
        let all =
          All-sort (λ a b. compare_numbers a.sequence_no b.sequence_no) IsDated _
            (selected student d.billing.cycles dated_all) in
        let start = map_id d.billing.cycles in
        ap
          (λ rows.
            normalize_each before ws (map (read_cycle before ws d) read) (with_cycles rows d))
          (sym start)
        ∙ loop-normalizes read (λ r. false) all (λ r m e. cc)
        ∙ ap (λ rows. (ok tt, with_cycles rows d))
            (map_same _ _ d.billing.cycles
              (λ r m. ap (λ b. if b then normalized r else r) (found_current student r m)))
