-- ===== src/Billing/Repository/Valid.antt =====
-- The tables of the packages: the lessons of a cycle have the positions that follow its opening
-- count, without a gap, and each earns the share of its position. Every statement keeps this.
use sozan.Common.{
  ℕ, suc, ◌+◌, ◌≤◌, ◌≡◌, refl, ◌∙◌, inl, inr, Bool-cases, String, Bool, true, false, ◌&&◌, not,
  List, [], ◌∷◌, map, length, select, some_of, All, All-every, All-map, All-mp, All-both, arith,
  eq_iff, str_eq, if◌then◌else◌,
}
use sozan.Billing.Package.{unit_share}
use sozan.Billing.Repository.{
  CycleRow, Link, BillingDb, links_of, is_link_of, is_row, is_link_completed, clashes, insert_cycle,
  is_within_checks, update_cycles,
}

-- The lessons of one cycle, the newest first.
pub data IsNumbered (opening limit price : ℕ) : List Link → Type 0 where
  nothing : IsNumbered opening limit price []
  next :
      (l : Link) (ls : List Link)
      → l.position ≡ opening + suc (length ls)
      → l.position ≤ limit
      → l.earned_pence ≡ unit_share price limit l.position
      → some_of (λ k. str_eq k.occurrence_id l.occurrence_id) ls ≡ false
      → IsNumbered opening limit price ls
      → IsNumbered opening limit price (l ∷ ls)

abbrev pub IsCounted : List Link → CycleRow → Type 0
IsCounted links c =
    (c.opening_completed_count ≤ c.session_limit)
    × IsNumbered c.opening_completed_count c.session_limit c.price_pence (links_of c links)

abbrev pub IsDistinct : List CycleRow → Type 0
IsDistinct [] = Unit {0}
IsDistinct (c ∷ cs) = All (λ d. str_eq d.id c.id ≡ false) cs × IsDistinct cs

abbrev pub has_id : String → List CycleRow → Bool
has_id id cs = some_of (λ c. str_eq c.id id) cs

-- A row of this workspace and identifier.
abbrev pub has_row : String → String → List CycleRow → Bool
has_row ws id cs = some_of (is_row ws id) cs

pub record IsValid (db : BillingDb) : Type 0 where
  pub counted : All (IsCounted db.links) db.cycles
  pub distinct : IsDistinct db.cycles
  pub owned : All (λ l. has_row l.workspace_id l.billing_cycle_id db.cycles ≡ true) db.links
  pub taught : All (λ l. is_link_completed db.occurrences l ≡ true) db.links

-- Every row of this cycle has this price and size.
abbrev pub HasTerms : CycleRow → BillingDb → Type 0
HasTerms c db =
    All
      (λ r.
        str_eq r.id c.id ≡ true
        → (r.price_pence ≡ c.price_pence) × (r.session_limit ≡ c.session_limit))
      db.cycles

-- An update of rows that leaves their terms, identity and opening count alone.
pub record IsGentle (f : CycleRow → CycleRow) : Type 0 where
  pub id : (c : CycleRow) → (f c).id ≡ c.id
  pub workspace_id : (c : CycleRow) → (f c).workspace_id ≡ c.workspace_id
  pub session_limit : (c : CycleRow) → (f c).session_limit ≡ c.session_limit
  pub price_pence : (c : CycleRow) → (f c).price_pence ≡ c.price_pence

module _ (p : CycleRow → Bool) (f : CycleRow → CycleRow) where
  abbrev pub changed : CycleRow → CycleRow
  changed c = if p c then f c else c

  changed-IsGentle : IsGentle f → IsGentle changed
  changed-IsGentle g = record {
    id = λ c. elim (Bool-cases (p c)) [ inl e ↦ rw e (g.id c) | inr e ↦ rw e ];
    workspace_id = λ c. elim (Bool-cases (p c)) [ inl e ↦ rw e (g.workspace_id c) | inr e ↦ rw e ];
    session_limit =
        λ c. elim (Bool-cases (p c)) [ inl e ↦ rw e (g.session_limit c) | inr e ↦ rw e ];
    price_pence = λ c. elim (Bool-cases (p c)) [ inl e ↦ rw e (g.price_pence c) | inr e ↦ rw e ];
  }

module _ (f : CycleRow → CycleRow) (g : IsGentle f) where
  has_row-map : (ws id : String) (cs : List CycleRow) → has_row ws id (map f cs) ≡ has_row ws id cs
  unfolding some_of
  has_row-map ws id [] = refl
  has_row-map ws id (c ∷ cs) = rw (g.workspace_id c, g.id c, has_row-map ws id cs)

  IsDistinct-map : (cs : List CycleRow) → IsDistinct cs → IsDistinct (map f cs)
  IsDistinct-map [] h = tt
  IsDistinct-map (c ∷ cs) h =
      (All-map _ f cs (λ d e. rw (g.id d, g.id c) e) h.0, IsDistinct-map cs h.1)

  terms_map :
      (c : CycleRow) (db : BillingDb)
      → HasTerms c db
      → HasTerms c (record db { cycles = map f db.cycles })
  terms_map c db h =
      All-map _ f db.cycles
        (λ r e k. rw (g.price_pence r, g.session_limit r) (e (rw (g.id r) at k))) h

-- An update keeps the tables valid when it leaves each cycle counted.
pub update_cycles_counted :
    (p : CycleRow → Bool) (f : CycleRow → CycleRow)
    → IsGentle f
    → (db : BillingDb)
    → All (λ c. IsCounted db.links c → IsCounted db.links (changed p f c)) db.cycles
    → IsValid db
    → IsValid (update_cycles p f db)
update_cycles_counted p f g db k v =
    let g' = changed-IsGentle p f g in
    record {
      counted =
          All-map _ (changed p f) db.cycles (λ c h. h)
            (All-both db.cycles (λ c step h. step h) k v.counted);
      distinct = IsDistinct-map (changed p f) g' db.cycles v.distinct;
      owned =
          All-mp db.links
            (λ l h. has_row-map (changed p f) g' l.workspace_id l.billing_cycle_id db.cycles ∙ h)
            v.owned;
      taught = v.taught;
    }

pub update_cycles-IsValid :
    (p : CycleRow → Bool) (f : CycleRow → CycleRow)
    → IsGentle f
    → (db : BillingDb)
    → ((c : CycleRow) → p c ≡ true → IsCounted db.links c → IsCounted db.links (f c))
    → IsValid db
    → IsValid (update_cycles p f db)
update_cycles-IsValid p f g db k v =
    update_cycles_counted p f g db
      (All-every db.cycles
        (λ c h. elim (Bool-cases (p c)) [ inl e ↦ rw e (k c e h) | inr e ↦ rw e h ]))
      v

pub update_cycles-HasTerms :
    (p : CycleRow → Bool) (f : CycleRow → CycleRow)
    → IsGentle f
    → (c : CycleRow) (db : BillingDb) → HasTerms c db
    → HasTerms c (update_cycles p f db)
update_cycles-HasTerms p f g c db h = terms_map (changed p f) (changed-IsGentle p f g) c db h

has_row-id : (ws id : String) (cs : List CycleRow) → has_row ws id cs ≡ true → has_id id cs ≡ true
unfolding some_of
has_row-id ws id [] h = h
has_row-id ws id (c ∷ cs) h = elim (Bool-cases (str_eq c.id id)) [
  | inl same ↦ rw same
  | inr other ↦ rw other (has_row-id ws id cs (ground arith))
]

-- A new cycle has no lessons, since every lesson belongs to a row that is there.
no_links :
    (c : CycleRow) (cs : List CycleRow) (links : List Link)
    → has_id c.id cs ≡ false
    → All (λ l. has_row l.workspace_id l.billing_cycle_id cs ≡ true) links
    → links_of c links ≡ []
unfolding links_of select
no_links c cs [] h o = refl
no_links c cs (l ∷ ls) h o = elim (Bool-cases (is_link_of c.workspace_id c.id l)) [
  | inr other ↦ rw other (no_links c cs ls h o.1)
  | inl mine ↦
      let same : l.billing_cycle_id ≡ c.id = ground (arith, eq_iff l.billing_cycle_id c.id) in
      let there = has_row-id l.workspace_id l.billing_cycle_id cs o.0 in cc (rw same at there)
]

no_clash_id :
    (c : CycleRow) (cs : List CycleRow) → some_of (clashes c) cs ≡ false → has_id c.id cs ≡ false
unfolding some_of
no_clash_id c [] h = refl
no_clash_id c (d ∷ ds) h = elim (Bool-cases (str_eq d.id c.id)) [
  | inl same ↦ cc (rw same at h)
  | inr other ↦ rw other (no_clash_id c ds (ground arith))
]

not_has_id :
    (id : String) (cs : List CycleRow) → has_id id cs ≡ false → All (λ d. str_eq d.id id ≡ false) cs
unfolding some_of
not_has_id id [] h = tt
not_has_id id (c ∷ cs) h = (ground arith, not_has_id id cs (ground arith))

has_row_more :
    (c : CycleRow) (cs : List CycleRow) (ws id : String)
    → has_row ws id cs ≡ true
    → has_row ws id (c ∷ cs) ≡ true
unfolding some_of
has_row_more c cs ws id h = rw h (ground arith)

within_checks :
    (c : CycleRow) (b : Bool)
    → (is_within_checks c && b) ≡ true
    → c.opening_completed_count ≤ c.session_limit
within_checks c b h = ground arith

pub insert_cycle-IsValid :
    (c : CycleRow) (db : BillingDb) → IsValid db → IsValid (insert_cycle c db)
insert_cycle-IsValid c db v =
    elim (Bool-cases (is_within_checks c && not (some_of (clashes c) db.cycles))) [
      | inr kept ↦ rw kept v
      | inl taken ↦
          let fresh = no_clash_id c db.cycles (ground arith) in
          rw taken (record {
            counted = (
              (within_checks c _ taken, rw (no_links c db.cycles db.links fresh v.owned) nothing),
              v.counted,
            );
            distinct = (not_has_id c.id db.cycles fresh, v.distinct);
            owned =
                All-mp db.links
                  (λ l h. has_row_more c db.cycles l.workspace_id l.billing_cycle_id h) v.owned;
            taught = v.taught;
          })
    ]
