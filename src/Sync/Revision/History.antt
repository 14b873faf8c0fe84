-- ===== src/Sync/Revision/History.antt =====
-- What the writers and readers of one workspace can do to its row and its data, as steps, and what
-- every history of such steps keeps. Writers change the data only while they hold the lease, and
-- give a lease back without a new revision only if they changed nothing: so `restoreBackupAtomic`
-- and the sync routes use it.
use mathlib.Core.Bool.{false≢true}
use sozan.Common.{
  sym, ◌∙◌, ℕ, ◌≤◌, ◌≡◌, refl, String, Bool, true, false, ◌&&◌, Option, none, some, is_some,
  or_default, arith, inl, inr, Bool-cases,
}
use sozan.Sync.Revision.{
  Row, Server, first_row, recover_row, reserve_row, abort_row, finalize_row, update_row,
}

-- A server, and whether its data were changed under the present lease.
pub record Site (Data : Type 0) : Type 0 where
  pub server : Server Data
  pub open server use *
  pub dirty : Bool

abbrev pub revision_of : Option Row → ℕ
revision_of none = 0
revision_of (some row) = row.revision

abbrev pub is_leased : Option Row → Bool
is_leased none = false
is_leased (some row) = is_some row.writer_token

module _ {Data : Type 0} where
  -- One step of somebody.
  pub data Step (s u : Site Data) : Type 0 where
    tick : u.row ≡ s.row → u.store ≡ s.store → u.dirty ≡ s.dirty → Step s u
    ensure :
        u.row ≡ some (or_default s.row first_row) → u.store ≡ s.store → u.dirty ≡ s.dirty → Step s u
    recover :
        u.row ≡ update_row (recover_row s.now) s.row
        → u.store ≡ s.store
        → u.dirty ≡ (s.dirty && is_leased u.row)
        → Step s u
    reserve :
        (expected : ℕ) (token : String)
        → u.row ≡ update_row (reserve_row s.now expected token) s.row
        → u.store ≡ s.store
        → u.dirty ≡ s.dirty
        → Step s u
    write : is_leased s.row ≡ true → u.row ≡ s.row → u.dirty ≡ true → Step s u
    abort :
        (token : String)
        → s.dirty ≡ false
        → u.row ≡ update_row (abort_row token) s.row
        → u.store ≡ s.store
        → u.dirty ≡ false
        → Step s u
    finalize :
        (token : String)
        → u.row ≡ update_row (finalize_row token) s.row
        → u.store ≡ s.store
        → u.dirty ≡ (s.dirty && is_leased u.row)
        → Step s u

  pub data History (s : Site Data) : Site Data → Type 0 where
    here : History s s
    next : {t u : Site Data} → History s t → Step t u → History s u

  -- Changed data are under a lease.
  pub record IsSound (s : Site Data) : Type 0 where
    pub leased : s.dirty ≡ true → is_leased s.row ≡ true

  -- What a history keeps: the revision never falls, and while it stays the same the data change
  -- only under a lease that is still there.
  pub record Extends (s u : Site Data) : Type 0 where
    pub grows : revision_of s.row ≤ revision_of u.row
    pub stays_dirty : revision_of u.row ≡ revision_of s.row → s.dirty ≡ true → u.dirty ≡ true
    pub same_store : revision_of u.row ≡ revision_of s.row → u.dirty ≡ false → u.store ≡ s.store

  Step-IsSound : {s u : Site Data} → Step s u → IsSound s → IsSound u
  Step-IsSound {s} {u} (tick r d e) v = record { leased = λ h. ground (arith, v.leased) }
  Step-IsSound {s} {u} (ensure r d e) v = record { leased = λ h. ground (arith, v.leased) }
  Step-IsSound {s} {u} (recover r d e) v = record { leased = λ h. ground arith }
  Step-IsSound {s} {u} (reserve n t r d e) v = record { leased = λ h. ground (arith, v.leased) }
  Step-IsSound {s} {u} (write l r e) v = record { leased = λ h. ground arith }
  Step-IsSound {s} {u} (abort t c r d e) v = record { leased = λ h. ground arith }
  Step-IsSound {s} {u} (finalize t r d e) v = record { leased = λ h. ground arith }

  pub History-IsSound : {s u : Site Data} → IsSound s → History s u → IsSound u
  History-IsSound v here = v
  History-IsSound v (next h st) = Step-IsSound st (History-IsSound v h)

  Step-Extends : {s u : Site Data} → Step s u → IsSound s → Extends s u
  Step-Extends {s} {u} (tick r d e) v = record {
    grows = ground arith;
    stays_dirty = ground arith;
    same_store = λ _ _. d;
  }
  Step-Extends {s} {u} (ensure r d e) v = record {
    grows = ground arith;
    stays_dirty = ground arith;
    same_store = λ _ _. d;
  }
  Step-Extends {s} {u} (recover r d e) v = record {
    grows = ground arith;
    stays_dirty = ground (arith, v.leased);
    same_store = λ _ _. d;
  }
  Step-Extends {s} {u} (reserve n t r d e) v = record {
    grows = ground arith;
    stays_dirty = ground arith;
    same_store = λ _ _. d;
  }
  Step-Extends {s} {u} (write l r e) v = record {
    grows = ground arith;
    stays_dirty = λ _ _. e;
    same_store = λ _ c. cc (c, e);
  }
  Step-Extends {s} {u} (abort t c r d e) v = record {
    grows = ground arith;
    stays_dirty = λ _ h. cc (c, h);
    same_store = λ _ _. d;
  }
  Step-Extends {s} {u} (finalize t r d e) v = record {
    grows = ground arith;
    stays_dirty = ground (arith, v.leased);
    same_store = λ _ _. d;
  }

  Extends-refl : (s : Site Data) → Extends s s
  Extends-refl s = record { grows = omega arith; stays_dirty = λ _ h. h; same_store = λ _ _. refl }

  pub Extends-trans : {s t u : Site Data} → Extends s t → Extends t u → Extends s u
  Extends-trans {s} {t} {u} a b = record {
    grows = omega (arith, a.grows, b.grows);
    stays_dirty = λ e d.
        b.stays_dirty (omega (arith, a.grows, b.grows))
          (a.stays_dirty (omega (arith, a.grows, b.grows)) d);
    same_store = λ e c. elim (Bool-cases t.dirty) [
      | inl d ↦ absurd (false≢true (sym c ∙ b.stays_dirty (omega (arith, a.grows, b.grows)) d))
      | inr n ↦
          b.same_store (omega (arith, a.grows, b.grows)) c
          ∙ a.same_store (omega (arith, a.grows, b.grows)) n
    ];
  }

  pub History-Extends : {s u : Site Data} → IsSound s → History s u → Extends s u
  History-Extends {s} v here = Extends-refl s
  History-Extends v (next h st) =
      Extends-trans (History-Extends v h) (Step-Extends st (History-IsSound v h))

  -- Between two moments with the same revision at which nobody holds the lease, the data are
  -- everywhere what they are at the end.
  pub stable_between :
      {s t u : Site Data}
      → IsSound s
      → History s t
      → History t u
      → is_leased u.row ≡ false
      → revision_of u.row ≡ revision_of s.row
      → t.store ≡ u.store
  stable_between {s} {t} {u} v h k free same =
      let a = History-Extends v h in
      let b = History-Extends (History-IsSound v h) k in
      let clean : u.dirty ≡ false =
        ground (arith, (History-IsSound (History-IsSound v h) k).leased) in
      sym (b.same_store (omega (arith, same, a.grows, b.grows)) clean)

  pub History-append : {s t u : Site Data} → History s t → History t u → History s u
  History-append h here = h
  History-append h (next k st) = next (History-append h k) st
