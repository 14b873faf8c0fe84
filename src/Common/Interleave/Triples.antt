-- ===== src/Common/Interleave/Triples.antt =====
-- What holds in a shared store, statement by statement of a method: where the others respect it, a
-- method that starts where one predicate holds ends where another holds, also when it throws.
use mathlib.Core.Path.{◌≡◌, refl}
use mathlib.Core.List.{[], ◌∷◌}
use mathlib.Core.Option.{Option, none, some}
use mathlib.Core.Logic.{inl, inr}
use mathlib.Core.Bool.{Bool, true, false}
use sozan.Common.Tests.{if◌then◌else◌, Bool-cases}
use sozan.Common.Lists.{All}
use sozan.Common.Results.{Result, Error, ok, err}
use sozan.Common.Exec.{Exec, pure, throw, lift, continue, ◌>>=◌, handled, catching}
use sozan.Common.Interleave.{World, statement}

-- Where a result came from and what holds with it: `Q` of a value, `E` of a throw.
abbrev pub Outcome {ℓ} :
    {D : Type 0} {A : Type ℓ} → (A → D → Type 0) → (D → Type 0) → Result A → D → Type 0
Outcome Q E (ok a) d = Q a d
Outcome Q E (err e) d = E d

abbrev pub OrNone {ℓ} :
    {D : Type 0} {A : Type ℓ} → (A → D → Type 0) → (D → Type 0) → Option A → D → Type 0
OrNone Q E none d = E d
OrNone Q E (some a) d = Q a d

module _ {D : Type 0} (Honest : (D → D) → Type 0) where
  pub record Holds (P : D → Type 0) (w : World D) : Type 0 where
    pub here : P w.0
    pub others : All Honest w.1

  -- The others do not break it.
  abbrev pub IsRespected : (D → Type 0) → Type 0
  IsRespected P = (g : D → D) → Honest g → (d : D) → P d → P (g d)

  -- From `P`, the method ends in `Q` of its value, or throws in `E`.
  pub record Runs {A : Type 0} (E P : D → Type 0) (Q : A → D → Type 0) (m : Exec (World D) A)
      : Type 0 where
    pub run : (w : World D) → Holds P w → Outcome Q E (m w).0 (m w).1.0 × All Honest (m w).1.1

pub Outcome-both {ℓ} :
    {D : Type 0} {A : Type ℓ} (P : D → Type 0) (r : Result A) (d : D) → P d → Outcome (λ a. P) P r d
Outcome-both P (ok a) d h = h
Outcome-both P (err e) d h = h

module _ {D A : Type 0} (Q : A → D → Type 0) (E : D → Type 0) where
  outcome_of :
      (r : Result A) (d : D)
      → ((a : A) → r ≡ ok a → Q a d)
      → ((e : Error) → r ≡ err e → E d)
      → Outcome Q E r d
  outcome_of (ok a) d p q = p a refl
  outcome_of (err e) d p q = q e refl

  handled_outcome :
      (handles : Error → Bool) (r : Result A) (d : D)
      → Outcome Q E r d
      → Outcome (OrNone Q E) E (handled handles r) d
  handled_outcome handles (ok a) d h = h
  handled_outcome handles (err e) d h = elim (Bool-cases (handles e)) [
    | inl y ↦ rw y h
    | inr n ↦ rw n h
  ]

  statement_run :
      (Honest : (D → D) → Type 0) (P : D → Type 0) (f : D → Result A × D)
      → IsRespected Honest P
      → ((d : D) → P d → Outcome Q E (f d).0 (f d).1)
      → (w : World D) → Holds Honest P w
      → Outcome Q E (statement f w).0 (statement f w).1.0 × All Honest (statement f w).1.1
  statement_run Honest P f r own (d, []) h = (own d h.here, h.others)
  statement_run Honest P f r own (d, g ∷ gs) h = (own (g d) (r g h.others.0 d h.here), h.others.1)

module _ {D A : Type 0} {Honest : (D → D) → Type 0} {E P : D → Type 0} {Q : A → D → Type 0} where
  pub statement-Runs :
      (f : D → Result A × D)
      → IsRespected Honest P
      → ((d : D) → P d → Outcome Q E (f d).0 (f d).1)
      → Runs Honest E P Q (statement f)
  statement-Runs f r own = record { run = statement_run Q E Honest P f r own }

  pub pure-Runs : (a : A) → ((d : D) → P d → Q a d) → Runs Honest E P Q (pure a)
  pure-Runs a k = record { run = λ w h. (k w.0 h.here, h.others) }

  pub throw-Runs : (e : Error) → ((d : D) → P d → E d) → Runs Honest E P Q (throw e)
  throw-Runs e k = record { run = λ w h. (k w.0 h.here, h.others) }

  pub if-Runs :
      (b : Bool) (m n : Exec (World D) A)
      → (b ≡ true → Runs Honest E P Q m)
      → (b ≡ false → Runs Honest E P Q n)
      → Runs Honest E P Q (if b then m else n)
  if-Runs true m n p q = p refl
  if-Runs false m n p q = q refl

  pub lift-Runs :
      (r : Result A)
      → ((a : A) → r ≡ ok a → (d : D) → P d → Q a d)
      → ((d : D) → P d → E d)
      → Runs Honest E P Q (lift r)
  lift-Runs r k t = record {
    run = λ w h. (outcome_of Q E r w.0 (λ a e. k a e w.0 h.here) (λ x e. t w.0 h.here), h.others);
  }

  pub catching-Runs :
      (handles : Error → Bool) (m : Exec (World D) A)
      → Runs Honest E P Q m
      → Runs Honest E P (OrNone Q E) (catching handles m)
  catching-Runs handles m k = record {
    run =
        λ w h. let out = k.run w h in (handled_outcome Q E handles (m w).0 (m w).1.0 out.0, out.1);
  }

  pub from-Runs :
      (P' : D → Type 0) (m : Exec (World D) A)
      → Runs Honest E P Q m
      → ((d : D) → P' d → P d)
      → Runs Honest E P' Q m
  from-Runs P' m k t = record {
    run = λ w h. k.run w (record { here = t w.0 h.here; others = h.others });
  }

module _ {D A B : Type 0} {Honest : (D → D) → Type 0} {E : D → Type 0} {Q : B → D → Type 0} where
  continue_runs :
      (R : A → D → Type 0) (r : Result A) (f : A → Exec (World D) B)
      → ((a : A) → Runs Honest E (R a) Q (f a))
      → (w : World D) → Outcome R E r w.0
      → All Honest w.1
      → Outcome Q E (continue r f w).0 (continue r f w).1.0 × All Honest (continue r f w).1.1
  continue_runs R (ok a) f k w h o = (k a).run w (record { here = h; others = o })
  continue_runs R (err e) f k w h o = (h, o)

  -- A chain.
  pub bind-Runs :
      {P : D → Type 0} (R : A → D → Type 0) (m : Exec (World D) A) (f : A → Exec (World D) B)
      → Runs Honest E P R m
      → ((a : A) → Runs Honest E (R a) Q (f a))
      → Runs Honest E P Q (m >>= f)
  bind-Runs R m f a k = record {
    run = λ w h. let out = a.run w h in continue_runs R (m w).0 f k (m w).1 out.0 out.1;
  }
