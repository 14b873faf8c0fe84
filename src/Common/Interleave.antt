-- ===== src/Common/Interleave.antt =====
-- Code that awaits a database which others use too: before each of its statements, what the others
-- did since the last one is applied. A world is the shared store and the list of these changes.
pub mod Triples
use mathlib.Core.List.{List, [], ◌∷◌}
use sozan.Common.Results.{Result}
use sozan.Common.Exec.{Exec}

abbrev pub World : Type 0 → Type 0
World D = D × List (D → D)

-- One statement: an error leaves the store as the others left it or as the statement says.
module _ {D A : Type 0} where
  abbrev pub statement : (D → Result A × D) → Exec (World D) A
  statement f (d, []) = ((f d).0, ((f d).1, []))
  statement f (d, g ∷ gs) = ((f (g d)).0, ((f (g d)).1, gs))
