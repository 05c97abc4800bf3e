-- ===== src/Console/Sorting.antt =====
-- What Go documents of `sort.Slice`, which Daemon/readsystem.go calls.
use proyecto_1_sopes.Prelude.{◌≡◌, Bool, true, false, List, [], ◌∷◌, length, select}
use proyecto_1_sopes.Snapshot.{Process}
use proyecto_1_sopes.Console.{SortSlice}

-- The order that the caller must give: a strict weak ordering.
pub record IsStrictWeak (less : Process → Process → Bool) : Type 0 where
  pub irreflexive : (p : Process) → less p p ≡ false
  pub transitive : (p q r : Process) → less p q ≡ true → less q r ≡ true → less p r ≡ true
  pub negatively_transitive :
      (p q r : Process) → less p q ≡ false → less q r ≡ false → less p r ≡ false

-- No element comes before its predecessor.
abbrev pub IsOrdered : (Process → Process → Bool) → List Process → Type 0
IsOrdered less [] = Unit
IsOrdered less (p ∷ []) = Unit
IsOrdered less (p ∷ q ∷ ps) = (less q p ≡ false) × IsOrdered less (q ∷ ps)

-- The result is ordered, in any arrangement of elements that are not told apart, and has the same
-- elements: as many pass any test.
pub record IsSortSlice (sort_slice : SortSlice) : Type 0 where
  pub sorts :
      (less : Process → Process → Bool) (ps : List Process)
      → IsStrictWeak less
      → IsOrdered less (sort_slice less ps)
  pub keeps :
      (less : Process → Process → Bool) (test : Process → Bool) (ps : List Process)
      → length (select test (sort_slice less ps)) ≡ length (select test ps)
