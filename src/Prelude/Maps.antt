-- ===== src/Prelude/Maps.antt =====
-- Go's maps as association lists with distinct keys. The order of the list is that of first
-- insertion; the order in which `range` visits a map is a parameter where the code ranges over one.
use mathlib.Core.Path.{◌≡◌, refl}
use mathlib.Core.Bool.{◌||◌}
use mathlib.Core.Option.{Option, none, some}
use mathlib.Core.List.{List, [], ◌∷◌}
use native.Mathlib.Omega.{arith}
use proyecto_1_sopes.Prelude.Tests.{if◌then◌else◌}
use proyecto_1_sopes.Prelude.Keys.{Key, ◌==◌, contains, IsDistinct}

abbrev pub Map {ℓ κ} : Type ℓ → Type κ → Type (ℓ ⊔ κ)
Map K V = List (K × V)

abbrev pub keys {ℓ κ} : {K : Type ℓ} {V : Type κ} → Map K V → List K
keys [] = []
keys ((k, _) ∷ m) = k ∷ keys m

module _ {ℓ κ} {K : Type ℓ} ⦃q : Key K⦄ {V : Type κ} where
  -- `v, ok := m[k]`
  abbrev pub lookup : K → Map K V → Option V
  lookup k [] = none
  lookup k ((j, v) ∷ m) = if j == k then some v else lookup k m

  -- `m[k] = v`
  abbrev pub insert : K → V → Map K V → Map K V
  insert k v [] = (k, v) ∷ []
  insert k v ((j, w) ∷ m) = if j == k then (j, v) ∷ m else (j, w) ∷ insert k v m

  pub lookup-insert :
      (k j : K) (v : V) (m : Map K V)
      → lookup j (insert k v m) ≡ (if k == j then some v else lookup j m)
  lookup-insert k j v [] = refl
  lookup-insert k j v ((i, w) ∷ m) =
      ground (arith, q.same_iff k j, q.same_iff i k, q.same_iff i j, lookup-insert k j v m)

  pub contains-keys-insert :
      (k j : K) (v : V) (m : Map K V)
      → contains j (keys (insert k v m)) ≡ (k == j || contains j (keys m))
  contains-keys-insert k j v [] = refl
  contains-keys-insert k j v ((i, w) ∷ m) =
      ground (arith, q.same_iff k j, q.same_iff i k, q.same_iff i j, contains-keys-insert k j v m)

  pub insert-IsDistinct :
      (k : K) (v : V) (m : Map K V) → IsDistinct (keys m) → IsDistinct (keys (insert k v m))
  insert-IsDistinct k v [] h = (refl, tt)
  insert-IsDistinct k v ((i, w) ∷ m) h = ground (
    arith,
    q.same_iff i k,
    q.same_iff k i,
    contains-keys-insert k i v m,
    insert-IsDistinct k v m h.1,
  )
