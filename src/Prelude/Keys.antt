-- ===== src/Prelude/Keys.antt =====
-- Types with a Boolean equality: the keys of Go's maps, and strings as lists of bytes.
use Prim.Native.Nat.{ℕ}
use Prim.Native.Char.{code}
use Prim.Native.String.{String}
use mathlib.Core.Path.{◌≡◌, refl}
use mathlib.Core.Logic.{◌↔◌}
use mathlib.Core.Bool.{Bool, true, false, ◌&&◌, ◌||◌}
use mathlib.Core.List.{List, [], ◌∷◌}
use native.Mathlib.Omega.{arith}
use proyecto_1_sopes.Prelude.Tests.{eqb, eqb_iff}

-- A Go string: its bytes.
abbrev pub Bytes : Type 0
Bytes = List ℕ

-- The bytes of an ASCII literal.
abbrev pub ascii : String → Bytes
ascii (String.◌∷◌ letter rest) = code letter ∷ ascii rest
ascii String.[] = []

-- What a map asks of its keys.
pub record Key {ℓ} (K : Type ℓ) : Type ℓ where
  pub same : K → K → Bool
  pub same_iff : (k j : K) → (k ≡ j) ↔ (same k j ≡ true)

abbrev pub bytes_eq : Bytes → Bytes → Bool
bytes_eq [] [] = true
bytes_eq (x ∷ xs) (y ∷ ys) = eqb x y && bytes_eq xs ys
bytes_eq _ _ = false

pub bytes_eq_iff : (s t : Bytes) → (bytes_eq s t ≡ true) ↔ (s ≡ t)
bytes_eq_iff [] [] = ground arith
bytes_eq_iff [] (y ∷ ys) = ground arith
bytes_eq_iff (x ∷ xs) [] = ground arith
bytes_eq_iff (x ∷ xs) (y ∷ ys) = ground (arith, bytes_eq_iff xs ys)

instance abbrev pub bytes_key : Key Bytes
bytes_key = record {
  same = bytes_eq;
  same_iff = λ s t. ((bytes_eq_iff s t).1, (bytes_eq_iff s t).0);
}

instance abbrev pub number_key : Key ℕ
number_key = record { same = eqb; same_iff = λ m n. ((eqb_iff m n).1, (eqb_iff m n).0) }

infix 50 ◌==◌
abbrev pub ◌==◌ {ℓ} : {K : Type ℓ} ⦃q : Key K⦄ → K → K → Bool
◌==◌ ⦃q⦄ k j = q.same k j

module _ {ℓ} {A : Type ℓ} ⦃q : Key A⦄ where
  pub same_refl : (a : A) → (a == a) ≡ true
  same_refl a = (q.same_iff a a).0 refl

  abbrev pub contains : A → List A → Bool
  contains a [] = false
  contains a (x ∷ xs) = x == a || contains a xs

  -- No element is listed twice.
  abbrev pub IsDistinct : List A → Type 0
  IsDistinct [] = Unit
  IsDistinct (x ∷ xs) = (contains x xs ≡ false) × IsDistinct xs
