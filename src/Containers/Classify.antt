-- ===== src/Containers/Classify.antt =====
-- `classifyContainerType` of Daemon/insert_cont.go, on the texts that stand in an id.
use proyecto_1_sopes.Prelude.{
  ◌≡◌, refl, ap, Bool, true, false, [], ◌∷◌, ◌++◌, arith, Bytes, ascii, Bool-cases, inl, inr,
  if◌then◌else◌,
}
use proyecto_1_sopes.Text.{has_prefix, contains_sub, to_lower}
use proyecto_1_sopes.Text.Search.{has_prefix-rest, contains_sub-append}
use proyecto_1_sopes.Containers.{contains_ignore_case, classify_container_type}

-- The text stands somewhere in the string, letters of either case being the same.
abbrev pub Occurs : Bytes → Bytes → Type 0
Occurs sub s = (pre : Bytes) × (post : Bytes) × (to_lower s ≡ pre ++ (sub ++ post))

contains_sub-parts :
    (s sub : Bytes)
    → contains_sub s sub ≡ true
    → (pre : Bytes) × (post : Bytes) × (s ≡ pre ++ (sub ++ post))
unfolding contains_sub
contains_sub-parts [] [] h = ([], [], refl)
contains_sub-parts [] (x ∷ sub) h = absurd (ground arith)
contains_sub-parts (c ∷ s) sub h = elim (Bool-cases (has_prefix (c ∷ s) sub)) [
  | inl e ↦ let (post, q) = has_prefix-rest (c ∷ s) sub e in ([], post, q)
  | inr e ↦
      let (pre, post, q) = contains_sub-parts s sub (ground arith) in (c ∷ pre, post, ap (◌∷◌ c) q)
]

-- Which type an id has, first match first.
pub data Classified (s : Bytes) : Bytes → Type 0 where
  high_cpu : Occurs (ascii "high-cpu") s → Classified s (ascii "HIGH_CPU")
  high_ram :
      (Occurs (ascii "high-cpu") s → ⊥)
      → Occurs (ascii "high-ram") s
      → Classified s (ascii "HIGH_RAM")
  low :
      (Occurs (ascii "high-cpu") s → ⊥)
      → (Occurs (ascii "high-ram") s → ⊥)
      → Occurs (ascii "low") s
      → Classified s (ascii "LOW")
  unknown :
      (Occurs (ascii "high-cpu") s → ⊥)
      → (Occurs (ascii "high-ram") s → ⊥)
      → (Occurs (ascii "low") s → ⊥)
      → Classified s (ascii "UNKNOWN")

abbrev found : Bytes → Bytes → Bool
found sub s = contains_sub (to_lower s) sub

occurs : (sub s : Bytes) → found sub s ≡ true → Occurs sub s
occurs sub s h = contains_sub-parts (to_lower s) sub h

not-Occurs : (sub s : Bytes) → found sub s ≡ false → Occurs sub s → ⊥
not-Occurs sub s h (pre, post, e) =
    let k = contains_sub-append pre sub post in
    absurd (ground (arith, ap (λ (t : Bytes). contains_sub t sub) e))

Classified-at :
    (s : Bytes) (a b c : Bool)
    → found (ascii "high-cpu") s ≡ a
    → found (ascii "high-ram") s ≡ b
    → found (ascii "low") s ≡ c
    → Classified s (
        if a
        then ascii "HIGH_CPU"
        else if b
        then ascii "HIGH_RAM"
        else if c
        then ascii "LOW"
        else ascii "UNKNOWN")
Classified-at s true b c h k l = high_cpu (occurs _ s h)
Classified-at s false true c h k l = high_ram (not-Occurs _ s h) (occurs _ s k)
Classified-at s false false true h k l = low (not-Occurs _ s h) (not-Occurs _ s k) (occurs _ s l)
Classified-at s false false false h k l =
    unknown (not-Occurs _ s h) (not-Occurs _ s k) (not-Occurs _ s l)

-- The type is HIGH_CPU if "high-cpu" stands in the id, in letters of either case, else HIGH_RAM if
-- "high-ram" does, else LOW if "low" does, and UNKNOWN where none of the three stands in it.
pub classify_container_type-Classified : (s : Bytes) → Classified s (classify_container_type s)
unfolding classify_container_type contains_ignore_case to_lower
classify_container_type-Classified s =
    Classified-at s (found (ascii "high-cpu") s) (found (ascii "high-ram") s)
      (found (ascii "low") s) refl refl refl
