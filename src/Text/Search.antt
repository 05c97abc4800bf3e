-- ===== src/Text/Search.antt =====
-- `contains_sub` and `has_prefix` as statements on how a string is put together.
use proyecto_1_sopes.Prelude.{
  ◌≡◌, refl, true, false, [], ◌∷◌, ◌++◌, arith, eqb, Bytes, ◌||◌, not, Bool,
}
use proyecto_1_sopes.Text.{has_prefix, contains_sub}

pub has_prefix-append : (sub post : Bytes) → has_prefix (sub ++ post) sub ≡ true
unfolding has_prefix
has_prefix-append [] [] = refl
has_prefix-append [] (c ∷ s) = refl
has_prefix-append (c ∷ sub) post = ground (arith, has_prefix-append sub post)

pub contains_sub-append : (pre sub post : Bytes) → contains_sub (pre ++ (sub ++ post)) sub ≡ true
unfolding contains_sub
contains_sub-append [] [] [] = refl
contains_sub-append [] [] (c ∷ post) = refl
contains_sub-append [] (c ∷ sub) post = ground (arith, has_prefix-append (c ∷ sub) post)
contains_sub-append (c ∷ pre) sub post = ground (arith, contains_sub-append pre sub post)

pub has_prefix-rest : (s sub : Bytes) → has_prefix s sub ≡ true → (post : Bytes) × (s ≡ sub ++ post)
unfolding has_prefix
has_prefix-rest s [] h = (s, refl)
has_prefix-rest [] (p ∷ sub) h = absurd (ground arith)
has_prefix-rest (c ∷ s) (p ∷ sub) h =
    let (post, e) = has_prefix-rest s sub (ground arith) in (post, ground arith)

-- Two texts that differ at a place that both have.
abbrev pub clash : Bytes → Bytes → Bool
clash (x ∷ p) (y ∷ q) = not (eqb x y) || clash p q
clash _ _ = false

-- No string begins with both of two such texts.
pub has_prefix-clash :
    (s p q : Bytes) → clash p q ≡ true → has_prefix s p ≡ true → has_prefix s q ≡ false
unfolding has_prefix
has_prefix-clash s [] q h e = absurd (ground arith)
has_prefix-clash s (x ∷ p) [] h e = absurd (ground arith)
has_prefix-clash [] (x ∷ p) (y ∷ q) h e = refl
has_prefix-clash (c ∷ s) (x ∷ p) (y ∷ q) h e = ground (arith, has_prefix-clash s p q)
