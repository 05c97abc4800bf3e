-- ===== src/Text/Words.antt =====
-- `fields` on words that single spaces separate.
use proyecto_1_sopes.Prelude.{
  ◌≡◌, refl, true, false, Bool, ◌&&◌, [], ◌∷◌, ◌++◌, List, arith, Bytes, ap, sym, ◌∙◌, append_assoc,
  append-nil, not, is_empty,
}
use proyecto_1_sopes.Text.{is_space, fields, fields_from, flush}

-- A word: no byte of it is white space.
abbrev pub no_space : Bytes → Bool
no_space [] = true
no_space (c ∷ s) = not (is_space c) && no_space s

-- Bytes of a word are added to the word that is being read.
pub fields_from-word :
    (w acc s : Bytes) → no_space w ≡ true → fields_from acc (w ++ s) ≡ fields_from (acc ++ w) s
unfolding fields_from
fields_from-word [] acc s h = ap (λ (t : Bytes). fields_from t s) (sym (append-nil acc))
fields_from-word (c ∷ w) acc s h =
    ground (arith, fields_from-word w (acc ++ c ∷ []) s, append_assoc acc (c ∷ []) w)

pub flush_ne : (w : Bytes) (ws : List Bytes) → is_empty w ≡ false → flush w ws ≡ w ∷ ws
flush_ne [] ws h = ground arith
flush_ne (c ∷ w) ws h = refl

-- A word and a space come off the front.
pub fields-word-space :
    (w s : Bytes) → no_space w ≡ true → is_empty w ≡ false → fields (w ++ (b' ' ∷ s)) ≡ w ∷ fields s
unfolding fields fields_from
fields-word-space w s h e =
    rw (fields_from-word w [] (b' ' ∷ s) h) (flush_ne w (fields_from [] s) e)

pub fields-word : (w : Bytes) → no_space w ≡ true → is_empty w ≡ false → fields w ≡ w ∷ []
unfolding fields fields_from
fields-word w h e =
    ap (fields_from []) (sym (append-nil w)) ∙ (fields_from-word w [] [] h ∙ flush_ne w [] e)
