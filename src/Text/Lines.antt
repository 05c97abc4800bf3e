-- ===== src/Text/Lines.antt =====
-- `scan_lines` on a text made of lines that end in a newline.
use proyecto_1_sopes.Prelude.{
  ◌<◌, ◌≡◌, refl, true, Bool, ◌&&◌, [], ◌∷◌, ◌++◌, List, arith, eqb, Bytes, ap, sym, ◌∙◌,
  append_assoc, append-nil, not, map, some, length, lt→ltb,
}
use proyecto_1_sopes.Text.{raw_lines_from, newline, drop_cr, scan_lines, max_scan_token_size, fits}
use proyecto_1_sopes.Text.Words.{no_space}

-- No newline and no carriage return stands in the text.
abbrev pub is_line : Bytes → Bool
is_line [] = true
is_line (c ∷ s) = not (eqb c newline) && (not (eqb c 13) && is_line s)

pub is_line-append : (s t : Bytes) → is_line s ≡ true → is_line t ≡ true → is_line (s ++ t) ≡ true
is_line-append [] t h k = k
is_line-append (c ∷ s) t h k = ground (arith, is_line-append s t)

pub is_line_of_no_space : (s : Bytes) → no_space s ≡ true → is_line s ≡ true
is_line_of_no_space [] h = refl
is_line_of_no_space (c ∷ s) h = ground (arith, is_line_of_no_space s)

pub raw_lines_from-line :
    (l acc s : Bytes) → is_line l ≡ true → raw_lines_from acc (l ++ s) ≡ raw_lines_from (acc ++ l) s
unfolding raw_lines_from
raw_lines_from-line [] acc s h = ap (λ (t : Bytes). raw_lines_from t s) (sym (append-nil acc))
raw_lines_from-line (c ∷ l) acc s h =
    ground (arith, raw_lines_from-line l (acc ++ c ∷ []) s, append_assoc acc (c ∷ []) l)

pub drop_cr_line : (l : Bytes) → is_line l ≡ true → drop_cr l ≡ l
unfolding drop_cr
drop_cr_line [] h = refl
drop_cr_line (c ∷ []) h = ground arith
drop_cr_line (c ∷ d ∷ s) h = ground (arith, drop_cr_line (d ∷ s))

-- Each line, with a newline after it.
abbrev pub join_lines : List Bytes → Bytes
join_lines [] = []
join_lines (l ∷ ls) = l ++ (newline ∷ join_lines ls)

-- Every line is short enough for the scanner's buffer and holds no line break.
abbrev pub AreLines : List Bytes → Type 0
AreLines [] = Unit
AreLines (l ∷ ls) = (is_line l ≡ true) × (length l < max_scan_token_size) × AreLines ls

raw_lines-join_lines : (ls : List Bytes) → AreLines ls → raw_lines_from [] (join_lines ls) ≡ ls
unfolding raw_lines_from
raw_lines-join_lines [] h = refl
raw_lines-join_lines (l ∷ ls) h =
    raw_lines_from-line l [] (newline ∷ join_lines ls) h.0
    ∙ ap (◌∷◌ l) (raw_lines-join_lines ls h.2)

fits_lem : (ls : List Bytes) → AreLines ls → fits ls ≡ true
fits_lem [] h = refl
fits_lem (l ∷ ls) h = ground (arith, fits_lem ls h.2, lt→ltb (length l) max_scan_token_size h.1)

map-drop_cr : (ls : List Bytes) → AreLines ls → map drop_cr ls ≡ ls
map-drop_cr [] h = refl
map-drop_cr (l ∷ ls) h = ground (arith, drop_cr_line l h.0, map-drop_cr ls h.2)

pub scan_lines-join_lines : (ls : List Bytes) → AreLines ls → scan_lines (join_lines ls) ≡ some ls
unfolding scan_lines
scan_lines-join_lines ls h = rw (raw_lines-join_lines ls h, fits_lem ls h, map-drop_cr ls h)
