-- ===== src/Text.antt =====
-- The functions of Go's `strings` and `bufio` packages that the daemon calls, over bytes. Letters
-- and white space are the ASCII ones: on ASCII text these are Go's functions.
pub mod Words
pub mod Lines
pub mod Search
use proyecto_1_sopes.Prelude.{
  ℕ, ◌+◌, Bool, true, false, ◌&&◌, ◌||◌, Option, none, some, List, [], ◌∷◌, ◌++◌, map, ltb, leb,
  eqb, if◌then◌else◌, length, Bytes, is_empty,
}

-- `strings.HasPrefix(s, prefix)`
unfoldable pub has_prefix : Bytes → Bytes → Bool
has_prefix s [] = true
has_prefix [] (p ∷ ps) = false
has_prefix (c ∷ s) (p ∷ ps) = eqb c p && has_prefix s ps

-- `strings.Contains(s, sub)`
unfoldable pub contains_sub : Bytes → Bytes → Bool
unfolding has_prefix
contains_sub [] sub = is_empty sub
contains_sub (c ∷ s) sub = has_prefix (c ∷ s) sub || contains_sub s sub

lower : ℕ → ℕ
lower c = if leb b'A' c && leb c b'Z' then c + 32 else c

-- `strings.ToLower(s)`
unfoldable pub to_lower : Bytes → Bytes
unfolding lower
to_lower = map lower

-- Space, and the bytes from tab to carriage return.
abbrev pub is_space : ℕ → Bool
is_space c = eqb c b' ' || leb 9 c && leb c 13

-- The word read so far, if there is one, before the words that follow.
abbrev pub flush : Bytes → List Bytes → List Bytes
flush [] ws = ws
flush (c ∷ w) ws = (c ∷ w) ∷ ws

unfoldable pub fields_from : Bytes → Bytes → List Bytes
fields_from word [] = flush word []
fields_from word (c ∷ s) =
    let next = fields_from [] s in
    let more = fields_from (word ++ c ∷ []) s in if is_space c then flush word next else more

-- `strings.Fields(s)`
unfoldable pub fields : Bytes → List Bytes
unfolding fields_from
fields = fields_from []

abbrev pub newline : ℕ
newline = 10

-- `bufio.ScanLines` drops one carriage return at the end of a line.
unfoldable pub drop_cr : Bytes → Bytes
drop_cr [] = []
drop_cr (c ∷ []) = if eqb c 13 then [] else c ∷ []
drop_cr (c ∷ d ∷ s) = c ∷ drop_cr (d ∷ s)

-- The lines as they stand between newlines; text after the last newline is a line if it is not
-- empty.
unfoldable pub raw_lines_from : Bytes → Bytes → List Bytes
raw_lines_from line [] = flush line []
raw_lines_from line (c ∷ s) =
    let next = raw_lines_from [] s in
    let more = raw_lines_from (line ++ c ∷ []) s in if eqb c newline then line ∷ next else more

-- `bufio.MaxScanTokenSize`: a line that fills the buffer before its newline is read ends the scan.
abbrev pub max_scan_token_size : ℕ
max_scan_token_size = 65536

abbrev pub fits : List Bytes → Bool
fits [] = true
fits (l ∷ ls) = ltb (length l) max_scan_token_size && fits ls

-- A scanner run to its end: the lines, or `none` when `scanner.Err()` is `ErrTooLong`.
unfoldable pub scan_lines : Bytes → Option (List Bytes)
unfolding raw_lines_from drop_cr
scan_lines s = let ls = raw_lines_from [] s in if fits ls then some (map drop_cr ls) else none
