-- ===== src/Rules/Reading.antt =====
-- `listStressContainers` on the text that `docker ps` prints: a container on each line, in the form
-- that the `--format` argument asks for.
use proyecto_1_sopes.Prelude.{
  ◌<◌, ◌≡◌, refl, true, false, Bool, [], ◌∷◌, ◌++◌, List, arith, Bytes, ap, ◌∙◌, append_assoc,
  append-nil, map, some, length, select, is_empty, ok,
}
use proyecto_1_sopes.Text.{has_prefix, fields, max_scan_token_size}
use proyecto_1_sopes.Text.Words.{no_space, fields-word-space, fields-word}
use proyecto_1_sopes.Text.Lines.{
  is_line, is_line-append, is_line_of_no_space, join_lines, AreLines, scan_lines-join_lines,
}
use proyecto_1_sopes.Text.Search.{has_prefix-clash}
use proyecto_1_sopes.Rules.{
  ContainerInfo, Listing, low_prefix, high_cpu_prefix, high_ram_prefix, parse_parts, file_container,
  file_parts, collect, no_containers, parse_listing,
}

-- `{{.ID}} {{.Names}} {{.Image}}`
abbrev pub render_line : ContainerInfo → Bytes
render_line c = c.id ++ (b' ' ∷ (c.name ++ (b' ' ∷ c.image)))

abbrev pub render : List ContainerInfo → Bytes
render cs = join_lines (map render_line cs)

abbrev pub is_word : Bytes → Bool
is_word [] = false
is_word (c ∷ s) = no_space (c ∷ s)

-- Docker's ids, names and image references are words, and a line of them is short.
pub record IsPrintable (c : ContainerInfo) : Type 0 where
  pub id_word : is_word c.id ≡ true
  pub name_word : is_word c.name ≡ true
  pub image_word : is_word c.image ≡ true
  pub short : length (render_line c) < max_scan_token_size

abbrev pub ArePrintable : List ContainerInfo → Type 0
ArePrintable [] = Unit
ArePrintable (c ∷ cs) = IsPrintable c × ArePrintable cs

-- The kinds that the prefixes tell apart.
abbrev pub is_low : ContainerInfo → Bool
is_low c = has_prefix c.name low_prefix

abbrev pub is_high_cpu : ContainerInfo → Bool
is_high_cpu c = has_prefix c.name high_cpu_prefix

abbrev pub is_high_ram : ContainerInfo → Bool
is_high_ram c = has_prefix c.name high_ram_prefix

pub low_not_cpu : (c : ContainerInfo) → is_low c ≡ true → is_high_cpu c ≡ false
low_not_cpu c = has_prefix-clash c.name low_prefix high_cpu_prefix refl

pub low_not_ram : (c : ContainerInfo) → is_low c ≡ true → is_high_ram c ≡ false
low_not_ram c = has_prefix-clash c.name low_prefix high_ram_prefix refl

pub cpu_not_ram : (c : ContainerInfo) → is_high_cpu c ≡ true → is_high_ram c ≡ false
cpu_not_ram c = has_prefix-clash c.name high_cpu_prefix high_ram_prefix refl

is_word_parts : (s : Bytes) → is_word s ≡ true → (no_space s ≡ true) × (is_empty s ≡ false)
is_word_parts [] h = absurd (ground arith)
is_word_parts (c ∷ s) h = (h, refl)

fields-render_line :
    (c : ContainerInfo) → IsPrintable c → fields (render_line c) ≡ c.id ∷ c.name ∷ c.image ∷ []
fields-render_line c h =
    let (i, i') = is_word_parts c.id h.id_word in
    let (n, n') = is_word_parts c.name h.name_word in
    let (m, m') = is_word_parts c.image h.image_word in
    fields-word-space c.id (c.name ++ (b' ' ∷ c.image)) i i'
    ∙ ap (◌∷◌ c.id)
        (fields-word-space c.name c.image n n' ∙ ap (◌∷◌ c.name) (fields-word c.image m m'))

parse-render_line :
    (c : ContainerInfo) → IsPrintable c → parse_parts (fields (render_line c)) ≡ some c
unfolding parse_parts
parse-render_line c h = rw (fields-render_line c h)

render_line-is_line : (c : ContainerInfo) → IsPrintable c → is_line (render_line c) ≡ true
render_line-is_line c h =
    let i = is_line_of_no_space c.id (is_word_parts c.id h.id_word).0 in
    let n = is_line_of_no_space c.name (is_word_parts c.name h.name_word).0 in
    let m = is_line_of_no_space c.image (is_word_parts c.image h.image_word).0 in
    is_line-append c.id (b' ' ∷ (c.name ++ (b' ' ∷ c.image))) i
      (is_line-append c.name (b' ' ∷ c.image) n m)

render-AreLines : (cs : List ContainerInfo) → ArePrintable cs → AreLines (map render_line cs)
render-AreLines [] h = tt
render-AreLines (c ∷ cs) h = (render_line-is_line c h.0, h.0.short, render-AreLines cs h.1)

-- The listing, continued by what more containers add to it.
abbrev add_all : Listing → List ContainerInfo → Listing
add_all l cs = record {
  lows = l.lows ++ select is_low cs;
  highs_cpu = l.highs_cpu ++ select is_high_cpu cs;
  highs_ram = l.highs_ram ++ select is_high_ram cs;
}

add_all-file :
    (c : ContainerInfo) (cs : List ContainerInfo) (l : Listing)
    → add_all (file_container c l) cs ≡ add_all l (c ∷ cs)
unfolding file_container
add_all-file c cs l = ground (
  arith,
  low_not_cpu c,
  low_not_ram c,
  cpu_not_ram c,
  append_assoc l.lows (c ∷ []) (select is_low cs),
  append_assoc l.highs_cpu (c ∷ []) (select is_high_cpu cs),
  append_assoc l.highs_ram (c ∷ []) (select is_high_ram cs),
)

collect-render :
    (cs : List ContainerInfo) (l : Listing)
    → ArePrintable cs
    → collect (map render_line cs) l ≡ add_all l cs
unfolding collect
collect-render [] l h =
    ground (arith, append-nil l.lows, append-nil l.highs_cpu, append-nil l.highs_ram)
collect-render (c ∷ cs) l h =
    ap (λ o. collect (map render_line cs) (file_parts o l)) (parse-render_line c h.0)
    ∙ (collect-render cs (file_container c l) h.1 ∙ add_all-file c cs l)

-- The containers of each kind, in the order of a list.
abbrev pub by_kind : List ContainerInfo → Listing
by_kind cs = record {
  lows = select is_low cs;
  highs_cpu = select is_high_cpu cs;
  highs_ram = select is_high_ram cs;
}

-- Reading what Docker prints for a list of containers gives the containers of each kind, whole and
-- in order, provided that each id, name and image is a word and each line is short.
pub parse_listing-render :
    (cs : List ContainerInfo) → ArePrintable cs → parse_listing (render cs) ≡ ok (by_kind cs)
unfolding parse_listing
parse_listing-render cs h =
    rw (scan_lines-join_lines (map render_line cs) (render-AreLines cs h), parse_listing)
      (ap ok (collect-render cs no_containers h))
