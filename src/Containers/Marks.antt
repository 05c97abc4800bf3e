-- ===== src/Containers/Marks.antt =====
-- The second loop: an open row whose container is not in the snapshot is marked as removed.
use proyecto_1_sopes.Prelude.{
  ℕ, ◌≡◌, refl, sym, ◌∙◌, ap, true, ◌&&◌, not, none, some, List, [], ◌∷◌, if◌then◌else◌, Bytes,
  bytes_key, bytes_eq_iff, contains, arith, map,
}
use proyecto_1_sopes.Database.{ContainerRow, set_removed, is_open, container_ids, open_ids}
use proyecto_1_sopes.Containers.{IdSet, has}
use proyecto_1_sopes.Containers.Rows.{find, seen_all}

module _ (ts : ℕ) (current : IdSet) where
  abbrev pub mark_rows : List Bytes → List ContainerRow → List ContainerRow
  mark_rows [] rs = rs
  mark_rows (k ∷ ks) rs = mark_rows ks (if has k current then rs else set_removed ts k rs)

  abbrev pub row_marked : ContainerRow → ContainerRow
  row_marked r =
      if is_open r && not (has r.container_id current)
      then record r { removed_at_ts_ms = some ts }
      else r

  -- The same for the rows whose id is among `ks`.
  abbrev marked_in : List Bytes → ContainerRow → ContainerRow
  marked_in ks r = if contains r.container_id ks then row_marked r else r

  map-marked_in_nil : (rs : List ContainerRow) → map (marked_in []) rs ≡ rs
  map-marked_in_nil [] = refl
  map-marked_in_nil (r ∷ rs) = ap (◌∷◌ r) (map-marked_in_nil rs)

  map-marked_in_cons :
      (k : Bytes) (ks : List Bytes) (rs : List ContainerRow)
      → map (marked_in ks) (if has k current then rs else set_removed ts k rs)
        ≡ map (marked_in (k ∷ ks)) rs
  unfolding set_removed
  map-marked_in_cons k ks [] = ground arith
  map-marked_in_cons k ks (r ∷ rs) = ground (
    arith,
    bytes_eq_iff k r.container_id,
    bytes_eq_iff r.container_id k,
    map-marked_in_cons k ks rs,
  )

  mark_rows-map :
      (ks : List Bytes) (rs : List ContainerRow) → mark_rows ks rs ≡ map (marked_in ks) rs
  mark_rows-map [] rs = sym (map-marked_in_nil rs)
  mark_rows-map (k ∷ ks) rs =
      mark_rows-map ks (if has k current then rs else set_removed ts k rs)
      ∙ map-marked_in_cons k ks rs

  -- Every open row has its id among `ks`.
  abbrev pub OpenAreIn : List Bytes → List ContainerRow → Type 0
  OpenAreIn ks [] = Unit
  OpenAreIn ks (r ∷ rs) = (is_open r ≡ true → contains r.container_id ks ≡ true) × OpenAreIn ks rs

  map-marked_in_open :
      (ks : List Bytes) (rs : List ContainerRow)
      → OpenAreIn ks rs
      → map (marked_in ks) rs ≡ map row_marked rs
  map-marked_in_open ks [] h = refl
  map-marked_in_open ks (r ∷ rs) h = ground (arith, map-marked_in_open ks rs h.1)

  OpenAreIn_lem :
      (ks : List Bytes) (rs : List ContainerRow)
      → ((k : Bytes) → contains k (open_ids rs) ≡ true → contains k ks ≡ true)
      → OpenAreIn ks rs
  OpenAreIn_lem ks [] h = tt
  OpenAreIn_lem ks (r ∷ rs) h = (
    λ o. h r.container_id (ground (arith, bytes_eq_iff r.container_id r.container_id)),
    OpenAreIn_lem ks rs (λ k m. h k (ground arith)),
  )

  -- Marking the ids that the query gives, in any order, marks each open row that is not current.
  pub mark_rows_lem :
      (ks : List Bytes) (rs : List ContainerRow)
      → ((k : Bytes) → contains k ks ≡ contains k (open_ids rs))
      → mark_rows ks rs ≡ map row_marked rs
  mark_rows_lem ks rs h =
      mark_rows-map ks rs ∙ map-marked_in_open ks rs (OpenAreIn_lem ks rs (λ k m. h k ∙ m))

  pub find-row_marked :
      (j : Bytes) (rs : List ContainerRow)
      → find j (map row_marked rs) ≡ elim (find j rs) [ none ↦ none | some r ↦ some (row_marked r) ]
  find-row_marked j [] = refl
  find-row_marked j (r ∷ rs) = ground (arith, find-row_marked j rs)

  pub container_ids-row_marked :
      (rs : List ContainerRow) → container_ids (map row_marked rs) ≡ container_ids rs
  container_ids-row_marked [] = refl
  container_ids-row_marked (r ∷ rs) = ground (arith, container_ids-row_marked rs)

-- The rows after the whole transaction.
abbrev pub upsert_rows : List Bytes → ℕ → IdSet → List ContainerRow → List ContainerRow
upsert_rows ks ts current rs = map (row_marked ts current) (seen_all ts ks rs)
