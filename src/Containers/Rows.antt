-- ===== src/Containers/Rows.antt =====
-- What the statements of the `containers` table do to the row of each container id.
use proyecto_1_sopes.Prelude.{
  ℕ, ◌≡◌, ◌≢◌, refl, false, Option, none, some, List, [], ◌∷◌, ◌++◌, if◌then◌else◌, eqb, Bytes,
  bytes_key, bytes_eq, bytes_eq_iff, contains, arith,
}
use proyecto_1_sopes.Database.{Tables, ContainerRow, set_last_seen, new_container, affected}
use proyecto_1_sopes.Containers.{classify_container_type}

-- The row of a container: the first one, where the unique index were missing.
abbrev pub find : Bytes → List ContainerRow → Option ContainerRow
find cid [] = none
find cid (r ∷ rs) = if bytes_eq r.container_id cid then some r else find cid rs

pub find-container_id :
    (cid : Bytes) (rs : List ContainerRow) (r : ContainerRow)
    → find cid rs ≡ some r
    → r.container_id ≡ cid
find-container_id cid [] r h = cc
find-container_id cid (x ∷ rs) r h =
    ground (arith, bytes_eq_iff x.container_id cid, find-container_id cid rs r)

-- A live container: its last sighting moves on, and a new one gets a row.
abbrev pub row_seen : ℕ → Bytes → Option ContainerRow → Option ContainerRow
row_seen ts cid none = some (new_container cid ts ts (classify_container_type cid))
row_seen ts cid (some r) = some (record r { last_seen_ts_ms = ts })

-- The rows after one round of the first loop.
abbrev pub seen_rows : ℕ → Bytes → List ContainerRow → List ContainerRow
seen_rows ts cid rs =
    if eqb (affected cid rs) 0
    then rs ++ new_container cid ts ts (classify_container_type cid) ∷ []
    else set_last_seen ts cid rs

set_last_seen_absent :
    (ts : ℕ) (cid : Bytes) (rs : List ContainerRow)
    → affected cid rs ≡ 0
    → set_last_seen ts cid rs ≡ rs
unfolding set_last_seen
set_last_seen_absent ts cid [] h = refl
set_last_seen_absent ts cid (r ∷ rs) h = ground (arith, set_last_seen_absent ts cid rs)

-- UPDATE, and INSERT where UPDATE affected no row.
pub seen_rows_lem :
    (ts : ℕ) (cid : Bytes) (rs : List ContainerRow)
    → (if eqb (affected cid rs) 0
        then set_last_seen ts cid rs ++ new_container cid ts ts (classify_container_type cid) ∷ []
        else set_last_seen ts cid rs)
      ≡ seen_rows ts cid rs
seen_rows_lem ts cid rs = ground (arith, set_last_seen_absent ts cid rs)

find-set_last_seen :
    (ts : ℕ) (cid j : Bytes) (rs : List ContainerRow)
    → find j (set_last_seen ts cid rs) ≡ (
        if bytes_eq cid j
        then elim (find j rs) [ none ↦ none | some r ↦ some (record r { last_seen_ts_ms = ts }) ]
        else find j rs)
unfolding set_last_seen
find-set_last_seen ts cid j [] = ground arith
find-set_last_seen ts cid j (r ∷ rs) = ground (
  arith,
  bytes_eq_iff r.container_id cid,
  bytes_eq_iff r.container_id j,
  bytes_eq_iff cid j,
  find-set_last_seen ts cid j rs,
)

find-append_new :
    (n : ContainerRow) (j : Bytes) (rs : List ContainerRow)
    → find j (rs ++ n ∷ []) ≡ elim (find j rs) [
      | none ↦ if bytes_eq n.container_id j then some n else none
      | some r ↦ some r
    ]
find-append_new n j [] = refl
find-append_new n j (r ∷ rs) = ground (arith, find-append_new n j rs)

find_absent : (cid : Bytes) (rs : List ContainerRow) → affected cid rs ≡ 0 → find cid rs ≡ none
find_absent cid [] h = refl
find_absent cid (r ∷ rs) h = ground (arith, find_absent cid rs)

find_present :
    (cid : Bytes) (rs : List ContainerRow) → eqb (affected cid rs) 0 ≡ false → find cid rs ≢ none
find_present cid [] h = absurd (ground arith)
find_present cid (r ∷ rs) h = ground (arith, find_present cid rs)

pub find-seen_rows :
    (ts : ℕ) (cid j : Bytes) (rs : List ContainerRow)
    → find j (seen_rows ts cid rs)
      ≡ (if bytes_eq cid j then row_seen ts cid (find cid rs) else find j rs)
find-seen_rows ts cid j rs = ground (
  arith,
  bytes_eq_iff cid j,
  find-set_last_seen ts cid j rs,
  find-append_new (new_container cid ts ts (classify_container_type cid)) j rs,
  find_absent cid rs,
  find_present cid rs,
)

-- The rows after the first loop over `ks`.
abbrev pub seen_all : ℕ → List Bytes → List ContainerRow → List ContainerRow
seen_all ts [] rs = rs
seen_all ts (k ∷ ks) rs = seen_all ts ks (seen_rows ts k rs)

row_seen_idem :
    (ts : ℕ) (cid : Bytes) (o : Option ContainerRow)
    → row_seen ts cid (row_seen ts cid o) ≡ row_seen ts cid o
row_seen_idem ts cid none = refl
row_seen_idem ts cid (some r) = refl

pub find-seen_all :
    (ts : ℕ) (ks : List Bytes) (j : Bytes) (rs : List ContainerRow)
    → find j (seen_all ts ks rs) ≡ (if contains j ks then row_seen ts j (find j rs) else find j rs)
find-seen_all ts [] j rs = refl
find-seen_all ts (k ∷ ks) j rs = ground (
  arith,
  bytes_eq_iff k j,
  find-seen_rows ts k j rs,
  find-seen_all ts ks j (seen_rows ts k rs),
  row_seen_idem ts j (find j rs),
)

-- An effect on the rows of `containers` alone.
abbrev pub on_rows : (List ContainerRow → List ContainerRow) → Tables → Tables
on_rows f d = record d { containers = f d.containers }
