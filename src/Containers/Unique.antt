-- ===== src/Containers/Unique.antt =====
-- The ids of the rows of `containers` under `UpsertContainersFromSnapshot`, Daemon/insert_cont.go.
use proyecto_1_sopes.Prelude.{
  ℕ, ◌≡◌, refl, sym, subst, ap, ◌||◌, List, [], ◌∷◌, ◌++◌, Bytes, bytes_key, bytes_eq, bytes_eq_iff,
  contains, arith, IsDistinct,
}
use proyecto_1_sopes.Snapshot.{ContInfoSnapshot}
use proyecto_1_sopes.Database.{
  ContainerRow, Engine, container_ids, set_last_seen, affected, new_container,
}
use proyecto_1_sopes.Database.Laws.{IsSqlite}
use proyecto_1_sopes.Containers.{IdSet, classify_container_type, upsert_containers_from_snapshot}
use proyecto_1_sopes.Containers.Rows.{seen_rows, seen_all}
use proyecto_1_sopes.Containers.Marks.{container_ids-row_marked, upsert_rows}
use proyecto_1_sopes.Containers.Upsert.{upsert-keeps}

container_ids-set_last_seen :
    (ts : ℕ) (cid : Bytes) (rs : List ContainerRow)
    → container_ids (set_last_seen ts cid rs) ≡ container_ids rs
unfolding set_last_seen
container_ids-set_last_seen ts cid [] = refl
container_ids-set_last_seen ts cid (r ∷ rs) = ground (arith, container_ids-set_last_seen ts cid rs)

contains-container_ids-new :
    (k : Bytes) (n : ContainerRow) (rs : List ContainerRow)
    → contains k (container_ids (rs ++ n ∷ []))
      ≡ (contains k (container_ids rs) || bytes_eq n.container_id k)
contains-container_ids-new k n [] = ground arith
contains-container_ids-new k n (r ∷ rs) = ground (arith, contains-container_ids-new k n rs)

new-IsDistinct :
    (n : ContainerRow) (rs : List ContainerRow)
    → affected n.container_id rs ≡ 0
    → IsDistinct (container_ids rs)
    → IsDistinct (container_ids (rs ++ n ∷ []))
new-IsDistinct n [] e h = (refl, tt)
new-IsDistinct n (r ∷ rs) e h = ground (
  arith,
  bytes_eq_iff r.container_id n.container_id,
  bytes_eq_iff n.container_id r.container_id,
  contains-container_ids-new r.container_id n rs,
  new-IsDistinct n rs,
)

seen_rows-IsDistinct :
    (ts : ℕ) (cid : Bytes) (rs : List ContainerRow)
    → IsDistinct (container_ids rs)
    → IsDistinct (container_ids (seen_rows ts cid rs))
seen_rows-IsDistinct ts cid rs h = ground (
  arith,
  ap IsDistinct (container_ids-set_last_seen ts cid rs),
  new-IsDistinct (new_container cid ts ts (classify_container_type cid)) rs,
)

seen_all-IsDistinct :
    (ts : ℕ) (ks : List Bytes) (rs : List ContainerRow)
    → IsDistinct (container_ids rs)
    → IsDistinct (container_ids (seen_all ts ks rs))
seen_all-IsDistinct ts [] rs h = h
seen_all-IsDistinct ts (k ∷ ks) rs h =
    seen_all-IsDistinct ts ks (seen_rows ts k rs) (seen_rows-IsDistinct ts k rs h)

pub upsert_rows-IsDistinct :
    (ks : List Bytes) (ts : ℕ) (current : IdSet) (rs : List ContainerRow)
    → IsDistinct (container_ids rs)
    → IsDistinct (container_ids (upsert_rows ks ts current rs))
upsert_rows-IsDistinct ks ts current rs h =
    subst IsDistinct (sym (container_ids-row_marked ts current (seen_all ts ks rs)))
      (seen_all-IsDistinct ts ks rs h)

-- The code itself keeps the ids of the rows distinct, on every path, with no help of the unique
-- index and in any order of visiting.
pub upsert-IsDistinct :
    {Conn : Type 0} (db : Engine Conn) (laws : IsSqlite db) (visit : List Bytes → List Bytes)
    (snap : ContInfoSnapshot) (c : Conn)
    → IsDistinct (container_ids (laws.tables c).containers)
    → IsDistinct
        (container_ids (laws.tables (upsert_containers_from_snapshot db visit snap c).1).containers)
upsert-IsDistinct db laws =
    upsert-keeps db laws (λ rs. IsDistinct (container_ids rs)) upsert_rows-IsDistinct
