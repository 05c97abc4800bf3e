-- ===== src/Containers/Removal.antt =====
-- The column `removed_at_ts_ms` under `UpsertContainersFromSnapshot` of Daemon/insert_cont.go.
use proyecto_1_sopes.Prelude.{ℕ, ◌≡◌, Option, none, some, List, Bytes, bytes_key, arith}
use proyecto_1_sopes.Snapshot.{ContInfoSnapshot}
use proyecto_1_sopes.Database.{ContainerRow, Engine}
use proyecto_1_sopes.Database.Laws.{IsSqlite}
use proyecto_1_sopes.Containers.{IdSet, upsert_containers_from_snapshot}
use proyecto_1_sopes.Containers.Rows.{find, seen_all, find-seen_all}
use proyecto_1_sopes.Containers.Marks.{find-row_marked, upsert_rows}
use proyecto_1_sopes.Containers.Upsert.{upsert-keeps}

-- When a container was removed, as the table has it.
abbrev pub removed_at : Bytes → List ContainerRow → Option ℕ
removed_at cid rs = elim (find cid rs) [ none ↦ none | some r ↦ r.removed_at_ts_ms ]

pub upsert_rows-removed_at :
    (cid : Bytes) (t : ℕ) (ks : List Bytes) (ts : ℕ) (current : IdSet) (rs : List ContainerRow)
    → removed_at cid rs ≡ some t
    → removed_at cid (upsert_rows ks ts current rs) ≡ some t
upsert_rows-removed_at cid t ks ts current rs h =
    ground (arith, find-row_marked ts current cid (seen_all ts ks rs), find-seen_all ts ks cid rs)

-- Once a container has a removal time, no snapshot changes or clears it, also when the container is
-- in the snapshot again: a container that comes back still counts as removed.
pub upsert-removed_at :
    {Conn : Type 0} (db : Engine Conn) (laws : IsSqlite db) (cid : Bytes) (t : ℕ)
    (visit : List Bytes → List Bytes) (snap : ContInfoSnapshot) (c : Conn)
    → removed_at cid (laws.tables c).containers ≡ some t
    → removed_at cid (laws.tables (upsert_containers_from_snapshot db visit snap c).1).containers
      ≡ some t
upsert-removed_at db laws cid t =
    upsert-keeps db laws (λ rs. removed_at cid rs ≡ some t) (upsert_rows-removed_at cid t)
