-- ===== src/Containers.antt =====
-- The `containers` table of Daemon/insert_cont.go: the life of each container from the snapshots, and
-- the count of the removed ones in Daemon/main.go.
pub mod Classify
pub mod Rows
pub mod Marks
pub mod FirstLoop
pub mod SecondLoop
pub mod Upsert
pub mod Lifecycle
pub mod Unique
pub mod Removal
use proyecto_1_sopes.Prelude.{
  ℕ, ◌≡◌, Bool, true, false, Option, none, some, List, [], ◌∷◌, if◌then◌else◌, length, eqb, Map,
  keys, lookup, insert, Bytes, bytes_key, bytes_eq, is_empty, ascii,
}
use proyecto_1_sopes.Text.{to_lower, contains_sub}
use proyecto_1_sopes.Snapshot.{ContProcess, ContInfoSnapshot, is_container_related}
use proyecto_1_sopes.Database.{Engine, update_last_seen, insert_container, mark_removed}
use proyecto_1_sopes.Database.Tx.{
  Sql, exec_failed, rows_affected_failed, query_failed, scan_failed, rows_failed, begin_failed,
  commit_failed, pure, ◌>>=◌, ◌>>◌, or_fail, or_rollback, field_or_rollback, for_each,
}

-- `map[string]struct{}`
abbrev pub IdSet : Type 0
IdSet = Map Bytes (Unit {0})

-- The loop that collects the ids of the live containers: `continue` on a process that is of no
-- container or has no id.
unfoldable pub add_ids : List ContProcess → IdSet → IdSet
add_ids [] current = current
add_ids (p ∷ ps) current = add_ids ps (
    if is_container_related p
    then (if is_empty p.cmdline_or_cont_id then current else insert p.cmdline_or_cont_id tt current)
    else current)

abbrev pub current_ids : ContInfoSnapshot → IdSet
current_ids snap = add_ids snap.procesos []

unfoldable pub contains_ignore_case : Bytes → Bytes → Bool
contains_ignore_case s sub = contains_sub (to_lower s) (to_lower sub)

unfoldable pub classify_container_type : Bytes → Bytes
unfolding contains_ignore_case
classify_container_type container_id =
    if contains_ignore_case container_id (ascii "high-cpu")
    then ascii "HIGH_CPU"
    else if contains_ignore_case container_id (ascii "high-ram")
    then ascii "HIGH_RAM"
    else if contains_ignore_case container_id (ascii "low")
    then ascii "LOW"
    else ascii "UNKNOWN"

-- `_, ok := current[cid]`
abbrev pub has : Bytes → IdSet → Bool
has cid current = elim (lookup cid current) [ none ↦ false | some _ ↦ true ]

module _ {Conn : Type 0} (db : Engine Conn) where
  open db use {exec_tx, begin_tx, query_open, commit, count_removed}

  -- `if rows == 0 { … }`
  unfoldable pub insert_if_new : ℕ → Bytes → ℕ → Sql Conn (Unit {0})
  insert_if_new ts cid rows =
      if eqb rows 0
      then (or_rollback db exec_failed
            (exec_tx (insert_container cid ts ts (classify_container_type cid)))
          >> pure tt)
      else pure tt

  -- The body of the first loop: UPDATE, and INSERT if no row was there.
  unfoldable pub upsert_one : ℕ → Bytes → Sql Conn (Unit {0})
  unfolding insert_if_new
  upsert_one ts cid = do
    res ← or_rollback db exec_failed (exec_tx (update_last_seen ts cid))
    rows ← field_or_rollback db rows_affected_failed res.rows_affected
    insert_if_new ts cid rows

  -- `if _, ok := current[cid]; !ok { … }`
  unfoldable pub mark_if_gone : ℕ → IdSet → Bytes → Sql Conn (Unit {0})
  mark_if_gone ts current cid =
      if has cid current
      then pure tt
      else (or_rollback db exec_failed (exec_tx (mark_removed ts cid)) >> pure tt)

  -- The body of `for rows.Next()`.
  unfoldable pub mark_one : ℕ → IdSet → Option Bytes → Sql Conn (Unit {0})
  unfolding mark_if_gone
  mark_one ts current item = do
    cid ← field_or_rollback db scan_failed item
    mark_if_gone ts current cid

  -- The second loop, over what the query gives, `rows.Err()` and `Commit`.
  unfoldable pub mark_gone : ℕ → IdSet → Sql Conn (Unit {0})
  unfolding mark_one for_each
  mark_gone ts current = do
    rows ← or_rollback db query_failed query_open
    for_each (mark_one ts current) rows.items
    field_or_rollback db rows_failed (if rows.failed then none else some tt)
    or_fail commit_failed commit

  -- From the transaction's beginning to its end. `visit` is the order in which `range` goes through
  -- the map's keys.
  unfoldable pub upsert_tx : (List Bytes → List Bytes) → ℕ → IdSet → Sql Conn (Unit {0})
  unfolding upsert_one mark_gone for_each
  upsert_tx visit ts current = do
    or_fail begin_failed begin_tx
    for_each (upsert_one ts) (visit (keys current))
    mark_gone ts current

  -- `UpsertContainersFromSnapshot`
  unfoldable pub upsert_containers_from_snapshot :
      (List Bytes → List Bytes) → ContInfoSnapshot → Sql Conn (Unit {0})
  unfolding upsert_tx add_ids
  upsert_containers_from_snapshot visit snap =
      let current = current_ids snap in
      if eqb (length current) 0 then pure tt else upsert_tx visit snap.ts_ms current

  -- `GetTotalDeletedContainers`
  unfoldable pub get_total_deleted_containers : Sql Conn ℕ
  get_total_deleted_containers = or_fail query_failed count_removed
