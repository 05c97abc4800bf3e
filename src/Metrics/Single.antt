-- ===== src/Metrics/Single.antt =====
-- The single inserts, outside a transaction, and the numbers that they store.
use proyecto_1_sopes.Prelude.{
  ℕ, ◌-◌, ◌≤◌, ◌<◌, ◌≡◌, refl, Option, none, some, List, [], ◌∷◌, Result, ok, err, keys, contains,
  Bytes, bytes_key, IsDistinct, insert-IsDistinct, length, arith, insert, if◌then◌else◌, eqb,
}
use proyecto_1_sopes.Snapshot.{SysInfo, ContProcess, ContInfoSnapshot, word}
use proyecto_1_sopes.Database.{
  Engine, Stmt, apply, ExecResult, insert_system_metrics, insert_container_host_metrics,
}
use proyecto_1_sopes.Database.Tx.{
  Error, exec_failed, last_insert_id_failed, ◌>>=◌, or_fail, field_or_fail,
}
use proyecto_1_sopes.Database.Laws.{IsSqlite}
use proyecto_1_sopes.Cpu.{Float64}
use proyecto_1_sopes.Containers.{IdSet, add_ids, current_ids}
use proyecto_1_sopes.Containers.Lifecycle.{is_alive, contains-current_ids}
use proyecto_1_sopes.Metrics.{ram_used, system_row, insert_system, host_row, insert_host}

-- Where the total is below 2 ^ 64 and neither the free RAM nor the RAM in use that the kernel reports
-- is above it, the stored RAM in use is within the total; it is the reported one, or total minus
-- free, without wrapping, where the report is 0.
pub ram_used_bounds :
    (si : SysInfo)
    → si.total_ram_kb < word
    → si.free_ram_kb ≤ si.total_ram_kb
    → si.ram_used_kb ≤ si.total_ram_kb
    → (ram_used si ≤ si.total_ram_kb)
      × (ram_used si
          ≡ (if eqb si.ram_used_kb 0 then si.total_ram_kb - si.free_ram_kb else si.ram_used_kb))
unfolding ram_used
ram_used_bounds si w f u = ground arith

module _ {Conn : Type 0} (db : Engine Conn) (laws : IsSqlite db) where
  open laws use {tables, exec_db_ok, exec_db_err}

  -- The row is stored unless the statement itself failed: an error on reading the new id comes after
  -- the row is in the table.
  abbrev pub Stores : Stmt → Conn → Result Error ℕ × Conn → Type 0
  Stores s c (ok _, c') = tables c' ≡ apply s (tables c)
  Stores s c (err exec_failed, c') = tables c' ≡ tables c
  Stores s c (err last_insert_id_failed, c') = tables c' ≡ apply s (tables c)
  Stores s c (err _, c') = ⊥

  insert_at :
      (s : Stmt) (c : Conn) (r : Option ExecResult × Conn)
      → ((x : ExecResult) → r.0 ≡ some x → tables r.1 ≡ apply s (tables c))
      → (r.0 ≡ none → tables r.1 ≡ tables c)
      → Stores s c (
          (or_fail exec_failed (λ _. r) >>= λ res.
          field_or_fail last_insert_id_failed res.last_insert_id)
            c)
  insert_at s c (none, c') h k = k refl
  insert_at s c (some x, c') h k =
      elim x.last_insert_id as (λ o. Stores s c (field_or_fail last_insert_id_failed o c')) [
        | none ↦ h x refl
        | some i ↦ h x refl
      ]

  -- `InsertSystemMetrics` stores its row and nothing else unless the statement failed, in which
  -- case it changes nothing: an error on reading the new id comes with the row stored. The
  -- database is one that keeps the laws of SQLite.
  pub insert_system-Stores :
      (fl : Float64) (si : SysInfo) (c : Conn)
      → Stores (insert_system_metrics (system_row fl si)) c (insert_system db fl si c)
  unfolding insert_system
  insert_system-Stores fl si c =
      let s = insert_system_metrics (system_row fl si) in
      insert_at s c (db.exec_db s c) (λ x e. exec_db_ok s c e) (exec_db_err s c)

  -- `InsertContainerHostMetrics` stores its row and nothing else unless the statement failed, in
  -- which case it changes nothing: an error on reading the new id comes with the row stored. The
  -- database is one that keeps the laws of SQLite.
  pub insert_host-Stores :
      (snap : ContInfoSnapshot) (deleted : ℕ) (c : Conn)
      → Stores
          (insert_container_host_metrics (host_row snap deleted))
          c
          (insert_host db snap deleted c)
  unfolding insert_host
  insert_host-Stores snap deleted c =
      let s = insert_container_host_metrics (host_row snap deleted) in
      insert_at s c (db.exec_db s c) (λ x e. exec_db_ok s c e) (exec_db_err s c)

add_ids-IsDistinct :
    (ps : List ContProcess) (m : IdSet) → IsDistinct (keys m) → IsDistinct (keys (add_ids ps m))
unfolding add_ids
add_ids-IsDistinct [] m h = h
add_ids-IsDistinct (p ∷ ps) m h = ground (
  arith,
  add_ids-IsDistinct ps m h,
  add_ids-IsDistinct ps (insert p.cmdline_or_cont_id tt m)
      (insert-IsDistinct p.cmdline_or_cont_id tt m h),
)

length-keys : (m : IdSet) → length m ≡ length (keys m)
length-keys [] = refl
length-keys (x ∷ m) = omega (arith, length-keys m)

-- The container count of the host row is the length of a list that holds the id of each live
-- container once and no other id.
pub host_row_counts :
    (snap : ContInfoSnapshot) (deleted : ℕ)
    → (ks : List Bytes) × ((host_row snap deleted).total_containers ≡ length ks)
      × IsDistinct ks
      × ((cid : Bytes) → contains cid ks ≡ is_alive cid snap.procesos)
unfolding host_row
host_row_counts snap deleted = (
  keys (current_ids snap),
  length-keys (current_ids snap),
  add_ids-IsDistinct snap.procesos [] tt,
  λ cid. contains-current_ids cid snap,
)
