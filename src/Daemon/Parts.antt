-- ===== src/Daemon/Parts.antt =====
-- What the operations of a cycle leave alone: any part of the tables on which their effect has none.
use proyecto_1_sopes.Prelude.{
  ℕ, ◌≡◌, refl, ◌∙◌, ap, Bool, true, false, Option, none, some, List, if◌then◌else◌, Map, Bytes,
  Result, ok, err, map, select, length, eqb, keys, bytes_key, number_key,
}
use proyecto_1_sopes.Snapshot.{SysInfo, ContInfoSnapshot}
use proyecto_1_sopes.Database.{
  Engine, Tables, Stmt, ContainerRow, ProcessRow, SummaryRow, MetricRow, apply,
  insert_system_metrics, insert_container_host_metrics,
}
use proyecto_1_sopes.Database.Tx.{
  Error, exec_failed, last_insert_id_failed, begin_failed, prepare_failed, rows_affected_failed,
  query_failed, scan_failed, rows_failed, commit_failed, pure, or_fail,
}
use proyecto_1_sopes.Database.Laws.{IsSqlite, Atomic}
use proyecto_1_sopes.Cpu.{Float64}
use proyecto_1_sopes.Containers.{
  IdSet, current_ids, upsert_tx, upsert_containers_from_snapshot, get_total_deleted_containers,
}
use proyecto_1_sopes.Containers.Rows.{on_rows}
use proyecto_1_sopes.Containers.Marks.{upsert_rows}
use proyecto_1_sopes.Containers.Upsert.{upsert_tx-Atomic}
use proyecto_1_sopes.Metrics.{
  system_row, host_row, process_row, metric_row, insert_system, insert_host, insert_process_bulk,
  insert_state_summary, insert_metrics_bulk,
}
use proyecto_1_sopes.Metrics.Bulk.{
  add_process_rows, add_summary_rows, add_metric_rows, summary_rows, is_measured,
  insert_process_bulk-Atomic, insert_state_summary-Atomic, insert_metrics_bulk-Atomic,
}
use proyecto_1_sopes.Metrics.Single.{Stores, insert_system-Stores, insert_host-Stores}

module _ {Conn : Type 0} (db : Engine Conn) (laws : IsSqlite db) {B : Type 0} (g : Tables → B) where
  open laws use {tables, count_keeps}

  Atomic-part :
      {A : Type 0} (f : Tables → Tables) (c : Conn) (out : Result Error A × Conn)
      → ((d : Tables) → g (f d) ≡ g d)
      → Atomic db laws c f out
      → g (tables out.1) ≡ g (tables c)
  Atomic-part f c (ok a, c') same h = ap g h ∙ same (tables c)
  Atomic-part f c (err e, c') same h = ap g h

  Stores-part :
      (s : Stmt) (c : Conn) (out : Result Error ℕ × Conn)
      → g (apply s (tables c)) ≡ g (tables c)
      → Stores db laws s c out
      → g (tables out.1) ≡ g (tables c)
  Stores-part s c (ok a, c') same h = ap g h ∙ same
  Stores-part s c (err exec_failed, c') same h = ap g h
  Stores-part s c (err last_insert_id_failed, c') same h = ap g h ∙ same
  Stores-part s c (err begin_failed, c') same h = absurd h
  Stores-part s c (err prepare_failed, c') same h = absurd h
  Stores-part s c (err rows_affected_failed, c') same h = absurd h
  Stores-part s c (err query_failed, c') same h = absurd h
  Stores-part s c (err scan_failed, c') same h = absurd h
  Stores-part s c (err rows_failed, c') same h = absurd h
  Stores-part s c (err commit_failed, c') same h = absurd h

  pub system-part :
      (fl : Float64) (si : SysInfo) (c : Conn)
      → g (apply (insert_system_metrics (system_row fl si)) (tables c)) ≡ g (tables c)
      → g (tables (insert_system db fl si c).1) ≡ g (tables c)
  system-part fl si c same =
      Stores-part (insert_system_metrics (system_row fl si)) c (insert_system db fl si c) same
        (insert_system-Stores db laws fl si c)

  pub host-part :
      (snap : ContInfoSnapshot) (n : ℕ) (c : Conn)
      → g (apply (insert_container_host_metrics (host_row snap n)) (tables c)) ≡ g (tables c)
      → g (tables (insert_host db snap n c).1) ≡ g (tables c)
  host-part snap n c same =
      Stores-part (insert_container_host_metrics (host_row snap n)) c (insert_host db snap n c) same
        (insert_host-Stores db laws snap n c)

  pub process_bulk-part :
      (si : SysInfo) (pcts : Option (Map ℕ ℕ)) (c : Conn)
      → ((rs : List ProcessRow) (d : Tables) → g (add_process_rows rs d) ≡ g d)
      → g (tables (insert_process_bulk db si pcts c).1) ≡ g (tables c)
  process_bulk-part si pcts c same =
      let rows = map (process_row si pcts) si.procesos in
      Atomic-part (add_process_rows rows) c (insert_process_bulk db si pcts c) (same rows)
        (insert_process_bulk-Atomic db laws si pcts c)

  pub state_summary-part :
      (visit : List Bytes → List Bytes) (si : SysInfo) (c : Conn)
      → ((rs : List SummaryRow) (d : Tables) → g (add_summary_rows rs d) ≡ g d)
      → g (tables (insert_state_summary db visit si c).1) ≡ g (tables c)
  state_summary-part visit si c same =
      let rows = summary_rows visit si in
      Atomic-part (add_summary_rows rows) c (insert_state_summary db visit si c) (same rows)
        (insert_state_summary-Atomic db laws visit si c)

  pub metrics_bulk-part :
      (snap : ContInfoSnapshot) (pcts : Option (Map Bytes ℕ)) (c : Conn)
      → ((rs : List MetricRow) (d : Tables) → g (add_metric_rows rs d) ≡ g d)
      → g (tables (insert_metrics_bulk db snap pcts c).1) ≡ g (tables c)
  metrics_bulk-part snap pcts c same =
      let rows = map (metric_row snap pcts) (select is_measured snap.procesos) in
      Atomic-part (add_metric_rows rows) c (insert_metrics_bulk db snap pcts c) (same rows)
        (insert_metrics_bulk-Atomic db laws snap pcts c)

  count_at-part :
      (r : Option ℕ × Conn) (c : Conn)
      → tables r.1 ≡ tables c
      → g (tables (or_fail query_failed (λ _. r) c).1) ≡ g (tables c)
  count_at-part (some n, c') c h = ap g h
  count_at-part (none, c') c h = ap g h

  pub count-part : (c : Conn) → g (tables (get_total_deleted_containers db c).1) ≡ g (tables c)
  unfolding get_total_deleted_containers
  count-part c = count_at-part (db.count_removed c) c (count_keeps c)

  module _
      (same : (f : List ContainerRow → List ContainerRow) (d : Tables)
        → g (on_rows f d) ≡ g d) where
    upsert_at-part :
        (b : Bool) (visit : List Bytes → List Bytes) (ts : ℕ) (current : IdSet) (c : Conn)
        → g (tables ((if b then pure tt else upsert_tx db visit ts current) c).1) ≡ g (tables c)
    upsert_at-part true visit ts current c = refl
    upsert_at-part false visit ts current c =
        let f = upsert_rows (visit (keys current)) ts current in
        Atomic-part (on_rows f) c (upsert_tx db visit ts current c) (same f)
          (upsert_tx-Atomic db laws visit ts current c)

    pub upsert-part :
        (visit : List Bytes → List Bytes) (snap : ContInfoSnapshot) (c : Conn)
        → g (tables (upsert_containers_from_snapshot db visit snap c).1) ≡ g (tables c)
    unfolding upsert_containers_from_snapshot
    upsert-part visit snap c =
        upsert_at-part (eqb (length (current_ids snap)) 0) visit snap.ts_ms (current_ids snap) c
