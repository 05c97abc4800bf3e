-- ===== src/Daemon/Invariant.antt =====
-- The rows of `containers` through the loop of Daemon/main.go.
use proyecto_1_sopes.Prelude.{
  ℕ, ◌≡◌, refl, sym, ◌∙◌, ap, subst, Option, none, some, List, [], ◌∷◌, if◌then◌else◌, Map, Bytes,
  bytes_key, Result, ok, err, IsDistinct, map, select,
}
use proyecto_1_sopes.Snapshot.{SysInfo, ContInfoSnapshot}
use proyecto_1_sopes.Database.{
  Engine, Tables, Stmt, ContainerRow, apply, container_ids, insert_system_metrics,
  insert_container_host_metrics,
}
use proyecto_1_sopes.Database.Tx.{
  Error, exec_failed, last_insert_id_failed, begin_failed, prepare_failed, rows_affected_failed,
  query_failed, scan_failed, rows_failed, commit_failed, or_fail,
}
use proyecto_1_sopes.Database.Laws.{IsSqlite, Atomic}
use proyecto_1_sopes.Cpu.{Float64, build_proc_cpu_pct, build_container_cpu_pct}
use proyecto_1_sopes.Containers.{upsert_containers_from_snapshot, get_total_deleted_containers}
use proyecto_1_sopes.Containers.Marks.{upsert_rows}
use proyecto_1_sopes.Containers.Upsert.{upsert-keeps}
use proyecto_1_sopes.Containers.Unique.{upsert_rows-IsDistinct}
use proyecto_1_sopes.Containers.Removal.{removed_at, upsert_rows-removed_at}
use proyecto_1_sopes.Containers.{IdSet}
use proyecto_1_sopes.Metrics.{
  insert_system, insert_process_bulk, insert_state_summary, insert_host, insert_metrics_bulk,
  system_row, host_row, process_row, metric_row,
}
use proyecto_1_sopes.Metrics.Bulk.{
  add_process_rows, add_summary_rows, add_metric_rows, summary_rows, is_measured,
  insert_process_bulk-Atomic, insert_state_summary-Atomic, insert_metrics_bulk-Atomic,
}
use proyecto_1_sopes.Metrics.Single.{Stores, insert_system-Stores, insert_host-Stores}
use proyecto_1_sopes.Rules.{Shell}
use proyecto_1_sopes.Daemon.{
  ReadError, read_sysinfo, read_cont_info, State, Tick, hz, on_sysinfo, count_or_zero, on_cont_info,
  cycle, run_cycles,
}

module _ {Conn : Type 0} (db : Engine Conn) (laws : IsSqlite db) where
  open laws use {tables, count_keeps}

  abbrev rows_of : Conn → List ContainerRow
  rows_of c = (tables c).containers

  Atomic-containers :
      {A : Type 0} (f : Tables → Tables) (c : Conn) (out : Result Error A × Conn)
      → ((d : Tables) → (f d).containers ≡ d.containers)
      → Atomic db laws c f out
      → rows_of out.1 ≡ rows_of c
  Atomic-containers f c (ok a, c') same h = ap (λ d. d.containers) h ∙ same (tables c)
  Atomic-containers f c (err e, c') same h = ap (λ d. d.containers) h

  Stores-containers :
      (s : Stmt) (c : Conn) (out : Result Error ℕ × Conn)
      → (apply s (tables c)).containers ≡ (tables c).containers
      → Stores db laws s c out
      → rows_of out.1 ≡ rows_of c
  Stores-containers s c (ok a, c') same h = ap (λ d. d.containers) h ∙ same
  Stores-containers s c (err exec_failed, c') same h = ap (λ d. d.containers) h
  Stores-containers s c (err last_insert_id_failed, c') same h = ap (λ d. d.containers) h ∙ same
  Stores-containers s c (err begin_failed, c') same h = absurd h
  Stores-containers s c (err prepare_failed, c') same h = absurd h
  Stores-containers s c (err rows_affected_failed, c') same h = absurd h
  Stores-containers s c (err query_failed, c') same h = absurd h
  Stores-containers s c (err scan_failed, c') same h = absurd h
  Stores-containers s c (err rows_failed, c') same h = absurd h
  Stores-containers s c (err commit_failed, c') same h = absurd h

  count_at :
      (r : Option ℕ × Conn) (c : Conn)
      → tables r.1 ≡ tables c
      → rows_of (or_fail query_failed (λ _. r) c).1 ≡ rows_of c
  count_at (some n, c') c h = ap (λ d. d.containers) h
  count_at (none, c') c h = ap (λ d. d.containers) h

  count-containers : (c : Conn) → rows_of (get_total_deleted_containers db c).1 ≡ rows_of c
  unfolding get_total_deleted_containers
  count-containers c = count_at (db.count_removed c) c (count_keeps c)

  -- The inserts leave the containers alone.
  process_bulk-containers :
      (si : SysInfo) (pcts : Option (Map ℕ ℕ)) (c : Conn)
      → rows_of (insert_process_bulk db si pcts c).1 ≡ rows_of c
  process_bulk-containers si pcts c =
      Atomic-containers (add_process_rows (map (process_row si pcts) si.procesos)) c
        (insert_process_bulk db si pcts c) (λ d. refl)
        (insert_process_bulk-Atomic db laws si pcts c)

  state_summary-containers :
      (visit : List Bytes → List Bytes) (si : SysInfo) (c : Conn)
      → rows_of (insert_state_summary db visit si c).1 ≡ rows_of c
  state_summary-containers visit si c =
      Atomic-containers (add_summary_rows (summary_rows visit si)) c
        (insert_state_summary db visit si c) (λ d. refl)
        (insert_state_summary-Atomic db laws visit si c)

  metrics_bulk-containers :
      (snap : ContInfoSnapshot) (pcts : Option (Map Bytes ℕ)) (c : Conn)
      → rows_of (insert_metrics_bulk db snap pcts c).1 ≡ rows_of c
  metrics_bulk-containers snap pcts c =
      Atomic-containers
        (add_metric_rows (map (metric_row snap pcts) (select is_measured snap.procesos))) c
        (insert_metrics_bulk db snap pcts c) (λ d. refl)
        (insert_metrics_bulk-Atomic db laws snap pcts c)

  system-containers :
      (fl : Float64) (si : SysInfo) (c : Conn) → rows_of (insert_system db fl si c).1 ≡ rows_of c
  unfolding apply
  system-containers fl si c =
      Stores-containers (insert_system_metrics (system_row fl si)) c (insert_system db fl si c) refl
        (insert_system-Stores db laws fl si c)

  host-containers :
      (snap : ContInfoSnapshot) (n : ℕ) (c : Conn) → rows_of (insert_host db snap n c).1 ≡ rows_of c
  unfolding apply
  host-containers snap n c =
      Stores-containers (insert_container_host_metrics (host_row snap n)) c
        (insert_host db snap n c) refl (insert_host-Stores db laws snap n c)

  module _ {World : Type 0} (fl : Float64) (shell : Shell World) (num_cpus : ℕ) where
    on_sysinfo-containers :
        (t : Tick) (r : Result ReadError SysInfo) (s : State Conn World)
        → rows_of (on_sysinfo db fl shell num_cpus t r s).conn ≡ rows_of s.conn
    unfolding on_sysinfo
    on_sysinfo-containers t (err e) s = refl
    on_sysinfo-containers t (ok si) s =
        let c1 = (insert_system db fl si s.conn).1 in
        let pcts =
          if s.have_prev_sys
          then some (build_proc_cpu_pct fl s.prev_sys si num_cpus (hz fl))
          else none in
        let c2 = (insert_process_bulk db si pcts c1).1 in
        state_summary-containers t.visit_states si c2
        ∙ (process_bulk-containers si pcts c1 ∙ system-containers fl si s.conn)

    -- The rows after the second step are those that the upsert leaves.
    module _ (P : List ContainerRow → Type 0)
        (keep : (ks : List Bytes) (ts : ℕ) (current : IdSet) (rs : List ContainerRow)
          → P rs
          → P (upsert_rows ks ts current rs)) where
      on_cont_info-keeps :
          (t : Tick) (r : Result ReadError ContInfoSnapshot) (s : State Conn World)
          → P (rows_of s.conn)
          → P (rows_of (on_cont_info db fl shell num_cpus t r s).conn)
      unfolding on_cont_info
      on_cont_info-keeps t (err e) s h = h
      on_cont_info-keeps t (ok snap) s h =
          let c1 = (upsert_containers_from_snapshot db t.visit_current snap s.conn).1 in
          let deleted = get_total_deleted_containers db c1 in
          let n = count_or_zero deleted.0 in
          let c3 = (insert_host db snap n deleted.1).1 in
          let pcts =
            if s.have_prev_cont
            then some (build_container_cpu_pct fl t.visit_cpu s.prev_cont snap num_cpus)
            else none in
          subst P
            (sym (
              metrics_bulk-containers snap pcts c3
              ∙ (host-containers snap n deleted.1 ∙ count-containers c1)))
            (upsert-keeps db laws P keep t.visit_current snap s.conn h)

      cycle-keeps :
          (t : Tick) (s : State Conn World)
          → P (rows_of s.conn)
          → P (rows_of (cycle db fl shell num_cpus t s).conn)
      unfolding cycle
      cycle-keeps t s h =
          on_cont_info-keeps t (read_cont_info t.cont)
            (on_sysinfo db fl shell num_cpus t (read_sysinfo t.sys) s)
            (subst P (sym (on_sysinfo-containers t (read_sysinfo t.sys) s)) h)

      run_cycles-keeps :
          (ts : List Tick) (s : State Conn World)
          → P (rows_of s.conn)
          → P (rows_of (run_cycles db fl shell num_cpus ts s).conn)
      unfolding run_cycles
      run_cycles-keeps [] s h = h
      run_cycles-keeps (t ∷ ts) s h =
          run_cycles-keeps ts (cycle db fl shell num_cpus t s) (cycle-keeps t s h)

    -- Where the container ids are distinct at first, they are distinct after any number of cycles,
    -- whatever fails in them. The database is one that keeps the laws of SQLite.
    pub run_cycles-IsDistinct :
        (ts : List Tick) (s : State Conn World)
        → IsDistinct (container_ids (tables s.conn).containers)
        → IsDistinct (container_ids (tables (run_cycles db fl shell num_cpus ts s).conn).containers)
    run_cycles-IsDistinct =
        run_cycles-keeps (λ rs. IsDistinct (container_ids rs)) upsert_rows-IsDistinct

    -- However many cycles run, and whatever fails in them, a container that has a removal time
    -- keeps that time, also when the container is running again. The database is one that keeps
    -- the laws of SQLite.
    pub run_cycles-removed_at :
        (cid : Bytes) (at : ℕ) (ts : List Tick) (s : State Conn World)
        → removed_at cid (tables s.conn).containers ≡ some at
        → removed_at cid (tables (run_cycles db fl shell num_cpus ts s).conn).containers ≡ some at
    run_cycles-removed_at cid at =
        run_cycles-keeps (λ rs. removed_at cid rs ≡ some at) (upsert_rows-removed_at cid at)
