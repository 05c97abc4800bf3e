-- ===== src/Daemon/Frame.antt =====
-- The tables of a file that the cycles of Daemon/main.go cannot read.
use proyecto_1_sopes.Prelude.{
  ℕ, ◌≡◌, refl, ◌∙◌, Bool, true, false, none, some, List, [], ◌∷◌, if◌then◌else◌, Result, ok, err,
  arith,
}
use proyecto_1_sopes.Snapshot.{SysInfo, ContInfoSnapshot}
use proyecto_1_sopes.Database.{
  Engine, Tables, SystemRow, ProcessRow, SummaryRow, HostRow, ContainerRow, MetricRow, apply,
}
use proyecto_1_sopes.Database.Laws.{IsSqlite}
use proyecto_1_sopes.Cpu.{Float64, build_proc_cpu_pct, build_container_cpu_pct}
use proyecto_1_sopes.Containers.{upsert_containers_from_snapshot, get_total_deleted_containers}
use proyecto_1_sopes.Metrics.{insert_system, insert_process_bulk, insert_host}
use proyecto_1_sopes.Rules.{Shell}
use proyecto_1_sopes.Daemon.{
  ReadError, read_sysinfo, read_cont_info, State, Tick, hz, count_or_zero, on_sysinfo, on_cont_info,
  cycle, run_cycles,
}
use proyecto_1_sopes.Daemon.Parts.{
  system-part, host-part, process_bulk-part, state_summary-part, metrics_bulk-part, count-part,
  upsert-part,
}

-- The tables that are filled from the containers' file, and those from the other one.
abbrev pub container_tables : Tables → List ContainerRow × List HostRow × List MetricRow
container_tables d = (d.containers, d.container_host_metrics, d.container_metrics)

abbrev pub system_tables : Tables → List SystemRow × List ProcessRow × List SummaryRow
system_tables d = (d.system_metrics, d.process_metrics, d.process_state_summary)

abbrev pub has_failed : {A : Type 0} → Result ReadError A → Bool
has_failed (ok _) = false
has_failed (err _) = true

-- In no cycle could the file be read and decoded.
abbrev pub AreWithoutSnapshot : List Tick → Type 0
AreWithoutSnapshot [] = Unit
AreWithoutSnapshot (t ∷ ts) = (has_failed (read_cont_info t.cont) ≡ true) × AreWithoutSnapshot ts

abbrev pub AreWithoutSysInfo : List Tick → Type 0
AreWithoutSysInfo [] = Unit
AreWithoutSysInfo (t ∷ ts) = (has_failed (read_sysinfo t.sys) ≡ true) × AreWithoutSysInfo ts

module _ {Conn World : Type 0} (db : Engine Conn) (laws : IsSqlite db) (fl : Float64)
    (shell : Shell World) (num_cpus : ℕ) where
  open laws use {tables}

  abbrev containers_of : State Conn World → List ContainerRow × List HostRow × List MetricRow
  containers_of s = container_tables (tables s.conn)

  abbrev system_of : State Conn World → List SystemRow × List ProcessRow × List SummaryRow
  system_of s = system_tables (tables s.conn)

  on_sysinfo-containers_of :
      (t : Tick) (r : Result ReadError SysInfo) (s : State Conn World)
      → containers_of (on_sysinfo db fl shell num_cpus t r s) ≡ containers_of s
  unfolding on_sysinfo apply
  on_sysinfo-containers_of t (err e) s = refl
  on_sysinfo-containers_of t (ok si) s =
      let c1 = (insert_system db fl si s.conn).1 in
      let pcts =
        if s.have_prev_sys
        then some (build_proc_cpu_pct fl s.prev_sys si num_cpus (hz fl))
        else none in
      let c2 = (insert_process_bulk db si pcts c1).1 in
      state_summary-part db laws container_tables t.visit_states si c2 (λ rs d. refl)
      ∙ (process_bulk-part db laws container_tables si pcts c1 (λ rs d. refl)
          ∙ system-part db laws container_tables fl si s.conn refl)

  on_cont_info-system_of :
      (t : Tick) (r : Result ReadError ContInfoSnapshot) (s : State Conn World)
      → system_of (on_cont_info db fl shell num_cpus t r s) ≡ system_of s
  unfolding on_cont_info apply
  on_cont_info-system_of t (err e) s = refl
  on_cont_info-system_of t (ok snap) s =
      let c1 = (upsert_containers_from_snapshot db t.visit_current snap s.conn).1 in
      let deleted = get_total_deleted_containers db c1 in
      let n = count_or_zero deleted.0 in
      let c3 = (insert_host db snap n deleted.1).1 in
      let pcts =
        if s.have_prev_cont
        then some (build_container_cpu_pct fl t.visit_cpu s.prev_cont snap num_cpus)
        else none in
      metrics_bulk-part db laws system_tables snap pcts c3 (λ rs d. refl)
      ∙ (host-part db laws system_tables snap n deleted.1 refl
          ∙ (count-part db laws system_tables c1
              ∙ upsert-part db laws system_tables (λ f d. refl) t.visit_current snap s.conn))

  -- A reading that failed leaves its own tables alone too.
  on_cont_info-containers_of :
      (t : Tick) (r : Result ReadError ContInfoSnapshot) (s : State Conn World)
      → has_failed r ≡ true
      → containers_of (on_cont_info db fl shell num_cpus t r s) ≡ containers_of s
  unfolding on_cont_info
  on_cont_info-containers_of t (ok snap) s h = absurd (ground arith)
  on_cont_info-containers_of t (err e) s h = refl

  on_sysinfo-system_of :
      (t : Tick) (r : Result ReadError SysInfo) (s : State Conn World)
      → has_failed r ≡ true
      → system_of (on_sysinfo db fl shell num_cpus t r s) ≡ system_of s
  unfolding on_sysinfo
  on_sysinfo-system_of t (ok si) s h = absurd (ground arith)
  on_sysinfo-system_of t (err e) s h = refl

  -- In cycles in none of which the containers' file could be read, whatever else succeeds or fails,
  -- no row of the three tables filled from it is added, changed or lost: an old snapshot is not
  -- recorded again. The database is one that keeps the laws of SQLite.
  pub run_cycles_without_snapshots :
      (ts : List Tick) (s : State Conn World)
      → AreWithoutSnapshot ts
      → container_tables (tables (run_cycles db fl shell num_cpus ts s).conn)
        ≡ container_tables (tables s.conn)
  unfolding run_cycles cycle
  run_cycles_without_snapshots [] s h = refl
  run_cycles_without_snapshots (t ∷ ts) s h =
      let s1 = on_sysinfo db fl shell num_cpus t (read_sysinfo t.sys) s in
      run_cycles_without_snapshots ts (cycle db fl shell num_cpus t s) h.1
      ∙ (on_cont_info-containers_of t (read_cont_info t.cont) s1 h.0
          ∙ on_sysinfo-containers_of t (read_sysinfo t.sys) s)

  -- In cycles in none of which the system's file could be read, whatever else succeeds or fails, no
  -- row of the three tables filled from it is added, changed or lost. The database is one that
  -- keeps the laws of SQLite.
  pub run_cycles_without_sysinfo :
      (ts : List Tick) (s : State Conn World)
      → AreWithoutSysInfo ts
      → system_tables (tables (run_cycles db fl shell num_cpus ts s).conn)
        ≡ system_tables (tables s.conn)
  unfolding run_cycles cycle
  run_cycles_without_sysinfo [] s h = refl
  run_cycles_without_sysinfo (t ∷ ts) s h =
      let s1 = on_sysinfo db fl shell num_cpus t (read_sysinfo t.sys) s in
      run_cycles_without_sysinfo ts (cycle db fl shell num_cpus t s) h.1
      ∙ (on_cont_info-system_of t (read_cont_info t.cont) s1
          ∙ on_sysinfo-system_of t (read_sysinfo t.sys) s h.0)
