-- ===== src/Metrics.antt =====
-- The inserts of measurements: Daemon/insert_system.go, and the host and container metrics of
-- Daemon/insert_cont.go.
pub mod Bulk
pub mod Summary
pub mod Single
use proyecto_1_sopes.Prelude.{
  ℕ, ◌+◌, ◌≡◌, Bool, true, false, ◌&&◌, ◌||◌, Option, none, some, List, [], ◌∷◌, if◌then◌else◌,
  length, take, eqb, ltb, Map, keys, lookup, insert, number_key, Bytes, bytes_key, is_empty, ascii,
}
use proyecto_1_sopes.Text.{contains_sub}
use proyecto_1_sopes.Snapshot.{Process, SysInfo, ContProcess, ContInfoSnapshot}
use proyecto_1_sopes.Database.{
  Engine, SystemRow, ProcessRow, SummaryRow, HostRow, MetricRow, insert_system_metrics,
  insert_process_metrics, insert_process_state_summary, insert_container_host_metrics,
  insert_container_metrics,
}
use proyecto_1_sopes.Database.Tx.{
  Sql, exec_failed, prepare_failed, last_insert_id_failed, begin_failed, commit_failed, pure, ◌>>=◌,
  ◌>>◌, or_fail, or_rollback, field_or_fail, for_each,
}
use proyecto_1_sopes.Cpu.{Float64, sub64, value_or_zero}
use proyecto_1_sopes.Containers.{current_ids}

-- The RAM in use; where the kernel reports none it is recomputed, modulo 2 ^ 64.
unfoldable pub ram_used : SysInfo → ℕ
ram_used si =
    if eqb si.ram_used_kb 0 && ltb 0 si.total_ram_kb
    then sub64 si.total_ram_kb si.free_ram_kb
    else si.ram_used_kb

-- `available` is NULL where the kernel reports 0.
unfoldable pub system_row : Float64 → SysInfo → SystemRow
unfolding ram_used
system_row fl si = record {
  ts_ms = si.ts_ms;
  total_ram_kb = si.total_ram_kb;
  free_ram_kb = si.free_ram_kb;
  available_kb = if ltb 0 si.available_kb then some si.available_kb else none;
  ram_used_kb = ram_used si;
  total_procs = si.total_procs;
  cpu_usage_pct = fl.of_uint64 si.cpu_usage_pct;
}

-- A lookup in a map that may be nil.
abbrev pub pct_of_pid : Option (Map ℕ ℕ) → ℕ → Option ℕ
pct_of_pid none pid = none
pct_of_pid (some m) pid = lookup pid m

unfoldable pub process_row : SysInfo → Option (Map ℕ ℕ) → Process → ProcessRow
process_row si pcts p = record {
  ts_ms = si.ts_ms;
  pid = p.pid;
  comm = p.comm;
  state = p.state;
  rss_kb = p.rss_kb;
  utime = p.utime;
  stime = p.stime;
  cpu_pct = pct_of_pid pcts p.pid;
}

-- The first byte of a state, and `?` where it is empty.
unfoldable pub state_key : Bytes → Bytes
state_key [] = ascii "?"
state_key (c ∷ s) = if ltb 1 (length (c ∷ s)) then take 1 (c ∷ s) else c ∷ s

-- `counts[state]++`
unfoldable pub count_states : List Process → Map Bytes ℕ → Map Bytes ℕ
unfolding state_key
count_states [] counts = counts
count_states (p ∷ ps) counts =
    let k = state_key p.state in
    count_states ps (insert k (value_or_zero (lookup k counts) + 1) counts)

abbrev pub summary_row : SysInfo → Map Bytes ℕ → Bytes → SummaryRow
summary_row si counts state = record {
  ts_ms = si.ts_ms;
  state = state;
  count = value_or_zero (lookup state counts);
}

-- `totalContainers` counts the distinct ids of the live containers.
unfoldable pub host_row : ContInfoSnapshot → ℕ → HostRow
host_row snap total_deleted_acc = record {
  ts_ms = snap.ts_ms;
  total_ram_kb = snap.total_ram_kb;
  free_ram_kb = snap.free_ram_kb;
  used_ram_kb = snap.used_ram_kb;
  total_containers = length (current_ids snap);
  total_deleted_acc = total_deleted_acc;
}

unfoldable pub normalize_stress_container_id : ContProcess → Bytes
normalize_stress_container_id p =
    let cid = p.cmdline_or_cont_id in
    if contains_sub cid (ascii "--cpu") || contains_sub p.nombre (ascii "stress-ng-cpu")
    then ascii "stress-high-cpu"
    else if contains_sub cid (ascii "--vm") || contains_sub p.nombre (ascii "stress-ng-vm")
    then ascii "stress-high-ram"
    else ascii "stress-low"

unfoldable pub is_stress_process : ContProcess → Bool
is_stress_process p =
    if contains_sub p.nombre (ascii "stress-ng")
    then true
    else if contains_sub p.cmdline_or_cont_id (ascii "stress-cpu")
    then true
    else if contains_sub p.cmdline_or_cont_id (ascii "stress-ram")
    then true
    else if contains_sub p.cmdline_or_cont_id (ascii "stress-low")
    then true
    else false

-- 0.0 where the map is nil or has no share.
abbrev pub pct_of_cont : Option (Map Bytes ℕ) → Bytes → ℕ
pct_of_cont none cid = 0
pct_of_cont (some m) cid = value_or_zero (lookup cid m)

unfoldable pub metric_row : ContInfoSnapshot → Option (Map Bytes ℕ) → ContProcess → MetricRow
unfolding normalize_stress_container_id
metric_row snap pcts p = record {
  ts_ms = snap.ts_ms;
  container_id = normalize_stress_container_id p;
  rss_kb = p.rss_kb;
  cpu_time_ns = p.cpu_time_ns;
  cpu_pct = pct_of_cont pcts p.cmdline_or_cont_id;
}

module _ {Conn : Type 0} (db : Engine Conn) where
  open db use {exec_db, begin_tx, prepare, exec_tx, commit}

  -- `InsertSystemMetrics`
  unfoldable pub insert_system : Float64 → SysInfo → Sql Conn ℕ
  unfolding system_row
  insert_system fl si = do
    res ← or_fail exec_failed (exec_db (insert_system_metrics (system_row fl si)))
    field_or_fail last_insert_id_failed res.last_insert_id

  unfoldable pub insert_process : SysInfo → Option (Map ℕ ℕ) → Process → Sql Conn (Unit {0})
  unfolding process_row
  insert_process si pcts p =
      or_rollback db exec_failed (exec_tx (insert_process_metrics (process_row si pcts p)))
      >> pure tt

  -- `InsertProcessMetricsBulk`
  unfoldable pub insert_process_bulk : SysInfo → Option (Map ℕ ℕ) → Sql Conn (Unit {0})
  unfolding insert_process for_each
  insert_process_bulk si pcts = if is_empty si.procesos then pure tt else do
    or_fail begin_failed begin_tx
    or_rollback db prepare_failed prepare
    for_each (insert_process si pcts) si.procesos
    or_fail commit_failed commit

  unfoldable pub insert_state : SysInfo → Map Bytes ℕ → Bytes → Sql Conn (Unit {0})
  insert_state si counts state =
      or_rollback db exec_failed
        (exec_tx (insert_process_state_summary (summary_row si counts state)))
      >> pure tt

  -- `InsertProcessStateSummary`; `visit` is the order in which `range` goes through the map's keys.
  unfoldable pub insert_state_summary : (List Bytes → List Bytes) → SysInfo → Sql Conn (Unit {0})
  unfolding insert_state count_states for_each
  insert_state_summary visit si =
      let counts = count_states si.procesos [] in
      if is_empty si.procesos then pure tt else do
        or_fail begin_failed begin_tx
        or_rollback db prepare_failed prepare
        for_each (insert_state si counts) (visit (keys counts))
        or_fail commit_failed commit

  -- `InsertContainerHostMetrics`
  unfoldable pub insert_host : ContInfoSnapshot → ℕ → Sql Conn ℕ
  unfolding host_row
  insert_host snap total_deleted_acc = do
    res ←
        or_fail exec_failed
          (exec_db (insert_container_host_metrics (host_row snap total_deleted_acc)))
    field_or_fail last_insert_id_failed res.last_insert_id

  -- One round of the loop: `continue` on a process that is not of a stress container, and on one
  -- with no command line.
  unfoldable pub insert_metric :
      ContInfoSnapshot → Option (Map Bytes ℕ) → ContProcess → Sql Conn (Unit {0})
  unfolding metric_row is_stress_process
  insert_metric snap pcts p =
      if is_stress_process p
      then (if is_empty p.cmdline_or_cont_id
          then pure tt
          else (or_rollback db exec_failed
                (exec_tx (insert_container_metrics (metric_row snap pcts p)))
              >> pure tt))
      else pure tt

  -- `InsertContainerMetricsBulk`
  unfoldable pub insert_metrics_bulk : ContInfoSnapshot → Option (Map Bytes ℕ) → Sql Conn (Unit {0})
  unfolding insert_metric for_each
  insert_metrics_bulk snap pcts = if is_empty snap.procesos then pure tt else do
    or_fail begin_failed begin_tx
    or_rollback db prepare_failed prepare
    for_each (insert_metric snap pcts) snap.procesos
    or_fail commit_failed commit
