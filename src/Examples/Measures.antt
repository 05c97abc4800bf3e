-- ===== src/Examples/Measures.antt =====
-- The CPU shares and the inserts, on two readings of the same processes.
use proyecto_1_sopes.Prelude.{
  ℕ, ◌*◌, ◌/◌, ◌≤◌, ◌≡◌, refl, true, some, none, List, [], ◌∷◌, Bytes, bytes_key, ascii, keys,
  lookup, length, contains, IsDistinct, leb, ltb, arith, map, number_key, select,
}
use proyecto_1_sopes.Snapshot.{Process, SysInfo, ContInfoSnapshot}
use proyecto_1_sopes.Database.{insert_system_metrics, insert_container_host_metrics}
use proyecto_1_sopes.Database.Laws.{Atomic}
use proyecto_1_sopes.Cpu.{Float64, value_or_zero, build_proc_cpu_pct, build_container_cpu_pct}
use proyecto_1_sopes.Cpu.Proc.{build_proc_cpu_pct_lem}
use proyecto_1_sopes.Cpu.Container.{build_container_cpu_pct_lem}
use proyecto_1_sopes.Containers.Lifecycle.{is_alive}
use proyecto_1_sopes.Metrics.{
  ram_used, system_row, host_row, process_row, metric_row, count_states, insert_system, insert_host,
  insert_process_bulk, insert_state_summary, insert_metrics_bulk,
}
use proyecto_1_sopes.Metrics.Bulk.{
  add_process_rows, add_summary_rows, add_metric_rows, summary_rows, is_measured,
  insert_process_bulk-Atomic, insert_state_summary-Atomic, insert_metrics_bulk-Atomic,
}
use proyecto_1_sopes.Metrics.Summary.{in_state, sum_values, count_states_lem}
use proyecto_1_sopes.Metrics.Single.{
  ram_used_bounds, Stores, insert_system-Stores, insert_host-Stores, host_row_counts,
}
use proyecto_1_sopes.Examples.Memory.{memory_db, memory-IsSqlite}
use proyecto_1_sopes.Examples.Rows.{snapshot_of, low_process, one_container, old_memory}

-- Whole numbers in place of doubles.
abbrev pub whole : Float64
whole = record {
  of_uint64 = λ n. n;
  of_int64 = λ n. n;
  div = λ a b. a / b;
  mul = λ a b. a * b;
  leb = leb;
}

abbrev pub running_process : ℕ → ℕ → ℕ → Process
running_process pid utime stime = record {
  pid = pid;
  comm = ascii "bash";
  rss_kb = 500;
  vmsize_kb = 4000;
  state = ascii "S (sleeping)";
  utime = utime;
  stime = stime;
  ts_ms = 0;
}

abbrev pub system_at : ℕ → List Process → SysInfo
system_at ts ps = record {
  total_ram_kb = 16000;
  free_ram_kb = 6000;
  available_kb = 0;
  ram_used_kb = 0;
  total_procs = length ps;
  cpu_usage_pct = 12;
  ts_ms = ts;
  procesos = ps;
  raw_json_present = true;
}

abbrev pub first_system : SysInfo
first_system = system_at 1000 (running_process 7 300 100 ∷ running_process 8 50 50 ∷ [])

-- Process 7 has used 400 ticks in two seconds, process 8 none, and 9 is new.
abbrev pub second_system : SysInfo
second_system =
    system_at 3000
      (running_process 7 600 200 ∷ running_process 8 50 50 ∷ running_process 9 1 1 ∷ [])

abbrev pub first_containers : ContInfoSnapshot
first_containers = snapshot_of 1000 (low_process ∷ [])

abbrev pub second_containers : ContInfoSnapshot
second_containers = snapshot_of 3000 (record low_process { cpu_time_ns = 4_000_000_000 } ∷ [])

build_proc_cpu_pct_run : build_proc_cpu_pct whole first_system second_system 4 100 ≡ (7, 50) ∷ []
unfolding build_proc_cpu_pct
build_proc_cpu_pct_run = refl

build_proc_cpu_pct_lem_example :
    lookup 7 (build_proc_cpu_pct whole first_system second_system 4 100) ≡ some 50
build_proc_cpu_pct_lem_example =
    build_proc_cpu_pct_lem whole first_system second_system 4 100 7 (refl, (refl, (refl, tt)))

build_container_cpu_pct_lem_example :
    lookup
      (ascii "stress-low-1")
      (build_container_cpu_pct whole (λ ks. ks) first_containers second_containers 4)
    ≡ some 25
build_container_cpu_pct_lem_example =
    build_container_cpu_pct_lem whole (λ ks. ks) (λ ks k. refl) first_containers second_containers 4
      (ascii "stress-low-1")

insert_process_bulk-Atomic_example :
    Atomic memory_db memory-IsSqlite old_memory
      (add_process_rows (map (process_row second_system none) second_system.procesos))
      (insert_process_bulk memory_db second_system none old_memory)
insert_process_bulk-Atomic_example =
    insert_process_bulk-Atomic memory_db memory-IsSqlite second_system none old_memory

insert_state_summary-Atomic_example :
    Atomic memory_db memory-IsSqlite old_memory
      (add_summary_rows (summary_rows (λ ks. ks) second_system))
      (insert_state_summary memory_db (λ ks. ks) second_system old_memory)
insert_state_summary-Atomic_example =
    insert_state_summary-Atomic memory_db memory-IsSqlite (λ ks. ks) second_system old_memory

insert_metrics_bulk-Atomic_example :
    Atomic memory_db memory-IsSqlite old_memory
      (add_metric_rows
        (map (metric_row one_container none) (select is_measured one_container.procesos)))
      (insert_metrics_bulk memory_db one_container none old_memory)
insert_metrics_bulk-Atomic_example =
    insert_metrics_bulk-Atomic memory_db memory-IsSqlite one_container none old_memory

count_states_lem_example :
    let counts = count_states second_system.procesos [] in
    IsDistinct (keys counts)
    × ((k : Bytes) → contains k (keys counts) ≡ ltb 0 (in_state k second_system.procesos))
    × ((k : Bytes) → value_or_zero (lookup k counts) ≡ in_state k second_system.procesos)
    × (sum_values counts ≡ 3)
count_states_lem_example = count_states_lem second_system.procesos

ram_used_bounds_example : (ram_used first_system ≤ 16000) × (ram_used first_system ≡ 10000)
ram_used_bounds_example = ram_used_bounds first_system (omega arith) (omega arith) (omega arith)

insert_system-Stores_example :
    Stores memory_db memory-IsSqlite
      (insert_system_metrics (system_row whole first_system))
      old_memory
      (insert_system memory_db whole first_system old_memory)
insert_system-Stores_example =
    insert_system-Stores memory_db memory-IsSqlite whole first_system old_memory

insert_host-Stores_example :
    Stores memory_db memory-IsSqlite
      (insert_container_host_metrics (host_row one_container 4))
      old_memory
      (insert_host memory_db one_container 4 old_memory)
insert_host-Stores_example = insert_host-Stores memory_db memory-IsSqlite one_container 4 old_memory

host_row_counts_example :
    (ks : List Bytes) × ((host_row one_container 4).total_containers ≡ length ks)
    × IsDistinct ks
    × ((cid : Bytes) → contains cid ks ≡ is_alive cid one_container.procesos)
host_row_counts_example = host_row_counts one_container 4
