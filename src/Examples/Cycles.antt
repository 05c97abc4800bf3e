-- ===== src/Examples/Cycles.antt =====
-- Two cycles of the loop: both files are read in the first, neither in the second.
use proyecto_1_sopes.Prelude.{
  ◌≡◌, refl, true, false, some, none, List, [], ◌∷◌, bytes_key, ascii, IsDistinct, ok, ◌++◌,
}
use proyecto_1_sopes.Database.{container_ids, apply, set_removed, set_last_seen, removed_count}
use proyecto_1_sopes.Database.Tx.{for_each}
use proyecto_1_sopes.Containers.{
  get_total_deleted_containers, upsert_containers_from_snapshot, mark_one, mark_if_gone,
  insert_if_new,
}
use proyecto_1_sopes.Metrics.{host_row, insert_host}
use proyecto_1_sopes.Daemon.HostRow.{on_cont_info_host}
use proyecto_1_sopes.Daemon.{on_cont_info, State, Tick, run_cycles, read_sysinfo, read_cont_info}
use proyecto_1_sopes.Containers.Removal.{removed_at}
use proyecto_1_sopes.Rules.{ContainerInfo}
use proyecto_1_sopes.Daemon.Invariant.{run_cycles-IsDistinct, run_cycles-removed_at}
use proyecto_1_sopes.Daemon.Frame.{
  container_tables, system_tables, run_cycles_without_snapshots, run_cycles_without_sysinfo,
}
use proyecto_1_sopes.Daemon.Previous.{last_sys, last_cont, run_cycles-previous}
use proyecto_1_sopes.Examples.Memory.{Memory, memory_db, memory-IsSqlite}
use proyecto_1_sopes.Examples.Host.{docker_shell, four_containers}
use proyecto_1_sopes.Examples.Rows.{one_container, old_memory}
use proyecto_1_sopes.Examples.Measures.{whole, first_system, second_system}

abbrev start : State Memory (List ContainerInfo)
start = record {
  prev_sys = first_system;
  have_prev_sys = true;
  prev_cont = one_container;
  have_prev_cont = false;
  conn = old_memory;
  world = four_containers;
}

abbrev pub read_tick : Tick
read_tick = record {
  sys = record { opened = some tt; content = some []; decode = λ _. some second_system };
  cont = record { opened = some tt; content = some []; decode = λ _. some one_container };
  visit_states = λ ks. ks;
  visit_current = λ ks. ks;
  visit_cpu = λ ks. ks;
}

abbrev pub unread_tick : Tick
unread_tick = record {
  sys = record { opened = none; content = none; decode = λ _. none };
  cont = record { opened = none; content = none; decode = λ _. none };
  visit_states = λ ks. ks;
  visit_current = λ ks. ks;
  visit_cpu = λ ks. ks;
}

abbrev pub two_ticks : List Tick
two_ticks = read_tick ∷ unread_tick ∷ []

run_cycles-IsDistinct_example :
    IsDistinct (
      container_ids (run_cycles memory_db whole docker_shell 4 two_ticks start).conn.now.containers)
run_cycles-IsDistinct_example =
    run_cycles-IsDistinct memory_db memory-IsSqlite whole docker_shell 4 two_ticks start
      (refl, (refl, tt))

-- The container is running again at 5000.
run_cycles-removed_at_example :
    removed_at
      (ascii "stress-low-1")
      (run_cycles memory_db whole docker_shell 4 two_ticks start).conn.now.containers
    ≡ some 2000
run_cycles-removed_at_example =
    run_cycles-removed_at memory_db memory-IsSqlite whole docker_shell 4 (ascii "stress-low-1") 2000
      two_ticks start refl

run_cycles-previous_example :
    let after = run_cycles memory_db whole docker_shell 4 two_ticks start in
    ((after.prev_sys, after.have_prev_sys) ≡ last_sys two_ticks (first_system, true))
    × ((after.prev_cont, after.have_prev_cont) ≡ last_cont two_ticks (one_container, false))
run_cycles-previous_example = run_cycles-previous memory_db whole docker_shell 4 two_ticks start

-- The file of the containers is never read, the other one once.
abbrev half_tick : Tick
half_tick = record read_tick { cont = unread_tick.cont }

abbrev half_ticks : List Tick
half_ticks = half_tick ∷ unread_tick ∷ []

run_cycles_without_snapshots_example :
    container_tables (run_cycles memory_db whole docker_shell 4 half_ticks start).conn.now
    ≡ container_tables old_memory.now
unfolding read_cont_info
run_cycles_without_snapshots_example =
    run_cycles_without_snapshots memory_db memory-IsSqlite whole docker_shell 4 half_ticks start
      (refl, (refl, tt))

abbrev other_half_tick : Tick
other_half_tick = record read_tick { sys = unread_tick.sys }

abbrev other_half_ticks : List Tick
other_half_ticks = other_half_tick ∷ unread_tick ∷ []

run_cycles_without_sysinfo_example :
    system_tables (run_cycles memory_db whole docker_shell 4 other_half_ticks start).conn.now
    ≡ system_tables old_memory.now
unfolding read_sysinfo
run_cycles_without_sysinfo_example =
    run_cycles_without_sysinfo memory_db memory-IsSqlite whole docker_shell 4 other_half_ticks start
      (refl, (refl, tt))

-- The row of the container `web` is marked in this very step.
deleted_run :
    (get_total_deleted_containers memory_db
      (upsert_containers_from_snapshot memory_db (λ ks. ks) one_container old_memory).1).0
    ≡ ok 2
unfolding get_total_deleted_containers upsert_containers_from_snapshot apply mark_one for_each
    mark_if_gone set_removed set_last_seen insert_if_new
deleted_run = refl

on_cont_info_host_example :
    let after =
      (on_cont_info memory_db whole docker_shell 4 read_tick (ok one_container) start).conn in
    after.now.container_host_metrics
    ≡ [] ++ host_row one_container (removed_count after.now.containers) ∷ []
unfolding insert_host
on_cont_info_host_example =
    on_cont_info_host memory_db memory-IsSqlite whole docker_shell 4 read_tick one_container start 2
      1 deleted_run refl
