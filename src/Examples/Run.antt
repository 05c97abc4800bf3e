-- ===== src/Examples/Run.antt =====
-- A run of `main` on a file with old rows, on a host on which Grafana and the scripts fail.
use proyecto_1_sopes.Prelude.{
  ◌≡◌, refl, subst, Option, none, some, List, [], bytes_key, ok, IsDistinct,
}
use proyecto_1_sopes.Database.{ContainerRow, container_ids}
use proyecto_1_sopes.Rules.{ContainerInfo}
use proyecto_1_sopes.Schema.{
  create_tables, create_system_metrics_table, create_process_metrics_table,
  create_process_state_summary_table, create_container_host_metrics_table, create_containers_table,
  create_container_metrics_table, table, index,
}
use proyecto_1_sopes.Daemon.{State, run_cycles}
use proyecto_1_sopes.Main.{
  Commands, Driver, run_main, first_state, prepare_db, open_db, start_commands, is_grafana_running,
  start_grafana_containers, run_install_modules, run_stress_container_script,
}
use proyecto_1_sopes.Main.Whole.{run_main-IsDistinct}
use proyecto_1_sopes.Examples.Memory.{Memory, memory_db, memory-IsSqlite}
use proyecto_1_sopes.Examples.Host.{docker_shell, four_containers}
use proyecto_1_sopes.Examples.Rows.{old_memory}
use proyecto_1_sopes.Examples.Measures.{whole}
use proyecto_1_sopes.Examples.Cycles.{two_ticks}

abbrev failing_commands : Commands (List ContainerInfo)
failing_commands = record {
  output = λ name args w. (none, w);
  combined_output = λ dir name args w. (none, w);
  run_bash = λ script w. (none, w);
  start_bash = λ script w. (none, w);
}

abbrev old_file : Driver Memory
old_file = record { open_file = λ path. some old_memory; ping = λ m. (some tt, m) }

abbrev rows_in : Option Memory → List ContainerRow
rows_in none = []
rows_in (some m) = m.now.containers

abbrev final : State Memory (List ContainerInfo)
final =
    run_cycles memory_db whole docker_shell 4 two_ticks
      (first_state (create_tables memory_db old_memory).1 four_containers)

run_main-final :
    (run_main memory_db old_file failing_commands whole docker_shell 4 two_ticks four_containers).0
    ≡ ok final
unfolding run_main prepare_db open_db start_commands is_grafana_running start_grafana_containers
    run_install_modules run_stress_container_script create_tables create_system_metrics_table
    create_process_metrics_table create_process_state_summary_table
    create_container_host_metrics_table create_containers_table create_container_metrics_table table
    index
run_main-final = refl

run_main-IsDistinct_example : IsDistinct (container_ids final.conn.now.containers)
run_main-IsDistinct_example =
    run_main-IsDistinct memory_db memory-IsSqlite old_file (λ m. refl) failing_commands whole
      docker_shell 4 two_ticks four_containers final
      (λ m o. subst (λ f. IsDistinct (container_ids (rows_in f))) o (refl, (refl, tt)))
      run_main-final
