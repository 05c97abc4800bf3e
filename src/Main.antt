-- ===== src/Main.antt =====
-- `main` of Daemon/main.go as one sequence, without the signal handler: what it starts, the opening
-- of the database, and the loop. The commands and the driver's `Open` are parameters.
pub mod Whole
use proyecto_1_sopes.Prelude.{
  ℕ, Bool, true, false, not, Option, none, some, List, [], ◌∷◌, if◌then◌else◌, is_empty, Bytes,
  ascii, Result, ok, err,
}
use proyecto_1_sopes.Snapshot.{SysInfo, ContInfoSnapshot}
use proyecto_1_sopes.Database.{Engine}
use proyecto_1_sopes.Database.Tx.{Error}
use proyecto_1_sopes.Cpu.{Float64}
use proyecto_1_sopes.Rules.{Shell}
use proyecto_1_sopes.Schema.{create_tables}
use proyecto_1_sopes.Daemon.{State, Tick, run_cycles}

-- Commands without a timeout: the standard output of one, the output of one that is run in a
-- directory, a script that is run, and one that is started. `none` is an error.
pub record Commands (World : Type 0) : Type 0 where
  pub output : Bytes → List Bytes → World → Option Bytes × World
  pub combined_output : Bytes → Bytes → List Bytes → World → Option Bytes × World
  pub run_bash : Bytes → World → Option (Unit {0}) × World
  pub start_bash : Bytes → World → Option (Unit {0}) × World

-- `sql.Open` and `Ping`.
pub record Driver (Conn : Type 0) : Type 0 where
  pub open_file : Bytes → Option Conn
  pub ping : Conn → Option (Unit {0}) × Conn

pub data StartError : Type 0 where
  grafana_failed install_failed stress_failed open_failed ping_failed tables_failed : StartError

abbrev pub db_path : Bytes
db_path = ascii "monitoring.db"

abbrev pub compose_dir : Bytes
compose_dir = ascii "/home/jemima/Documentos/proyecto-1/grafana"

abbrev pub or_error : {A E World : Type 0} → E → Option A × World → Result E (Unit {0}) × World
or_error e (some _, w) = (ok tt, w)
or_error e (none, w) = (err e, w)

module _ {World : Type 0} (commands : Commands World) where
  open commands use {output, combined_output, run_bash, start_bash}

  -- `IsGrafanaRunning`
  unfoldable pub is_grafana_running : World → Bool × World
  is_grafana_running w =
      let (out, w') =
        output (ascii "docker")
          (ascii "ps"
            ∷ ascii "--filter"
            ∷ ascii "name=grafana-sqlite"
            ∷ ascii "--filter"
            ∷ ascii "status=running"
            ∷ ascii "--format"
            ∷ ascii "{{.Names}}"
            ∷ [])
          w in
      (elim out [ none ↦ false | some names ↦ not (is_empty names) ], w')

  -- `StartGrafanaContainers`
  unfoldable pub start_grafana_containers : Bytes → World → Result StartError (Unit {0}) × World
  start_grafana_containers dir w =
      or_error grafana_failed
        (combined_output dir (ascii "docker") (ascii "compose" ∷ ascii "up" ∷ ascii "-d" ∷ []) w)

  -- `RunInstallModules`
  unfoldable pub run_install_modules : World → Result StartError (Unit {0}) × World
  run_install_modules w = or_error install_failed (run_bash (ascii "../bash/install_modules.sh") w)

  -- `RunStressContainerScript`, up to the start of the script.
  unfoldable pub run_stress_container_script : World → Result StartError (Unit {0}) × World
  run_stress_container_script w =
      or_error stress_failed (start_bash (ascii "../cronjob/stress_container.sh") w)

  -- `main` up to the database: an error is shown and no more.
  unfoldable pub start_commands : World → World
  unfolding is_grafana_running start_grafana_containers run_install_modules
      run_stress_container_script
  start_commands w =
      let (running, w1) = is_grafana_running w in
      let w2 = if running then w1 else (start_grafana_containers compose_dir w1).1 in
      (run_stress_container_script (run_install_modules w2).1).1

-- A handle that does not answer is closed and used no more.
abbrev pub or_not_open : {Conn : Type 0} → Option (Unit {0}) × Conn → Result StartError Conn
or_not_open (none, c) = err ping_failed
or_not_open (some _, c) = ok c

abbrev pub or_no_tables : {Conn : Type 0} → Result Error (Unit {0}) × Conn → Result StartError Conn
or_no_tables (err _, c) = err tables_failed
or_no_tables (ok _, c) = ok c

module _ {Conn : Type 0} (db : Engine Conn) (driver : Driver Conn) where
  open driver use {open_file, ping}

  abbrev pub and_ping : Option Conn → Result StartError Conn
  and_ping none = err open_failed
  and_ping (some c) = or_not_open (ping c)

  -- `OpenDB`
  unfoldable pub open_db : Bytes → Result StartError Conn
  open_db path = and_ping (open_file path)

  abbrev pub and_tables : Result StartError Conn → Result StartError Conn
  and_tables (err e) = err e
  and_tables (ok c) = or_no_tables (create_tables db c)

  -- The opening and the tables: `main` returns on an error.
  unfoldable pub prepare_db : Result StartError Conn
  unfolding open_db
  prepare_db = and_tables (open_db db_path)

-- The zero values of the two snapshots.
abbrev pub zero_sysinfo : SysInfo
zero_sysinfo = record {
  total_ram_kb = 0;
  free_ram_kb = 0;
  available_kb = 0;
  ram_used_kb = 0;
  total_procs = 0;
  cpu_usage_pct = 0;
  ts_ms = 0;
  procesos = [];
  raw_json_present = false;
}

abbrev pub zero_cont_info : ContInfoSnapshot
zero_cont_info = record {
  total_ram_kb = 0;
  free_ram_kb = 0;
  used_ram_kb = 0;
  ts_ms = 0;
  procesos = [];
}

abbrev pub first_state : {Conn World : Type 0} → Conn → World → State Conn World
first_state c w = record {
  prev_sys = zero_sysinfo;
  have_prev_sys = false;
  prev_cont = zero_cont_info;
  have_prev_cont = false;
  conn = c;
  world = w;
}

module _ {Conn World : Type 0} (db : Engine Conn) (driver : Driver Conn) (commands : Commands World)
    (fl : Float64) (shell : Shell World) (num_cpus : ℕ) where
  abbrev pub and_cycles :
      List Tick → World → Result StartError Conn → Result StartError (State Conn World) × World
  and_cycles ts w (err e) = (err e, w)
  and_cycles ts w (ok c) =
      let s = run_cycles db fl shell num_cpus ts (first_state c w) in (ok s, s.world)

  -- `main`, with its loop run for some ticks.
  unfoldable pub run_main : List Tick → World → Result StartError (State Conn World) × World
  unfolding start_commands prepare_db
  run_main ts w = and_cycles ts (start_commands commands w) (prepare_db db driver)
