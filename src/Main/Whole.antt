-- ===== src/Main/Whole.antt =====
-- A run of the program on a file that earlier runs have left: `main` of Daemon/main.go.
use proyecto_1_sopes.Prelude.{
  ℕ, ◌≡◌, refl, sym, ◌∙◌, ap, subst, Option, none, some, List, bytes_key, Result, ok, err,
  IsDistinct, arith,
}
use proyecto_1_sopes.Database.{Engine, container_ids}
use proyecto_1_sopes.Database.Tx.{Error}
use proyecto_1_sopes.Database.Laws.{IsSqlite}
use proyecto_1_sopes.Cpu.{Float64}
use proyecto_1_sopes.Rules.{Shell}
use proyecto_1_sopes.Schema.{create_tables}
use proyecto_1_sopes.Schema.Created.{Prepares, create_tables-Prepares}
use proyecto_1_sopes.Daemon.{State, Tick, run_cycles}
use proyecto_1_sopes.Daemon.Invariant.{run_cycles-IsDistinct}
use proyecto_1_sopes.Main.{
  Commands, Driver, StartError, db_path, open_db, or_not_open, or_no_tables, and_ping, and_tables,
  and_cycles, prepare_db, start_commands, first_state, run_main,
}

module _ {Conn : Type 0} (db : Engine Conn) (laws : IsSqlite db) (driver : Driver Conn) where
  open laws use {tables}

  -- Preparing a database leaves the rows of its containers.
  SameContainers : Conn → Conn → Type 0
  SameContainers c c' = (tables c').containers ≡ (tables c).containers

  opened_at :
      (r : Option (Unit {0}) × Conn) (c0 c : Conn)
      → tables r.1 ≡ tables c0
      → or_not_open r ≡ ok c
      → SameContainers c0 c
  unfolding SameContainers
  opened_at (none, c1) c0 c h e = absurd (ground arith)
  opened_at (some u, c1) c0 c h e = ground (arith, ap (λ d. d.containers) h)

  created_at :
      (r : Result Error (Unit {0}) × Conn) (c0 c : Conn)
      → Prepares db laws c0 r
      → or_no_tables r ≡ ok c
      → SameContainers c0 c
  unfolding SameContainers
  created_at (err x, c1) c0 c h e = absurd (ground arith)
  created_at (ok u, c1) c0 c h e = ground (arith, ap (λ d. d.containers) h.1)

  module _ (ping_keeps : (c : Conn) → tables (driver.ping c).1 ≡ tables c) where
    and_ping_lem :
        (o : Option Conn) (c : Conn)
        → and_ping db driver o ≡ ok c
        → (c0 : Conn) × (o ≡ some c0) × SameContainers c0 c
    and_ping_lem none c h = absurd (ground arith)
    and_ping_lem (some c0) c h = (c0, refl, opened_at (driver.ping c0) c0 c (ping_keeps c0) h)

    and_tables_lem :
        (r : Result StartError Conn) (c : Conn)
        → and_tables db driver r ≡ ok c
        → (c1 : Conn) × (r ≡ ok c1) × SameContainers c1 c
    and_tables_lem (err e) c h = absurd (ground arith)
    and_tables_lem (ok c1) c h =
        (c1, refl, created_at (create_tables db c1) c1 c (create_tables-Prepares db laws c1) h)

    prepare_db_lem :
        (c : Conn)
        → prepare_db db driver ≡ ok c
        → (c0 : Conn) × (driver.open_file db_path ≡ some c0) × SameContainers c0 c
    unfolding prepare_db open_db SameContainers
    prepare_db_lem c h =
        let (c1, e1, k1) = and_tables_lem (open_db db driver db_path) c h in
        let (c0, e0, k0) = and_ping_lem (driver.open_file db_path) c1 e1 in (c0, e0, k1 ∙ k0)

    module _ {World : Type 0} (commands : Commands World) (fl : Float64) (shell : Shell World)
        (num_cpus : ℕ) where
      and_cycles_lem :
          (ts : List Tick) (w : World) (r : Result StartError Conn) (s : State Conn World)
          → (and_cycles db driver commands fl shell num_cpus ts w r).0 ≡ ok s
          → (c : Conn) × (r ≡ ok c) × (s ≡ run_cycles db fl shell num_cpus ts (first_state c w))
      and_cycles_lem ts w (err e) s h = absurd (ground arith)
      and_cycles_lem ts w (ok c) s h = (c, refl, ground arith)

      -- Where the container ids of the file that `main` opens are distinct, they are distinct
      -- after any cycles of its loop, whichever commands and statements fail; the database could
      -- be prepared. The database is one that keeps the laws of SQLite. A ping changes no row.
      pub run_main-IsDistinct :
          (ts : List Tick) (w : World) (s : State Conn World)
          → ((c : Conn)
              → driver.open_file db_path ≡ some c
              → IsDistinct (container_ids (tables c).containers))
          → (run_main db driver commands fl shell num_cpus ts w).0 ≡ ok s
          → IsDistinct (container_ids (tables s.conn).containers)
      unfolding run_main SameContainers
      run_main-IsDistinct ts w s file h =
          let w1 = start_commands commands w in
          let (c, e, k) = and_cycles_lem ts w1 (prepare_db db driver) s h in
          let (c0, o, same) = prepare_db_lem c e in
          subst (λ (u : State Conn World). IsDistinct (container_ids (tables u.conn).containers))
            (sym k)
            (run_cycles-IsDistinct db laws fl shell num_cpus ts (first_state c w1)
              (subst (λ rs. IsDistinct (container_ids rs)) (sym same) (file c0 o)))
