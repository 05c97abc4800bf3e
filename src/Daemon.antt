-- ===== src/Daemon.antt =====
-- Daemon/main.go: reading the snapshots and the monitoring cycle. The files under /proc and the JSON
-- decoder are parameters; what the console shows is in Console.
pub mod Invariant
pub mod Previous
pub mod Parts
pub mod HostRow
pub mod Frame
use proyecto_1_sopes.Prelude.{
  ℕ, Bool, true, false, Option, none, some, List, [], ◌∷◌, if◌then◌else◌, Bytes, Result, ok, err,
}
use proyecto_1_sopes.Snapshot.{SysInfo, ContInfoSnapshot}
use proyecto_1_sopes.Database.{Engine}
use proyecto_1_sopes.Cpu.{Float64, build_proc_cpu_pct, build_container_cpu_pct}
use proyecto_1_sopes.Containers.{upsert_containers_from_snapshot, get_total_deleted_containers}
use proyecto_1_sopes.Metrics.{
  insert_system, insert_process_bulk, insert_state_summary, insert_host, insert_metrics_bulk,
}
use proyecto_1_sopes.Rules.{Shell, enforce_rules}

pub data ReadError : Type 0 where
  open_failed read_failed decode_failed : ReadError

-- One reading of a file under /proc: what each call gives, `none` for an error.
pub record Reading (A : Type 0) : Type 0 where
  pub opened : Option (Unit {0})
  pub content : Option Bytes
  pub decode : Bytes → Option A

-- `ReadSysinfo`
unfoldable pub read_sysinfo : Reading SysInfo → Result ReadError SysInfo
read_sysinfo r = elim r.opened [
  | none ↦ err open_failed
  | some _ ↦ elim r.content [
    | none ↦ err read_failed
    | some bytes ↦ elim (r.decode bytes) [
      | none ↦ err decode_failed
      | some si ↦ ok (record si { raw_json_present = true })
    ]
  ]
]

-- `ReadContInfo`; `os.ReadFile` opens and reads.
unfoldable pub read_cont_info : Reading ContInfoSnapshot → Result ReadError ContInfoSnapshot
read_cont_info r = elim r.content [
  | none ↦ err read_failed
  | some bytes ↦ elim (r.decode bytes) [ none ↦ err decode_failed | some snap ↦ ok snap ]
]

-- The variables of `main` that live across cycles, the database and the host.
pub record State (Conn World : Type 0) : Type 0 where
  pub prev_sys : SysInfo
  pub have_prev_sys : Bool
  pub prev_cont : ContInfoSnapshot
  pub have_prev_cont : Bool
  pub conn : Conn
  pub world : World

-- What the environment gives to one cycle: the two readings, and the orders in which `range` goes
-- through the maps of the cycle.
pub record Tick : Type 0 where
  pub sys : Reading SysInfo
  pub cont : Reading ContInfoSnapshot
  pub visit_states : List Bytes → List Bytes
  pub visit_current : List Bytes → List Bytes
  pub visit_cpu : List Bytes → List Bytes

-- `if err != nil { totalDeletedAcc = 0 }`
abbrev pub count_or_zero : {E : Type 0} → Result E ℕ → ℕ
count_or_zero (ok n) = n
count_or_zero (err _) = 0

-- The kernel's HZ as the source takes it.
abbrev pub hz : Float64 → ℕ
hz fl = fl.of_uint64 100

module _ {Conn World : Type 0} (db : Engine Conn) (fl : Float64) (shell : Shell World)
    (num_cpus : ℕ) where
  -- Step 1 of the cycle, after the reading. The errors of the inserts are shown on the console and
  -- no more; the map of shares is nil before there is a previous snapshot.
  unfoldable pub on_sysinfo : Tick → Result ReadError SysInfo → State Conn World → State Conn World
  on_sysinfo t (err _) s = s
  on_sysinfo t (ok si) s =
      let c1 = (insert_system db fl si s.conn).1 in
      let pcts =
        if s.have_prev_sys
        then some (build_proc_cpu_pct fl s.prev_sys si num_cpus (hz fl))
        else none in
      let c2 = (insert_process_bulk db si pcts c1).1 in
      let c3 = (insert_state_summary db t.visit_states si c2).1 in
      record s { prev_sys = si; have_prev_sys = true; conn = c3 }

  -- Step 2 of the cycle, after the reading.
  unfoldable pub on_cont_info :
      Tick → Result ReadError ContInfoSnapshot → State Conn World → State Conn World
  on_cont_info t (err _) s = s
  on_cont_info t (ok snap) s =
      let c1 = (upsert_containers_from_snapshot db t.visit_current snap s.conn).1 in
      let deleted = get_total_deleted_containers db c1 in
      let c3 = (insert_host db snap (count_or_zero deleted.0) deleted.1).1 in
      let pcts =
        if s.have_prev_cont
        then some (build_container_cpu_pct fl t.visit_cpu s.prev_cont snap num_cpus)
        else none in
      let c4 = (insert_metrics_bulk db snap pcts c3).1 in
      record s { prev_cont = snap; have_prev_cont = true; conn = c4 }

  -- One round of the loop of `main`; `time.Sleep` is left out.
  unfoldable pub cycle : Tick → State Conn World → State Conn World
  unfolding on_sysinfo on_cont_info
  cycle t s =
      let s' = on_cont_info t (read_cont_info t.cont) (on_sysinfo t (read_sysinfo t.sys) s) in
      record s' { world = enforce_rules shell s'.world }

  unfoldable pub run_cycles : List Tick → State Conn World → State Conn World
  run_cycles [] s = s
  run_cycles (t ∷ ts) s = run_cycles ts (cycle t s)
