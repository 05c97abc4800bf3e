-- ===== src/Database.antt =====
-- The database of Daemon/insert_system.go and Daemon/insert_cont.go: the tables, the SQL statements
-- of the source and what each does to the tables, and the driver as a parameter. The columns `id`
-- and `created_at`, which the database fills in, are left out. An INTEGER is an int64 pattern, a
-- REAL a float64 pattern, and a nullable column an `Option`.
pub mod Tx
pub mod Laws
pub mod Compose
pub mod Whole
use proyecto_1_sopes.Prelude.{
  ℕ, ◌+◌, ◌≡◌, Bool, true, false, ◌&&◌, Option, none, some, List, [], ◌∷◌, ◌++◌, map, if◌then◌else◌,
  length, select, contains, Bytes, bytes_eq, bytes_key, Result, ok, err,
}

pub data TableName : Type 0 where
  system_metrics_table process_metrics_table process_state_summary_table : TableName
  container_host_metrics_table containers_table container_metrics_table : TableName

pub data IndexName : Type 0 where
  idx_proc_ts idx_proc_ts_rss idx_proc_ts_cpu idx_state_ts idx_chost_ts idx_containers_cid :
      IndexName
  idx_cmetrics_ts idx_cmetrics_ts_rss idx_cmetrics_ts_cpu : IndexName

pub record SystemRow : Type 0 where
  pub ts_ms : ℕ
  pub total_ram_kb : ℕ
  pub free_ram_kb : ℕ
  pub available_kb : Option ℕ
  pub ram_used_kb : ℕ
  pub total_procs : ℕ
  pub cpu_usage_pct : ℕ

pub record ProcessRow : Type 0 where
  pub ts_ms : ℕ
  pub pid : ℕ
  pub comm : Bytes
  pub state : Bytes
  pub rss_kb : ℕ
  pub utime : ℕ
  pub stime : ℕ
  pub cpu_pct : Option ℕ

pub record SummaryRow : Type 0 where
  pub ts_ms : ℕ
  pub state : Bytes
  pub count : ℕ

pub record HostRow : Type 0 where
  pub ts_ms : ℕ
  pub total_ram_kb : ℕ
  pub free_ram_kb : ℕ
  pub used_ram_kb : ℕ
  pub total_containers : ℕ
  pub total_deleted_acc : ℕ

pub record ContainerRow : Type 0 where
  pub container_id : Bytes
  pub first_seen_ts_ms : ℕ
  pub last_seen_ts_ms : ℕ
  pub removed_at_ts_ms : Option ℕ
  pub container_type : Bytes

pub record MetricRow : Type 0 where
  pub ts_ms : ℕ
  pub container_id : Bytes
  pub rss_kb : ℕ
  pub cpu_time_ns : ℕ
  pub cpu_pct : ℕ

-- The contents of monitoring.db, rows in order of insertion.
pub record Tables : Type 0 where
  pub created : List TableName
  pub indexes : List IndexName
  pub system_metrics : List SystemRow
  pub process_metrics : List ProcessRow
  pub process_state_summary : List SummaryRow
  pub container_host_metrics : List HostRow
  pub containers : List ContainerRow
  pub container_metrics : List MetricRow

-- The statements of the source, with their `?` filled in.
pub data Stmt : Type 0 where
  create_table : TableName → Stmt
  create_index : IndexName → Stmt
  insert_system_metrics : SystemRow → Stmt
  insert_process_metrics : ProcessRow → Stmt
  insert_process_state_summary : SummaryRow → Stmt
  insert_container_host_metrics : HostRow → Stmt
  insert_container_metrics : MetricRow → Stmt
  update_last_seen : ℕ → Bytes → Stmt
  insert_container : Bytes → ℕ → ℕ → Bytes → Stmt
  mark_removed : ℕ → Bytes → Stmt

pub TableName-discrete : Discrete TableName
TableName-discrete = hlevel

pub IndexName-discrete : Discrete IndexName
IndexName-discrete = hlevel

-- `IF NOT EXISTS`
abbrev pub add_new {ℓ} : {A : Type ℓ} → Discrete A → A → List A → List A
add_new dec a [] = a ∷ []
add_new dec a (x ∷ xs) = elim (dec x a) [ yes _ ↦ x ∷ xs | no _ ↦ x ∷ add_new dec a xs ]

-- `SET last_seen_ts_ms = ? WHERE container_id = ?`
unfoldable pub set_last_seen : ℕ → Bytes → List ContainerRow → List ContainerRow
set_last_seen ts cid [] = []
set_last_seen ts cid (r ∷ rs) =
    (if bytes_eq r.container_id cid then record r { last_seen_ts_ms = ts } else r)
    ∷ set_last_seen ts cid rs

-- `removed_at_ts_ms IS NULL`
abbrev pub is_open : ContainerRow → Bool
is_open r = elim r.removed_at_ts_ms [ none ↦ true | some _ ↦ false ]

-- `SET removed_at_ts_ms = ? WHERE container_id = ? AND removed_at_ts_ms IS NULL`
unfoldable pub set_removed : ℕ → Bytes → List ContainerRow → List ContainerRow
set_removed ts cid [] = []
set_removed ts cid (r ∷ rs) =
    (if bytes_eq r.container_id cid && is_open r
      then record r { removed_at_ts_ms = some ts }
      else r)
    ∷ set_removed ts cid rs

abbrev pub new_container : Bytes → ℕ → ℕ → Bytes → ContainerRow
new_container cid first last ctype = record {
  container_id = cid;
  first_seen_ts_ms = first;
  last_seen_ts_ms = last;
  removed_at_ts_ms = none;
  container_type = ctype;
}

-- What a statement does to the tables when it succeeds.
unfoldable pub apply : Stmt → Tables → Tables
unfolding set_last_seen set_removed
apply (create_table t) d = record d { created = add_new TableName-discrete t d.created }
apply (create_index i) d = record d { indexes = add_new IndexName-discrete i d.indexes }
apply (insert_system_metrics r) d = record d { system_metrics = d.system_metrics ++ r ∷ [] }
apply (insert_process_metrics r) d = record d { process_metrics = d.process_metrics ++ r ∷ [] }
apply (insert_process_state_summary r) d = record d {
  process_state_summary = d.process_state_summary ++ r ∷ [];
}
apply (insert_container_host_metrics r) d = record d {
  container_host_metrics = d.container_host_metrics ++ r ∷ [];
}
apply (insert_container_metrics r) d = record d {
  container_metrics = d.container_metrics ++ r ∷ [];
}
apply (update_last_seen ts cid) d = record d { containers = set_last_seen ts cid d.containers }
apply (insert_container cid first last ctype) d = record d {
  containers = d.containers ++ new_container cid first last ctype ∷ [];
}
apply (mark_removed ts cid) d = record d { containers = set_removed ts cid d.containers }

abbrev pub container_ids : List ContainerRow → List Bytes
container_ids [] = []
container_ids (r ∷ rs) = r.container_id ∷ container_ids rs

-- The rows that `UPDATE … WHERE container_id = ?` affects.
abbrev pub affected : Bytes → List ContainerRow → ℕ
affected cid rs = length (select (λ r. bytes_eq r.container_id cid) rs)

-- `SELECT container_id FROM containers WHERE removed_at_ts_ms IS NULL`
abbrev pub open_ids : List ContainerRow → List Bytes
open_ids rs = container_ids (select is_open rs)

-- `SELECT COUNT(*) FROM containers WHERE removed_at_ts_ms IS NOT NULL`
abbrev pub removed_count : List ContainerRow → ℕ
removed_count [] = 0
removed_count (r ∷ rs) = if is_open r then removed_count rs else removed_count rs + 1

-- A `sql.Result`: each of its methods may fail.
pub record ExecResult : Type 0 where
  pub rows_affected : Option ℕ
  pub last_insert_id : Option ℕ

-- A `*sql.Rows` read to its end: what each `Scan` gives, and whether `rows.Err()` is set.
pub record Rows : Type 0 where
  pub items : List (Option Bytes)
  pub failed : Bool

-- `database/sql` over the SQLite driver. Every call may fail, which is `none`.
pub record Engine (Conn : Type 0) : Type 0 where
  pub exec_db : Stmt → Conn → Option ExecResult × Conn
  pub begin_tx : Conn → Option (Unit {0}) × Conn
  pub exec_tx : Stmt → Conn → Option ExecResult × Conn
  pub prepare : Conn → Option (Unit {0}) × Conn
  pub query_open : Conn → Option Rows × Conn
  pub count_removed : Conn → Option ℕ × Conn
  pub rollback : Conn → Conn
  pub commit : Conn → Option (Unit {0}) × Conn
