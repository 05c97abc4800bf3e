-- ===== src/Schema.antt =====
-- The creation of the tables and their indexes: Daemon/insert_system.go, Daemon/insert_cont.go, and
-- the sequence in Daemon/main.go.
pub mod Listed
pub mod Complete
pub mod Created
use proyecto_1_sopes.Prelude.{ok, err}
use proyecto_1_sopes.Database.{
  Engine, TableName, IndexName, create_table, create_index, system_metrics_table,
  process_metrics_table, process_state_summary_table, container_host_metrics_table,
  containers_table, container_metrics_table, idx_proc_ts, idx_proc_ts_rss, idx_proc_ts_cpu,
  idx_state_ts, idx_chost_ts, idx_containers_cid, idx_cmetrics_ts, idx_cmetrics_ts_rss,
  idx_cmetrics_ts_cpu,
}
use proyecto_1_sopes.Database.Tx.{Sql, exec_failed, pure, ◌>>=◌, ◌>>◌, or_fail}

module _ {Conn : Type 0} (db : Engine Conn) where
  open db use {exec_db}

  -- `if _, err := db.Exec(ddl); err != nil { return … }`
  unfoldable pub table : TableName → Sql Conn (Unit {0})
  table t = or_fail exec_failed (exec_db (create_table t)) >> pure tt

  unfoldable pub index : IndexName → Sql Conn (Unit {0})
  index i = or_fail exec_failed (exec_db (create_index i)) >> pure tt

  unfoldable pub create_system_metrics_table : Sql Conn (Unit {0})
  create_system_metrics_table = table system_metrics_table

  unfoldable pub create_process_metrics_table : Sql Conn (Unit {0})
  create_process_metrics_table =
      table process_metrics_table
      >> (index idx_proc_ts >> (index idx_proc_ts_rss >> index idx_proc_ts_cpu))

  unfoldable pub create_process_state_summary_table : Sql Conn (Unit {0})
  create_process_state_summary_table = table process_state_summary_table >> index idx_state_ts

  unfoldable pub create_container_host_metrics_table : Sql Conn (Unit {0})
  create_container_host_metrics_table = table container_host_metrics_table >> index idx_chost_ts

  unfoldable pub create_containers_table : Sql Conn (Unit {0})
  create_containers_table = table containers_table >> index idx_containers_cid

  unfoldable pub create_container_metrics_table : Sql Conn (Unit {0})
  create_container_metrics_table =
      table container_metrics_table
      >> (index idx_cmetrics_ts >> (index idx_cmetrics_ts_rss >> index idx_cmetrics_ts_cpu))

  -- The part of `main` that prepares the database; it returns on the first error.
  unfoldable pub create_tables : Sql Conn (Unit {0})
  unfolding create_system_metrics_table create_process_metrics_table
      create_process_state_summary_table create_container_host_metrics_table create_containers_table
      create_container_metrics_table
  create_tables =
      create_system_metrics_table
      >> (create_process_metrics_table
          >> (create_process_state_summary_table
              >> (create_container_host_metrics_table
                  >> (create_containers_table >> create_container_metrics_table))))
