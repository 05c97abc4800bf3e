-- ===== src/Schema/Complete.antt =====
-- The schema that the daemon needs.
use proyecto_1_sopes.Prelude.{◌≡◌, sym, ◌∙◌, ap, true, List, [], ◌∷◌}
use proyecto_1_sopes.Database.{
  Tables, TableName, IndexName, TableName-discrete, IndexName-discrete, system_metrics_table,
  process_metrics_table, process_state_summary_table, container_host_metrics_table,
  containers_table, container_metrics_table, idx_proc_ts, idx_proc_ts_rss, idx_proc_ts_cpu,
  idx_state_ts, idx_chost_ts, idx_containers_cid, idx_cmetrics_ts, idx_cmetrics_ts_rss,
  idx_cmetrics_ts_cpu,
}
use proyecto_1_sopes.Schema.Listed.{is_listed, add_all, listed-middle, listed-add_all}

-- The tables after some tables and indexes have been created.
abbrev pub with_schema : List TableName → List IndexName → Tables → Tables
with_schema ts is d = record d {
  created = add_all TableName-discrete ts d.created;
  indexes = add_all IndexName-discrete is d.indexes;
}

-- Nothing but the schema differs.
abbrev pub SameRows : Tables → Tables → Type 0
SameRows d d' = d' ≡ record d { created = d'.created; indexes = d'.indexes }

pub SameRows-with_schema :
    (ts : List TableName) (is : List IndexName) (d d' : Tables)
    → d' ≡ with_schema ts is d
    → SameRows d d'
SameRows-with_schema ts is d d' h =
    h ∙ ap (λ t. record d { created = t.created; indexes = t.indexes }) (sym h)

abbrev pub all_tables : List TableName
all_tables =
    system_metrics_table ∷ process_metrics_table ∷ process_state_summary_table
    ∷ container_host_metrics_table ∷ containers_table ∷ container_metrics_table ∷ []

abbrev pub all_indexes : List IndexName
all_indexes =
    idx_proc_ts ∷ idx_proc_ts_rss ∷ idx_proc_ts_cpu ∷ idx_state_ts ∷ idx_chost_ts
    ∷ idx_containers_cid ∷ idx_cmetrics_ts ∷ idx_cmetrics_ts_rss ∷ idx_cmetrics_ts_cpu ∷ []

table_in_all : (x : TableName) → is_listed TableName-discrete x all_tables ≡ true
table_in_all system_metrics_table = listed-middle TableName-discrete system_metrics_table ([]) (
    process_metrics_table ∷ process_state_summary_table ∷ container_host_metrics_table
    ∷ containers_table ∷ container_metrics_table ∷ [])
table_in_all process_metrics_table =
    listed-middle TableName-discrete process_metrics_table (system_metrics_table ∷ []) (
      process_state_summary_table ∷ container_host_metrics_table ∷ containers_table
      ∷ container_metrics_table ∷ [])
table_in_all process_state_summary_table =
    listed-middle TableName-discrete process_state_summary_table
      (system_metrics_table ∷ process_metrics_table ∷ [])
      (container_host_metrics_table ∷ containers_table ∷ container_metrics_table ∷ [])
table_in_all container_host_metrics_table =
    listed-middle TableName-discrete container_host_metrics_table
      (system_metrics_table ∷ process_metrics_table ∷ process_state_summary_table ∷ [])
      (containers_table ∷ container_metrics_table ∷ [])
table_in_all containers_table =
    listed-middle TableName-discrete containers_table
      (system_metrics_table ∷ process_metrics_table ∷ process_state_summary_table
        ∷ container_host_metrics_table ∷ [])
      (container_metrics_table ∷ [])
table_in_all container_metrics_table =
    listed-middle TableName-discrete container_metrics_table
      (system_metrics_table ∷ process_metrics_table ∷ process_state_summary_table
        ∷ container_host_metrics_table ∷ containers_table ∷ [])
      ([])

index_in_all : (x : IndexName) → is_listed IndexName-discrete x all_indexes ≡ true
index_in_all idx_proc_ts = listed-middle IndexName-discrete idx_proc_ts ([]) (
    idx_proc_ts_rss ∷ idx_proc_ts_cpu ∷ idx_state_ts ∷ idx_chost_ts ∷ idx_containers_cid
    ∷ idx_cmetrics_ts ∷ idx_cmetrics_ts_rss ∷ idx_cmetrics_ts_cpu ∷ [])
index_in_all idx_proc_ts_rss = listed-middle IndexName-discrete idx_proc_ts_rss (idx_proc_ts ∷ []) (
    idx_proc_ts_cpu ∷ idx_state_ts ∷ idx_chost_ts ∷ idx_containers_cid ∷ idx_cmetrics_ts
    ∷ idx_cmetrics_ts_rss ∷ idx_cmetrics_ts_cpu ∷ [])
index_in_all idx_proc_ts_cpu =
    listed-middle IndexName-discrete idx_proc_ts_cpu (idx_proc_ts ∷ idx_proc_ts_rss ∷ []) (
      idx_state_ts ∷ idx_chost_ts ∷ idx_containers_cid ∷ idx_cmetrics_ts ∷ idx_cmetrics_ts_rss
      ∷ idx_cmetrics_ts_cpu ∷ [])
index_in_all idx_state_ts =
    listed-middle IndexName-discrete idx_state_ts
      (idx_proc_ts ∷ idx_proc_ts_rss ∷ idx_proc_ts_cpu ∷ [])
      (idx_chost_ts ∷ idx_containers_cid ∷ idx_cmetrics_ts ∷ idx_cmetrics_ts_rss
        ∷ idx_cmetrics_ts_cpu ∷ [])
index_in_all idx_chost_ts =
    listed-middle IndexName-discrete idx_chost_ts
      (idx_proc_ts ∷ idx_proc_ts_rss ∷ idx_proc_ts_cpu ∷ idx_state_ts ∷ [])
      (idx_containers_cid ∷ idx_cmetrics_ts ∷ idx_cmetrics_ts_rss ∷ idx_cmetrics_ts_cpu ∷ [])
index_in_all idx_containers_cid =
    listed-middle IndexName-discrete idx_containers_cid
      (idx_proc_ts ∷ idx_proc_ts_rss ∷ idx_proc_ts_cpu ∷ idx_state_ts ∷ idx_chost_ts ∷ [])
      (idx_cmetrics_ts ∷ idx_cmetrics_ts_rss ∷ idx_cmetrics_ts_cpu ∷ [])
index_in_all idx_cmetrics_ts =
    listed-middle IndexName-discrete idx_cmetrics_ts
      (idx_proc_ts ∷ idx_proc_ts_rss ∷ idx_proc_ts_cpu ∷ idx_state_ts ∷ idx_chost_ts
        ∷ idx_containers_cid ∷ [])
      (idx_cmetrics_ts_rss ∷ idx_cmetrics_ts_cpu ∷ [])
index_in_all idx_cmetrics_ts_rss =
    listed-middle IndexName-discrete idx_cmetrics_ts_rss
      (idx_proc_ts ∷ idx_proc_ts_rss ∷ idx_proc_ts_cpu ∷ idx_state_ts ∷ idx_chost_ts
        ∷ idx_containers_cid ∷ idx_cmetrics_ts ∷ [])
      (idx_cmetrics_ts_cpu ∷ [])
index_in_all idx_cmetrics_ts_cpu =
    listed-middle IndexName-discrete idx_cmetrics_ts_cpu
      (idx_proc_ts ∷ idx_proc_ts_rss ∷ idx_proc_ts_cpu ∷ idx_state_ts ∷ idx_chost_ts
        ∷ idx_containers_cid ∷ idx_cmetrics_ts ∷ idx_cmetrics_ts_rss ∷ [])
      ([])

-- Everything that the daemon needs is listed.
abbrev pub IsComplete : Tables → Type 0
IsComplete d =
    ((t : TableName) → is_listed TableName-discrete t d.created ≡ true)
    × ((i : IndexName) → is_listed IndexName-discrete i d.indexes ≡ true)

pub with_schema-IsComplete : (d : Tables) → IsComplete (with_schema all_tables all_indexes d)
with_schema-IsComplete d = (
  (λ t. listed-add_all TableName-discrete t all_tables d.created (table_in_all t)),
  (λ i. listed-add_all IndexName-discrete i all_indexes d.indexes (index_in_all i)),
)
