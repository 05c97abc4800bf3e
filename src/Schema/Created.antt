-- ===== src/Schema/Created.antt =====
-- What the sequence of Daemon/main.go leaves in the database when the loop starts.
use proyecto_1_sopes.Prelude.{
  ◌≡◌, refl, sym, subst, ◌∙◌, ap, Option, none, some, List, [], ◌∷◌, ◌++◌, Result, ok, err,
}
use mathlib.Core.Path.{ap₂}
use proyecto_1_sopes.Database.{
  Engine, Tables, Stmt, apply, TableName, IndexName, TableName-discrete, IndexName-discrete,
  create_table, create_index, ExecResult, system_metrics_table, process_metrics_table,
  process_state_summary_table, container_host_metrics_table, containers_table,
  container_metrics_table, idx_proc_ts, idx_proc_ts_rss, idx_proc_ts_cpu, idx_state_ts,
  idx_chost_ts, idx_containers_cid, idx_cmetrics_ts, idx_cmetrics_ts_rss, idx_cmetrics_ts_cpu,
}
use proyecto_1_sopes.Database.Tx.{Error, Sql, exec_failed, pure, ◌>>◌, or_fail}
use proyecto_1_sopes.Database.Laws.{IsSqlite}
use proyecto_1_sopes.Schema.{
  table, index, create_tables, create_system_metrics_table, create_process_metrics_table,
  create_process_state_summary_table, create_container_host_metrics_table, create_containers_table,
  create_container_metrics_table,
}
use proyecto_1_sopes.Schema.Listed.{add_all-append}
use proyecto_1_sopes.Schema.Complete.{
  with_schema, SameRows, SameRows-with_schema, all_tables, all_indexes, IsComplete,
  with_schema-IsComplete,
}

module _ {Conn : Type 0} (db : Engine Conn) (laws : IsSqlite db) where
  open laws use {tables, exec_db_ok, exec_db_err}

  -- An action that creates these tables and indexes, or fails on the way.
  abbrev Creates : List TableName → List IndexName → Conn → Result Error (Unit {0}) × Conn → Type 0
  Creates ts is c (ok _, c') = tables c' ≡ with_schema ts is (tables c)
  Creates ts is c (err _, c') = SameRows (tables c) (tables c')

  exec_at :
      (s : Stmt) (ts : List TableName) (is : List IndexName) (c : Conn)
      (r : Option ExecResult × Conn)
      → ((d : Tables) → apply s d ≡ with_schema ts is d)
      → ((x : ExecResult) → r.0 ≡ some x → tables r.1 ≡ apply s (tables c))
      → (r.0 ≡ none → tables r.1 ≡ tables c)
      → Creates ts is c ((or_fail exec_failed (λ _. r) >> pure tt) c)
  exec_at s ts is c (some x, c') same h k = h x refl ∙ same (tables c)
  exec_at s ts is c (none, c') same h k = SameRows-with_schema [] [] (tables c) (tables c') (k refl)

  table-Creates : (t : TableName) (c : Conn) → Creates (t ∷ []) [] c (table db t c)
  unfolding table apply
  table-Creates t c =
      exec_at (create_table t) (t ∷ []) [] c (db.exec_db (create_table t) c) (λ d. refl)
        (λ x e. exec_db_ok (create_table t) c e) (exec_db_err (create_table t) c)

  index-Creates : (i : IndexName) (c : Conn) → Creates [] (i ∷ []) c (index db i c)
  unfolding index apply
  index-Creates i c =
      exec_at (create_index i) [] (i ∷ []) c (db.exec_db (create_index i) c) (λ d. refl)
        (λ x e. exec_db_ok (create_index i) c e) (exec_db_err (create_index i) c)

  after-Creates :
      (ts ts' : List TableName) (is is' : List IndexName) (c c' : Conn)
      (out : Result Error (Unit {0}) × Conn)
      → Creates ts is c (ok tt, c')
      → Creates ts' is' c' out
      → Creates (ts ++ ts') (is ++ is') c out
  after-Creates ts ts' is is' c c' (ok _, c2) h k =
      k
      ∙ (ap (with_schema ts' is') h
          ∙ sym (
              ap₂ {A = List TableName} {B = List IndexName} {C = Tables}
                (λ xs ys. record (tables c) { created = xs; indexes = ys })
                (add_all-append TableName-discrete ts ts' (tables c).created)
                (add_all-append IndexName-discrete is is' (tables c).indexes)))
  after-Creates ts ts' is is' c c' (err _, c2) h k =
      k
      ∙ ap {A = Tables}
          (λ d. record d { created = (tables c2).created; indexes = (tables c2).indexes }) h

  bind-Creates_at :
      (ts ts' : List TableName) (is is' : List IndexName) (c : Conn)
      (r : Result Error (Unit {0}) × Conn) (k : Sql Conn (Unit {0}))
      → Creates ts is c r
      → ((c' : Conn) → Creates ts' is' c' (k c'))
      → Creates (ts ++ ts') (is ++ is') c (((λ _. r) >> k) c)
  bind-Creates_at ts ts' is is' c (ok a, c') k h j =
      after-Creates ts ts' is is' c c' (k c') h (j c')
  bind-Creates_at ts ts' is is' c (err e, c') k h j = h

  bind-Creates :
      (ts ts' : List TableName) (is is' : List IndexName) (m k : Sql Conn (Unit {0}))
      → ((c : Conn) → Creates ts is c (m c))
      → ((c : Conn) → Creates ts' is' c (k c))
      → (c : Conn) → Creates (ts ++ ts') (is ++ is') c ((m >> k) c)
  bind-Creates ts ts' is is' m k h j c = bind-Creates_at ts ts' is is' c (m c) k (h c) j

  -- A table and one index, or three of them.
  with_one :
      (t : TableName) (i : IndexName) (c : Conn)
      → Creates (t ∷ []) (i ∷ []) c ((table db t >> index db i) c)
  with_one t i = bind-Creates (t ∷ []) [] [] (i ∷ []) _ _ (table-Creates t) (index-Creates i)

  with_three :
      (t : TableName) (i j k : IndexName) (c : Conn)
      → Creates
          (t ∷ [])
          (i ∷ j ∷ k ∷ [])
          c
          ((table db t >> (index db i >> (index db j >> index db k))) c)
  with_three t i j k = bind-Creates (t ∷ []) [] [] (i ∷ j ∷ k ∷ []) _ _ (table-Creates t) (
      bind-Creates [] [] (i ∷ []) (j ∷ k ∷ []) _ _ (index-Creates i)
        (bind-Creates [] [] (j ∷ []) (k ∷ []) _ _ (index-Creates j) (index-Creates k)))

  -- The sequence of `main`, from its end.
  create_tables-Creates : (c : Conn) → Creates all_tables all_indexes c (create_tables db c)
  unfolding create_tables create_system_metrics_table create_process_metrics_table
      create_process_state_summary_table create_container_host_metrics_table create_containers_table
      create_container_metrics_table
  create_tables-Creates =
      let t6 = container_metrics_table ∷ [] in
      let i6 = idx_cmetrics_ts ∷ idx_cmetrics_ts_rss ∷ idx_cmetrics_ts_cpu ∷ [] in
      let h6 =
        with_three container_metrics_table idx_cmetrics_ts idx_cmetrics_ts_rss
          idx_cmetrics_ts_cpu in
      let m6 = create_container_metrics_table db in
      let h5 =
        bind-Creates (containers_table ∷ []) t6 (idx_containers_cid ∷ []) i6
          (create_containers_table db) m6 (with_one containers_table idx_containers_cid) h6 in
      let t5 = containers_table ∷ t6 in
      let i5 = idx_containers_cid ∷ i6 in
      let m5 = create_containers_table db >> m6 in
      let h4 =
        bind-Creates (container_host_metrics_table ∷ []) t5 (idx_chost_ts ∷ []) i5
          (create_container_host_metrics_table db) m5
          (with_one container_host_metrics_table idx_chost_ts) h5 in
      let t4 = container_host_metrics_table ∷ t5 in
      let i4 = idx_chost_ts ∷ i5 in
      let m4 = create_container_host_metrics_table db >> m5 in
      let h3 =
        bind-Creates (process_state_summary_table ∷ []) t4 (idx_state_ts ∷ []) i4
          (create_process_state_summary_table db) m4
          (with_one process_state_summary_table idx_state_ts) h4 in
      let t3 = process_state_summary_table ∷ t4 in
      let i3 = idx_state_ts ∷ i4 in
      let m3 = create_process_state_summary_table db >> m4 in
      let h2 =
        bind-Creates (process_metrics_table ∷ []) t3
          (idx_proc_ts ∷ idx_proc_ts_rss ∷ idx_proc_ts_cpu ∷ []) i3
          (create_process_metrics_table db) m3
          (with_three process_metrics_table idx_proc_ts idx_proc_ts_rss idx_proc_ts_cpu) h3 in
      bind-Creates (system_metrics_table ∷ []) (process_metrics_table ∷ t3) []
        (idx_proc_ts ∷ idx_proc_ts_rss ∷ idx_proc_ts_cpu ∷ i3) (create_system_metrics_table db)
        (create_process_metrics_table db >> m3) (table-Creates system_metrics_table) h2

  -- When every `CREATE` succeeds.
  abbrev pub Prepares : Conn → Result Error (Unit {0}) × Conn → Type 0
  Prepares c (ok _, c') = IsComplete (tables c') × SameRows (tables c) (tables c')
  Prepares c (err _, c') = SameRows (tables c) (tables c')

  Prepares-Creates :
      (c : Conn) (out : Result Error (Unit {0}) × Conn)
      → Creates all_tables all_indexes c out
      → Prepares c out
  Prepares-Creates c (ok u, c') h = (
    subst IsComplete (sym h) (with_schema-IsComplete (tables c)),
    SameRows-with_schema all_tables all_indexes (tables c) (tables c') h,
  )
  Prepares-Creates c (err e, c') h = h

  -- Preparing the database, if it succeeds, leaves a schema with every table and every index that
  -- the daemon names; whether it succeeds or not, no row of any table is added, changed or lost.
  -- The database is one that keeps the laws of SQLite.
  pub create_tables-Prepares : (c : Conn) → Prepares c (create_tables db c)
  create_tables-Prepares c = Prepares-Creates c (create_tables db c) (create_tables-Creates c)
