-- ===== src/Metrics/Bulk.antt =====
-- The bulk inserts of Daemon/insert_system.go and Daemon/insert_cont.go as transactions.
use proyecto_1_sopes.Prelude.{
  append_laws, ℕ, ◌≡◌, refl, sym, ◌∙◌, ap, Bool, ◌&&◌, not, Option, List, [], ◌∷◌, ◌++◌,
  if◌then◌else◌, map, select, Map, keys, Bytes, bytes_key, is_empty, append_assoc, append-nil,
  arith,
}
use proyecto_1_sopes.Snapshot.{Process, SysInfo, ContProcess, ContInfoSnapshot}
use proyecto_1_sopes.Database.{
  Engine, Tables, ProcessRow, SummaryRow, MetricRow, apply, insert_process_metrics,
  insert_process_state_summary, insert_container_metrics,
}
use proyecto_1_sopes.Database.Tx.{
  exec_failed, prepare_failed, begin_failed, commit_failed, pure, ◌>>◌, or_rollback,
}
use proyecto_1_sopes.Database.Laws.{IsSqlite, Within, Atomic, run_all}
use proyecto_1_sopes.Database.Compose.{if-Within}
use proyecto_1_sopes.Database.Whole.{exec_then_pure-Within, guarded_bulk-Atomic}
use proyecto_1_sopes.Metrics.{
  process_row, insert_process, insert_process_bulk, metric_row, is_stress_process, insert_metric,
  insert_metrics_bulk, count_states, summary_row, insert_state, insert_state_summary,
}

-- Rows appended to one table.
abbrev pub add_process_rows : List ProcessRow → Tables → Tables
add_process_rows rs d = record d { process_metrics = d.process_metrics ++ rs }

abbrev pub add_summary_rows : List SummaryRow → Tables → Tables
add_summary_rows rs d = record d { process_state_summary = d.process_state_summary ++ rs }

abbrev pub add_metric_rows : List MetricRow → Tables → Tables
add_metric_rows rs d = record d { container_metrics = d.container_metrics ++ rs }

run_all-process :
    (si : SysInfo) (pcts : Option (Map ℕ ℕ)) (ps : List Process) (d : Tables)
    → run_all (λ p. apply (insert_process_metrics (process_row si pcts p))) ps d
      ≡ add_process_rows (map (process_row si pcts) ps) d
unfolding run_all apply
run_all-process si pcts [] d = simp append_laws
run_all-process si pcts (p ∷ ps) d = simp (run_all-process si pcts ps, append_laws)

run_all-state :
    (si : SysInfo) (counts : Map Bytes ℕ) (ks : List Bytes) (d : Tables)
    → run_all (λ k. apply (insert_process_state_summary (summary_row si counts k))) ks d
      ≡ add_summary_rows (map (summary_row si counts) ks) d
unfolding run_all apply
run_all-state si counts [] d = simp append_laws
run_all-state si counts (k ∷ ks) d = simp (run_all-state si counts ks, append_laws)

-- The processes that the loop of `InsertContainerMetricsBulk` does not skip.
abbrev pub is_measured : ContProcess → Bool
is_measured p = is_stress_process p && not (is_empty p.cmdline_or_cont_id)

metric_effect : ContInfoSnapshot → Option (Map Bytes ℕ) → ContProcess → Tables → Tables
metric_effect snap pcts p d =
    if is_stress_process p
    then (if is_empty p.cmdline_or_cont_id
        then d
        else apply (insert_container_metrics (metric_row snap pcts p)) d)
    else d

run_all-metric :
    (snap : ContInfoSnapshot) (pcts : Option (Map Bytes ℕ)) (ps : List ContProcess) (d : Tables)
    → run_all (metric_effect snap pcts) ps d
      ≡ add_metric_rows (map (metric_row snap pcts) (select is_measured ps)) d
unfolding run_all apply metric_effect
run_all-metric snap pcts [] d = simp append_laws
run_all-metric snap pcts (p ∷ ps) d = ground (
  arith,
  run_all-metric snap pcts ps d,
  run_all-metric snap pcts ps (apply (insert_container_metrics (metric_row snap pcts p)) d),
  append_assoc d.container_metrics (metric_row snap pcts p ∷ [])
      (map (metric_row snap pcts) (select is_measured ps)),
)

-- The rows of the state summary, in the order in which the map of counts is visited.
abbrev pub summary_rows : (List Bytes → List Bytes) → SysInfo → List SummaryRow
summary_rows visit si =
    let counts = count_states si.procesos [] in
    if is_empty si.procesos then [] else map (summary_row si counts) (visit (keys counts))

module _ {Conn : Type 0} (db : Engine Conn) (laws : IsSqlite db) where
  open laws use {tables}

  -- A successful bulk insert of processes has appended a row for each process, in order, with the
  -- share of its pid if the map has one, and touched nothing else; a failed one changes nothing.
  -- The database is one that keeps the laws of SQLite.
  pub insert_process_bulk-Atomic :
      (si : SysInfo) (pcts : Option (Map ℕ ℕ)) (c : Conn)
      → Atomic db laws c
          (add_process_rows (map (process_row si pcts) si.procesos))
          (insert_process_bulk db si pcts c)
  unfolding insert_process_bulk insert_process
  insert_process_bulk-Atomic si pcts c =
      guarded_bulk-Atomic db laws si.procesos
        (add_process_rows (map (process_row si pcts) si.procesos))
        (λ p. apply (insert_process_metrics (process_row si pcts p))) (insert_process db si pcts)
        si.procesos c begin_failed prepare_failed commit_failed
        (λ e.
          ap (λ ps. add_process_rows (map (process_row si pcts) ps) (tables c)) e
          ∙ ap (λ rs. record (tables c) { process_metrics = rs })
              (append-nil (tables c).process_metrics))
        (λ e. run_all-process si pcts si.procesos (tables c))
        (λ p.
          exec_then_pure-Within db laws exec_failed
            (insert_process_metrics (process_row si pcts p)))

  -- A successful state summary has appended one row for each state that is visited in the map of
  -- counts, with its count and in the order of visiting, and touched nothing else; a failed one
  -- changes nothing. The database is one that keeps the laws of SQLite.
  pub insert_state_summary-Atomic :
      (visit : List Bytes → List Bytes) (si : SysInfo) (c : Conn)
      → Atomic db laws c
          (add_summary_rows (summary_rows visit si))
          (insert_state_summary db visit si c)
  unfolding insert_state_summary insert_state
  insert_state_summary-Atomic visit si c =
      let counts = count_states si.procesos [] in
      guarded_bulk-Atomic db laws si.procesos (add_summary_rows (summary_rows visit si))
        (λ k. apply (insert_process_state_summary (summary_row si counts k)))
        (insert_state db si counts) (visit (keys counts)) c begin_failed prepare_failed
        commit_failed
        (λ e.
          ap
            (λ b.
              add_summary_rows (if b then [] else map (summary_row si counts) (visit (keys counts)))
                (tables c))
            (ap is_empty e)
          ∙ ap (λ rs. record (tables c) { process_state_summary = rs })
              (append-nil (tables c).process_state_summary))
        (λ e.
          run_all-state si counts (visit (keys counts)) (tables c)
          ∙ ap
              (λ b.
                add_summary_rows
                  (if b then [] else map (summary_row si counts) (visit (keys counts))) (tables c))
              (sym e))
        (λ k.
          exec_then_pure-Within db laws exec_failed
            (insert_process_state_summary (summary_row si counts k)))

  metric-Within :
      (snap : ContInfoSnapshot) (pcts : Option (Map Bytes ℕ)) (p : ContProcess) (c : Conn)
      → Within db laws c (metric_effect snap pcts p) (insert_metric db snap pcts p c)
  unfolding insert_metric metric_effect
  metric-Within snap pcts p c =
      let s = insert_container_metrics (metric_row snap pcts p) in
      let exec = or_rollback db exec_failed (db.exec_tx s) >> pure tt in
      let inner = if is_empty p.cmdline_or_cont_id then pure tt else exec in
      if-Within db laws (is_stress_process p) c
        (λ d. if is_empty p.cmdline_or_cont_id then d else apply s d) (λ d. d) inner (pure tt)
        (if-Within db laws (is_empty p.cmdline_or_cont_id) c (λ d. d) (apply s) (pure tt) exec
          (refl, refl) (exec_then_pure-Within db laws exec_failed s c))
        (refl, refl)

  -- A successful bulk insert of container metrics has appended a row for each process that passes
  -- `isStressProcess` and has a command line, in order, and touched nothing else; a failed one
  -- changes nothing. The database is one that keeps the laws of SQLite.
  pub insert_metrics_bulk-Atomic :
      (snap : ContInfoSnapshot) (pcts : Option (Map Bytes ℕ)) (c : Conn)
      → Atomic db laws c
          (add_metric_rows (map (metric_row snap pcts) (select is_measured snap.procesos)))
          (insert_metrics_bulk db snap pcts c)
  unfolding insert_metrics_bulk
  insert_metrics_bulk-Atomic snap pcts c =
      guarded_bulk-Atomic db laws snap.procesos
        (add_metric_rows (map (metric_row snap pcts) (select is_measured snap.procesos)))
        (metric_effect snap pcts) (insert_metric db snap pcts) snap.procesos c begin_failed
        prepare_failed commit_failed
        (λ e.
          ap (λ ps. add_metric_rows (map (metric_row snap pcts) (select is_measured ps)) (tables c))
            e
          ∙ ap (λ rs. record (tables c) { container_metrics = rs })
              (append-nil (tables c).container_metrics))
        (λ e. run_all-metric snap pcts snap.procesos (tables c)) (metric-Within snap pcts)
