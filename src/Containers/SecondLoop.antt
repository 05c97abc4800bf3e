-- ===== src/Containers/SecondLoop.antt =====
-- The second half of `UpsertContainersFromSnapshot`: the query of the open rows, the loop that marks
-- them, `rows.Err()` and `Commit`.
use proyecto_1_sopes.Prelude.{
  ℕ, ◌≡◌, refl, sym, ◌∙◌, ap, Bool, true, false, Option, none, some, List, [], ◌∷◌, if◌then◌else◌,
  Bytes, bytes_key, contains, arith, map, ok,
}
use proyecto_1_sopes.Database.{Tables, mark_removed, apply, Rows, Engine, open_ids}
use proyecto_1_sopes.Database.Tx.{
  Sql, exec_failed, query_failed, scan_failed, rows_failed, commit_failed, pure, ◌>>◌, or_fail,
  or_rollback, field_or_rollback, for_each, bind_ok,
}
use proyecto_1_sopes.Database.Laws.{IsSqlite, Within, Ends, run_all, all_scanned, scanned}
use proyecto_1_sopes.Database.Compose.{
  bind-Ends, exec_tx-Within, query-Within, field-Within, commit-Ends, or_rollback_ok, field_ok,
  Ends-ok, if-Within, then_pure-Within,
}
use proyecto_1_sopes.Database.Whole.{for_each-Within}
use proyecto_1_sopes.Containers.{IdSet, has, mark_if_gone, mark_one, mark_gone}
use proyecto_1_sopes.Containers.Rows.{on_rows}
use proyecto_1_sopes.Containers.Marks.{mark_rows, row_marked, mark_rows_lem}

module _ {Conn : Type 0} (db : Engine Conn) (laws : IsSqlite db) where
  open laws use {tables, query_rows, query_keeps}

  -- What one row of the query does.
  mark_effect : ℕ → IdSet → Option Bytes → Tables → Tables
  mark_effect ts current none d = d
  mark_effect ts current (some cid) d = if has cid current then d else apply (mark_removed ts cid) d

  mark_if_gone-Within :
      (ts : ℕ) (current : IdSet) (cid : Bytes) (c : Conn)
      → Within db laws c (mark_effect ts current (some cid)) (mark_if_gone db ts current cid c)
  unfolding mark_if_gone mark_effect
  mark_if_gone-Within ts current cid c =
      let exec = or_rollback db exec_failed (db.exec_tx (mark_removed ts cid)) in
      if-Within db laws (has cid current) c (λ d. d) (apply (mark_removed ts cid)) (pure tt)
        (exec >> pure tt) (refl, refl)
        (then_pure-Within db laws c (apply (mark_removed ts cid)) exec
          (exec_tx-Within db laws exec_failed (mark_removed ts cid) c))

  mark_one-Within :
      (ts : ℕ) (current : IdSet) (item : Option Bytes) (c : Conn)
      → Within db laws c (mark_effect ts current item) (mark_one db ts current item c)
  unfolding mark_one
  mark_one-Within ts current none c = field-Within db laws {A = Bytes} scan_failed none c
  mark_one-Within ts current (some cid) c = mark_if_gone-Within ts current cid c

  run_all-mark_effect :
      (ts : ℕ) (current : IdSet) (items : List (Option Bytes)) (d : Tables)
      → run_all (mark_effect ts current) items d ≡ on_rows (mark_rows ts current (scanned items)) d
  unfolding run_all mark_effect apply
  run_all-mark_effect ts current [] d = refl
  run_all-mark_effect ts current (none ∷ items) d = run_all-mark_effect ts current items d
  run_all-mark_effect ts current (some k ∷ items) d = ground (
    arith,
    run_all-mark_effect ts current items (if has k current then d else apply (mark_removed ts k) d),
  )

  for_each-all_scanned :
      (ts : ℕ) (current : IdSet) (items : List (Option Bytes)) (c c' : Conn) (u : Unit {0})
      → for_each (mark_one db ts current) items c ≡ (ok u, c')
      → all_scanned items ≡ true
  unfolding for_each mark_one
  for_each-all_scanned ts current [] c c' u h = refl
  for_each-all_scanned ts current (none ∷ items) c c' u h = absurd (ground arith)
  for_each-all_scanned ts current (some k ∷ items) c c' u h =
      let (u1, c1, e, e1) =
        bind_ok (mark_one db ts current (some k)) (λ _. for_each (mark_one db ts current) items) c
          c' u h in
      for_each-all_scanned ts current items c1 c' u e1

  -- The end of the transaction, from what the query gave.
  abbrev finish : ℕ → IdSet → Rows → Sql Conn (Unit {0})
  finish ts current rows =
      for_each (mark_one db ts current) rows.items
      >> (field_or_rollback db rows_failed (if rows.failed then none else some tt)
          >> or_fail commit_failed db.commit)

  not_failed : (b : Bool) (u : Unit {0}) → (if b then none else some tt) ≡ some u → b ≡ false
  not_failed true u h = cc
  not_failed false u h = refl

  -- Success of the end says that the query was read whole.
  finish_ok :
      (ts : ℕ) (current : IdSet) (rows : Rows) (c c' : Conn) (u : Unit {0})
      → finish ts current rows c ≡ (ok u, c')
      → (all_scanned rows.items ≡ true) × (rows.failed ≡ false)
  finish_ok ts current rows c c' u h =
      let check = field_or_rollback db rows_failed (if rows.failed then none else some tt) in
      let (u1, c1, e, e1) =
        bind_ok (for_each (mark_one db ts current) rows.items)
          (λ _. check >> or_fail commit_failed db.commit) c c' u h in
      let (u2, c2, e2, e3) = bind_ok check (λ _. or_fail commit_failed db.commit) c1 c' u e1 in
      (
        for_each-all_scanned ts current rows.items c c1 u1 e,
        not_failed rows.failed u2
            (field_ok db laws rows_failed (if rows.failed then none else some tt) c1 c2 u2 e2).0,
      )

  finish-Ends :
      (ts : ℕ) (current : IdSet) (rows : Rows) (c : Conn)
      → Ends db laws c (run_all (mark_effect ts current) rows.items) (finish ts current rows c)
  finish-Ends ts current rows c =
      let check = field_or_rollback db rows_failed (if rows.failed then none else some tt) in
      bind-Ends db laws c (run_all (mark_effect ts current) rows.items) (λ d. d)
        (for_each (mark_one db ts current) rows.items)
        (λ _. check >> or_fail commit_failed db.commit)
        (for_each-Within db laws (mark_effect ts current) (mark_one db ts current) rows.items c
          (mark_one-Within ts current))
        (λ u c1 e.
          bind-Ends db laws c1 (λ d. d) (λ d. d) check (λ _. or_fail commit_failed db.commit)
            (field-Within db laws rows_failed (if rows.failed then none else some tt) c1)
            (λ u2 c2 e2. commit-Ends db laws commit_failed c2))

  -- The second half marks each open row whose container is not in the snapshot.
  pub mark_gone-Ends :
      (ts : ℕ) (current : IdSet) (c : Conn)
      → Ends db laws c (on_rows (map (row_marked ts current))) (mark_gone db ts current c)
  unfolding mark_gone
  mark_gone-Ends ts current c =
      bind-Ends db laws c (λ d. d) (on_rows (map (row_marked ts current)))
        (or_rollback db query_failed db.query_open) (finish ts current)
        (query-Within db laws query_failed c)
        (λ rows c1 e.
          let (q, same) = or_rollback_ok db laws query_failed db.query_open c c1 rows e in
          Ends-ok db laws c1 (run_all (mark_effect ts current) rows.items)
            (on_rows (map (row_marked ts current))) (finish ts current rows c1)
            (λ u c2 done.
              let (all, fine) = finish_ok ts current rows c1 c2 u done in
              run_all-mark_effect ts current rows.items (tables c1)
              ∙ ap (λ rs. record (tables c1) { containers = rs })
                  (mark_rows_lem ts current (scanned rows.items) (tables c1).containers (λ k.
                    query_rows c q fine all k
                    ∙ ap (λ d. contains k (open_ids d.containers))
                        (sym (query_keeps c) ∙ ap tables same))))
            (finish-Ends ts current rows c1))
