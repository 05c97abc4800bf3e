-- ===== src/Containers/FirstLoop.antt =====
-- The first loop of `UpsertContainersFromSnapshot`: UPDATE, and INSERT where no row was there.
use proyecto_1_sopes.Prelude.{ℕ, ◌≡◌, refl, subst, if◌then◌else◌, Bytes, bytes_key, arith, eqb}
use proyecto_1_sopes.Database.{
  Tables, update_last_seen, insert_container, apply, affected, ExecResult, Engine,
}
use proyecto_1_sopes.Database.Tx.{
  exec_failed, rows_affected_failed, pure, ◌>>=◌, ◌>>◌, or_rollback, field_or_rollback,
}
use proyecto_1_sopes.Database.Laws.{IsSqlite, Within}
use proyecto_1_sopes.Database.Compose.{
  bind-Within, exec_tx-Within, field-Within, or_rollback_ok, field_ok, Within-eq, if-Within,
  then_pure-Within,
}
use proyecto_1_sopes.Containers.{classify_container_type, insert_if_new, upsert_one}
use proyecto_1_sopes.Containers.Rows.{on_rows, seen_rows, seen_rows_lem}

module _ {Conn : Type 0} (db : Engine Conn) (laws : IsSqlite db) where
  open laws use {tables, update_affects}

  insert_if_new-Within :
      (ts : ℕ) (cid : Bytes) (n : ℕ) (c : Conn)
      → Within db laws c
          (λ d.
            if eqb n 0
            then apply (insert_container cid ts ts (classify_container_type cid)) d
            else d)
          (insert_if_new db ts cid n c)
  unfolding insert_if_new
  insert_if_new-Within ts cid n c =
      let s = insert_container cid ts ts (classify_container_type cid) in
      let exec = or_rollback db exec_failed (db.exec_tx s) in
      if-Within db laws (eqb n 0) c (apply s) (λ d. d) (exec >> pure tt) (pure tt)
        (then_pure-Within db laws c (apply s) exec (exec_tx-Within db laws exec_failed s c))
        (refl, refl)

  seen_rows-apply :
      (ts : ℕ) (cid : Bytes) (d : Tables)
      → (let d' = apply (update_last_seen ts cid) d in
          if eqb (affected cid d.containers) 0
          then apply (insert_container cid ts ts (classify_container_type cid)) d'
          else d')
        ≡ on_rows (seen_rows ts cid) d
  unfolding apply
  seen_rows-apply ts cid d = ground (arith, seen_rows_lem ts cid d.containers)

  -- One round of the first loop.
  pub upsert_one-Within :
      (ts : ℕ) (cid : Bytes) (c : Conn)
      → Within db laws c (on_rows (seen_rows ts cid)) (upsert_one db ts cid c)
  unfolding upsert_one
  upsert_one-Within ts cid c =
      let s = insert_container cid ts ts (classify_container_type cid) in
      let g = λ (d : Tables). if eqb (affected cid (tables c).containers) 0 then apply s d else d in
      let read =
        λ (res : ExecResult). field_or_rollback db rows_affected_failed res.rows_affected in
      Within-eq db laws c (λ d. g (apply (update_last_seen ts cid) d)) (on_rows (seen_rows ts cid))
        (upsert_one db ts cid c) (seen_rows-apply ts cid (tables c))
        (bind-Within db laws c (apply (update_last_seen ts cid)) g
          (or_rollback db exec_failed (db.exec_tx (update_last_seen ts cid)))
          (λ res. read res >>= insert_if_new db ts cid)
          (exec_tx-Within db laws exec_failed (update_last_seen ts cid) c)
          (λ res c1 e.
            bind-Within db laws c1 (λ d. d) g (read res) (insert_if_new db ts cid)
              (field-Within db laws rows_affected_failed res.rows_affected c1)
              (λ n c2 e2.
                subst
                  (λ t.
                    Within db laws c2 (λ d. if eqb t 0 then apply s d else d)
                      (insert_if_new db ts cid n c2))
                  (update_affects ts cid c
                    (or_rollback_ok db laws exec_failed (db.exec_tx (update_last_seen ts cid)) c c1
                      res e).0
                    (field_ok db laws rows_affected_failed res.rows_affected c1 c2 n e2).0)
                  (insert_if_new-Within ts cid n c2))))
