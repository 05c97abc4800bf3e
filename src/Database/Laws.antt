-- ===== src/Database/Laws.antt =====
-- What the daemon relies on of the database, and what is said of an action on it.
use proyecto_1_sopes.Prelude.{
  ℕ, ◌≡◌, Bool, true, false, Option, none, some, List, [], ◌∷◌, Result, ok, err, Bytes, bytes_key,
  contains,
}
use proyecto_1_sopes.Database.{
  Tables, Stmt, update_last_seen, apply, affected, open_ids, removed_count, ExecResult, Rows,
  Engine,
}
use proyecto_1_sopes.Database.Tx.{Error}

-- Every row was read.
abbrev pub all_scanned : List (Option Bytes) → Bool
all_scanned [] = true
all_scanned (none ∷ _) = false
all_scanned (some _ ∷ os) = all_scanned os

abbrev pub scanned : List (Option Bytes) → List Bytes
scanned [] = []
scanned (none ∷ os) = scanned os
scanned (some k ∷ os) = k ∷ scanned os

-- SQLite as it is documented: what a query sees, and what a rollback goes back to. A statement that
-- succeeds has its effect; one that fails outside a transaction has none, and inside one it may
-- have undone the transaction. `Commit` that fails has rolled back. Nobody else writes the file.
pub record IsSqlite {Conn : Type 0} (db : Engine Conn) : Type 0 where
  pub tables : Conn → Tables
  pub saved : Conn → Tables
  pub exec_db_ok :
      (s : Stmt) (c : Conn) {r : ExecResult}
      → (db.exec_db s c).0 ≡ some r
      → tables (db.exec_db s c).1 ≡ apply s (tables c)
  pub exec_db_err :
      (s : Stmt) (c : Conn) → (db.exec_db s c).0 ≡ none → tables (db.exec_db s c).1 ≡ tables c
  pub begin_keeps : (c : Conn) → tables (db.begin_tx c).1 ≡ tables c
  pub begin_saves : (c : Conn) → (db.begin_tx c).0 ≡ some tt → saved (db.begin_tx c).1 ≡ tables c
  pub exec_tx_ok :
      (s : Stmt) (c : Conn) {r : ExecResult}
      → (db.exec_tx s c).0 ≡ some r
      → tables (db.exec_tx s c).1 ≡ apply s (tables c)
  pub exec_tx_saved : (s : Stmt) (c : Conn) → saved (db.exec_tx s c).1 ≡ saved c
  pub update_affects :
      (ts : ℕ) (cid : Bytes) (c : Conn) {r : ExecResult} {n : ℕ}
      → (db.exec_tx (update_last_seen ts cid) c).0 ≡ some r
      → r.rows_affected ≡ some n
      → n ≡ affected cid (tables c).containers
  pub prepare_keeps : (c : Conn) → tables (db.prepare c).1 ≡ tables c
  pub prepare_saved : (c : Conn) → saved (db.prepare c).1 ≡ saved c
  pub query_keeps : (c : Conn) → tables (db.query_open c).1 ≡ tables c
  pub query_saved : (c : Conn) → saved (db.query_open c).1 ≡ saved c
  pub query_rows :
      (c : Conn) {rows : Rows}
      → (db.query_open c).0 ≡ some rows
      → rows.failed ≡ false
      → all_scanned rows.items ≡ true
      → (k : Bytes) → contains k (scanned rows.items) ≡ contains k (open_ids (tables c).containers)
  pub count_keeps : (c : Conn) → tables (db.count_removed c).1 ≡ tables c
  pub count_counts :
      (c : Conn) {n : ℕ} → (db.count_removed c).0 ≡ some n → n ≡ removed_count (tables c).containers
  pub rollback_restores : (c : Conn) → tables (db.rollback c) ≡ saved c
  pub commit_ok : (c : Conn) → (db.commit c).0 ≡ some tt → tables (db.commit c).1 ≡ tables c
  pub commit_err : (c : Conn) → (db.commit c).0 ≡ none → tables (db.commit c).1 ≡ saved c

-- The effect of a loop is that of its rounds in turn.
unfoldable pub run_all {ℓ} : {A : Type ℓ} → (A → Tables → Tables) → List A → Tables → Tables
run_all g [] d = d
run_all g (x ∷ xs) d = run_all g xs (g x d)

module _ {Conn : Type 0} (db : Engine Conn) (laws : IsSqlite db) where
  open laws use {
    tables, saved, begin_keeps, begin_saves, exec_tx_ok, exec_tx_saved, prepare_keeps,
    prepare_saved, query_keeps, query_saved, rollback_restores, commit_ok, commit_err,
  }

  -- Inside a transaction: an action that succeeds has applied `f`, and one that fails has rolled
  -- back.
  abbrev pub Within : {A : Type 0} → Conn → (Tables → Tables) → Result Error A × Conn → Type 0
  Within c f (ok _, c') = (tables c' ≡ f (tables c)) × (saved c' ≡ saved c)
  Within c f (err _, c') = tables c' ≡ saved c

  -- A whole operation: it has applied `f`, or it has failed and changed nothing.
  abbrev pub Atomic : {A : Type 0} → Conn → (Tables → Tables) → Result Error A × Conn → Type 0
  Atomic c f (ok _, c') = tables c' ≡ f (tables c)
  Atomic c f (err _, c') = tables c' ≡ tables c

  -- A transaction from some point to its end.
  abbrev pub Ends : {A : Type 0} → Conn → (Tables → Tables) → Result Error A × Conn → Type 0
  Ends c f (ok _, c') = tables c' ≡ f (tables c)
  Ends c f (err _, c') = tables c' ≡ saved c
