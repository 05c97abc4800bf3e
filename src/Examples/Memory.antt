-- ===== src/Examples/Memory.antt =====
-- A database in memory: every call succeeds, and a rollback goes back to what `Begin` saved.
use proyecto_1_sopes.Prelude.{
  ℕ, ◌≡◌, refl, sym, ◌∙◌, ap, Bool, false, Option, none, some, List, [], ◌∷◌, map, Bytes, bytes_key,
  contains, arith,
}
use proyecto_1_sopes.Database.{
  Tables, Stmt, update_last_seen, apply, affected, open_ids, removed_count, ExecResult, Rows,
  Engine,
}
use proyecto_1_sopes.Database.Laws.{IsSqlite, scanned}

pub record Memory : Type 0 where
  pub now : Tables
  pub before : Tables

-- The tables with which the program starts on a new file.
abbrev pub empty_tables : Tables
empty_tables = record {
  created = [];
  indexes = [];
  system_metrics = [];
  process_metrics = [];
  process_state_summary = [];
  container_host_metrics = [];
  containers = [];
  container_metrics = [];
}

abbrev result_of : Stmt → Tables → ExecResult
result_of s d = record {
  rows_affected = some (elim s [ update_last_seen ts cid ↦ affected cid d.containers | _ ↦ 1 ]);
  last_insert_id = some 1;
}

abbrev exec : Stmt → Memory → Option ExecResult × Memory
exec s m = (some (result_of s m.now), record m { now = apply s m.now })

abbrev pub memory_db : Engine Memory
memory_db = record {
  exec_db = exec;
  begin_tx = λ m. (some tt, record m { before = m.now });
  exec_tx = exec;
  prepare = λ m. (some tt, m);
  query_open =
      λ m. (some (record { items = map some (open_ids m.now.containers); failed = false }), m);
  count_removed = λ m. (some (removed_count m.now.containers), m);
  rollback = λ m. record m { now = m.before };
  commit = λ m. (some tt, m);
}

pub contains-scanned :
    (k : Bytes) (ks : List Bytes) → contains k (scanned (map some ks)) ≡ contains k ks
contains-scanned k [] = refl
contains-scanned k (x ∷ ks) = ground (arith, contains-scanned k ks)

abbrev items_have : Bytes → Option Rows → Bool
items_have k none = false
items_have k (some rows) = contains k (scanned rows.items)

abbrev affected_of : Option ExecResult → Option ℕ
affected_of none = none
affected_of (some r) = r.rows_affected

abbrev or_zero : Option ℕ → ℕ
or_zero none = 0
or_zero (some n) = n

pub some_not_none {ℓ} : {A : Type 0} {B : Type ℓ} {a : A} → some a ≡ none → B
some_not_none h = absurd (ground arith)

abbrev pub memory-IsSqlite : IsSqlite memory_db
memory-IsSqlite = record {
  tables = λ m. m.now;
  saved = λ m. m.before;
  exec_db_ok = λ s m h. refl;
  exec_db_err = λ s m h. some_not_none h;
  begin_keeps = λ m. refl;
  begin_saves = λ m h. refl;
  exec_tx_ok = λ s m h. refl;
  exec_tx_saved = λ s m. refl;
  update_affects = λ ts cid m h k. ap or_zero (sym (ap affected_of h ∙ k));
  prepare_keeps = λ m. refl;
  prepare_saved = λ m. refl;
  query_keeps = λ m. refl;
  query_saved = λ m. refl;
  query_rows =
      λ m h f a k. ap (items_have k) (sym h) ∙ contains-scanned k (open_ids m.now.containers);
  count_keeps = λ m. refl;
  count_counts = λ m h. ap or_zero (sym h);
  rollback_restores = λ m. refl;
  commit_ok = λ m h. refl;
  commit_err = λ m h. some_not_none h;
}

abbrev pub new_memory : Memory
new_memory = record { now = empty_tables; before = empty_tables }
