-- ===== src/Containers/Upsert.antt =====
-- `UpsertContainersFromSnapshot` of Daemon/insert_cont.go as a transaction.
use proyecto_1_sopes.Prelude.{
  ℕ, ◌≡◌, refl, sym, subst, ap, Bool, List, [], ◌∷◌, if◌then◌else◌, Bool-cases, inl, inr, Bytes,
  bytes_key, map, eqb, keys, Result, ok, err, length,
}
use proyecto_1_sopes.Database.{Tables, ContainerRow, Engine}
use proyecto_1_sopes.Database.Tx.{Error, begin_failed, pure, ◌>>◌, for_each}
use proyecto_1_sopes.Database.Laws.{IsSqlite, Atomic, run_all}
use proyecto_1_sopes.Database.Compose.{bind-Ends, Ends-eq}
use proyecto_1_sopes.Database.Whole.{for_each-Within, tx-Atomic}
use proyecto_1_sopes.Snapshot.{ContInfoSnapshot}
use proyecto_1_sopes.Containers.{
  IdSet, upsert_one, mark_gone, upsert_tx, current_ids, upsert_containers_from_snapshot,
}
use proyecto_1_sopes.Containers.Rows.{on_rows, seen_rows, seen_all}
use proyecto_1_sopes.Containers.Marks.{row_marked, upsert_rows}
use proyecto_1_sopes.Containers.FirstLoop.{upsert_one-Within}
use proyecto_1_sopes.Containers.SecondLoop.{mark_gone-Ends}

module _ {Conn : Type 0} (db : Engine Conn) (laws : IsSqlite db) where
  open laws use {tables}

  run_all-seen_rows :
      (ts : ℕ) (ks : List Bytes) (d : Tables)
      → run_all (λ k. on_rows (seen_rows ts k)) ks d ≡ on_rows (seen_all ts ks) d
  unfolding run_all
  run_all-seen_rows ts [] d = refl
  run_all-seen_rows ts (k ∷ ks) d = run_all-seen_rows ts ks (on_rows (seen_rows ts k) d)

  pub upsert_tx-Atomic :
      (visit : List Bytes → List Bytes) (ts : ℕ) (current : IdSet) (c : Conn)
      → Atomic db laws c
          (on_rows (upsert_rows (visit (keys current)) ts current))
          (upsert_tx db visit ts current c)
  unfolding upsert_tx
  upsert_tx-Atomic visit ts current c =
      let ks = visit (keys current) in
      tx-Atomic db laws c begin_failed (on_rows (upsert_rows ks ts current))
        (for_each (upsert_one db ts) ks >> mark_gone db ts current)
        (λ c'.
          Ends-eq db laws c'
            (λ d.
              on_rows (map (row_marked ts current)) (run_all (λ k. on_rows (seen_rows ts k)) ks d))
            (on_rows (upsert_rows ks ts current))
            ((for_each (upsert_one db ts) ks >> mark_gone db ts current) c')
            (ap (on_rows (map (row_marked ts current))) (run_all-seen_rows ts ks (tables c')))
            (bind-Ends db laws c' (run_all (λ k. on_rows (seen_rows ts k)) ks)
              (on_rows (map (row_marked ts current))) (for_each (upsert_one db ts) ks)
              (λ _. mark_gone db ts current)
              (for_each-Within db laws (λ k. on_rows (seen_rows ts k)) (upsert_one db ts) ks c'
                (upsert_one-Within db laws ts))
              (λ u c1 e. mark_gone-Ends db laws ts current c1)))

  keeps_of_Atomic :
      (P : List ContainerRow → Type 0) (f : List ContainerRow → List ContainerRow) (c : Conn)
      (out : Result Error (Unit {0}) × Conn)
      → ((rs : List ContainerRow) → P rs → P (f rs))
      → Atomic db laws c (on_rows f) out
      → P (tables c).containers
      → P (tables out.1).containers
  keeps_of_Atomic P f c (ok u, c') keep a h =
      subst (λ d. P d.containers) (sym a) (keep (tables c).containers h)
  keeps_of_Atomic P f c (err e, c') keep a h = subst (λ d. P d.containers) (sym a) h

  -- What the transaction's effect keeps of the rows, the whole function keeps on every path.
  pub upsert-keeps :
      (P : List ContainerRow → Type 0)
      → ((ks : List Bytes) (ts : ℕ) (current : IdSet) (rs : List ContainerRow)
          → P rs
          → P (upsert_rows ks ts current rs))
      → (visit : List Bytes → List Bytes) (snap : ContInfoSnapshot) (c : Conn)
      → P (tables c).containers
      → P (tables (upsert_containers_from_snapshot db visit snap c).1).containers
  unfolding upsert_containers_from_snapshot
  upsert-keeps P keep visit snap c h =
      let current = current_ids snap in
      let ks = visit (keys current) in
      let run = λ (b : Bool). (if b then pure tt else upsert_tx db visit snap.ts_ms current) c in
      let done =
        keeps_of_Atomic P (upsert_rows ks snap.ts_ms current) c
          (upsert_tx db visit snap.ts_ms current c) (keep ks snap.ts_ms current)
          (upsert_tx-Atomic visit snap.ts_ms current c) h in
      elim (Bool-cases (eqb (length current) 0)) [
        | inl e ↦ subst (λ b. P (tables (run b).1).containers) (sym e) h
        | inr e ↦ subst (λ b. P (tables (run b).1).containers) (sym e) done
      ]
