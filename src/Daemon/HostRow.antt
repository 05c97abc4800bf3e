-- ===== src/Daemon/HostRow.antt =====
-- The host row of a cycle: its place after the upsert in Daemon/main.go, and what it counts.
use proyecto_1_sopes.Prelude.{
  ℕ, ◌≡◌, refl, sym, ◌∙◌, ap, subst, Option, none, some, List, [], ◌∷◌, ◌++◌, Map, Bytes, bytes_key,
  Result, ok, err, arith,
}
use proyecto_1_sopes.Snapshot.{ContInfoSnapshot}
use proyecto_1_sopes.Database.{Engine, HostRow, apply, removed_count, insert_container_host_metrics}
use proyecto_1_sopes.Database.Tx.{Error, query_failed, or_fail}
use proyecto_1_sopes.Database.Laws.{IsSqlite}
use proyecto_1_sopes.Cpu.{Float64}
use proyecto_1_sopes.Containers.{upsert_containers_from_snapshot, get_total_deleted_containers}
use proyecto_1_sopes.Metrics.{host_row, insert_host, insert_metrics_bulk}
use proyecto_1_sopes.Metrics.Single.{Stores, insert_host-Stores}
use proyecto_1_sopes.Rules.{Shell}
use proyecto_1_sopes.Daemon.Parts.{metrics_bulk-part, upsert-part}
use proyecto_1_sopes.Daemon.{State, Tick, count_or_zero, on_cont_info}

module _ {Conn : Type 0} (db : Engine Conn) (laws : IsSqlite db) where
  open laws use {tables, count_keeps, count_counts}

  abbrev host_rows : Conn → List HostRow
  host_rows c = (tables c).container_host_metrics

  abbrev deleted_in : Conn → ℕ
  deleted_in c = removed_count (tables c).containers

  count_at_ok :
      (r : Option ℕ × Conn) (c : Conn) (n : ℕ)
      → (or_fail query_failed (λ _. r) c).0 ≡ ok n
      → (r.0 ≡ some n) × ((or_fail query_failed (λ _. r) c).1 ≡ r.1)
  count_at_ok (some m, c') c n h = (ground arith, refl)
  count_at_ok (none, c') c n h = absurd (ground arith)

  count_ok :
      (c : Conn) (n : ℕ)
      → (get_total_deleted_containers db c).0 ≡ ok n
      → (n ≡ deleted_in c) × (tables (get_total_deleted_containers db c).1 ≡ tables c)
  unfolding get_total_deleted_containers
  count_ok c n h =
      let (e, k) = count_at_ok (db.count_removed c) c n h in
      (count_counts c e, ap tables k ∙ count_keeps c)

  Stores-ok :
      (row : HostRow) (c : Conn) (out : Result Error ℕ × Conn) (id : ℕ)
      → out.0 ≡ ok id
      → Stores db laws (insert_container_host_metrics row) c out
      → tables out.1 ≡ record (tables c) { container_host_metrics = host_rows c ++ row ∷ [] }
  unfolding apply
  Stores-ok row c (ok i, c') id h k = k
  Stores-ok row c (err e, c') id h k = absurd (ground arith)

  host_at :
      (c0 c1 c2 : Conn) (m n id : ℕ) (snap : ContInfoSnapshot) (pcts : Option (Map Bytes ℕ))
      → host_rows c1 ≡ host_rows c0
      → m ≡ n
      → n ≡ deleted_in c1
      → tables c2 ≡ tables c1
      → (insert_host db snap n c2).0 ≡ ok id
      → let after = (insert_metrics_bulk db snap pcts (insert_host db snap m c2).1).1 in
        host_rows after ≡ host_rows c0 ++ host_row snap (deleted_in after) ∷ []
  host_at c0 c1 c2 m n id snap pcts kept e counts same stored =
      let c3 = (insert_host db snap n c2).1 in
      let c4 = (insert_metrics_bulk db snap pcts c3).1 in
      let done : tables c3
          ≡ record (tables c2) { container_host_metrics = host_rows c2 ++ host_row snap n ∷ [] } =
        Stores-ok (host_row snap n) c2 (insert_host db snap n c2) id stored
          (insert_host-Stores db laws snap n c2) in
      let rows : host_rows c4 ≡ host_rows c0 ++ host_row snap n ∷ [] =
        metrics_bulk-part db laws (λ d. d.container_host_metrics) snap pcts c3 (λ rs d. refl)
        ∙ (ap (λ d. d.container_host_metrics) done
            ∙ ap (λ hs. hs ++ host_row snap n ∷ [])
                (ap (λ d. d.container_host_metrics) same ∙ kept)) in
      let deleted : deleted_in c4 ≡ n =
        metrics_bulk-part db laws (λ d. removed_count d.containers) snap pcts c3 (λ rs d. refl)
        ∙ (ap (λ d. removed_count d.containers) done
            ∙ (ap (λ d. removed_count d.containers) same ∙ sym counts)) in
      subst
        (λ k.
          let after = (insert_metrics_bulk db snap pcts (insert_host db snap k c2).1).1 in
          host_rows after ≡ host_rows c0 ++ host_row snap (deleted_in after) ∷ [])
        (sym e) (rows ∙ ap (λ k. host_rows c0 ++ host_row snap k ∷ []) (sym deleted))

  module _ {World : Type 0} (fl : Float64) (shell : Shell World) (num_cpus : ℕ) where
    -- Where the count and the insert of the host row succeed, the step after a snapshot adds one
    -- host row, that of the snapshot, and the number of deleted containers in it is the number of
    -- rows with a removal time that the table of containers has when the step is over; whether or
    -- not the other statements fail. The database is one that keeps the laws of SQLite.
    pub on_cont_info_host :
        (t : Tick) (snap : ContInfoSnapshot) (s : State Conn World) (n id : ℕ)
        → let deleted =
            get_total_deleted_containers db
              (upsert_containers_from_snapshot db t.visit_current snap s.conn).1 in
          deleted.0 ≡ ok n
          → (insert_host db snap n deleted.1).0 ≡ ok id
          → let after = (on_cont_info db fl shell num_cpus t (ok snap) s).conn in
            host_rows after ≡ host_rows s.conn ++ host_row snap (deleted_in after) ∷ []
    unfolding on_cont_info
    on_cont_info_host t snap s n id counted stored =
        let c1 = (upsert_containers_from_snapshot db t.visit_current snap s.conn).1 in
        let (counts, same) = count_ok c1 n counted in
        host_at s.conn c1 (get_total_deleted_containers db c1).1
          (count_or_zero (get_total_deleted_containers db c1).0) n id snap _
          (upsert-part db laws (λ d. d.container_host_metrics) (λ f d. refl) t.visit_current snap
            s.conn)
          (ap count_or_zero counted) counts same stored
