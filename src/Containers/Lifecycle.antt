-- ===== src/Containers/Lifecycle.antt =====
-- The life of a container as `UpsertContainersFromSnapshot` records it, row by row.
use proyecto_1_sopes.Prelude.{
  ℕ, ◌≡◌, refl, sym, subst, ◌∙◌, ap, Bool, true, false, ◌&&◌, ◌||◌, not, Option, none, some, List,
  [], ◌∷◌, if◌then◌else◌, Bytes, bytes_key, bytes_eq, bytes_eq_iff, is_empty, contains, arith, eqb,
  keys, insert, Result, ok, err, length, contains-keys-insert, Option-cases, inl, inr,
}
use proyecto_1_sopes.Snapshot.{ContProcess, ContInfoSnapshot, is_container_related}
use proyecto_1_sopes.Database.{Tables, ContainerRow, Engine, is_open, new_container}
use proyecto_1_sopes.Database.Tx.{Error, pure}
use proyecto_1_sopes.Database.Laws.{IsSqlite, Atomic}
use proyecto_1_sopes.Containers.{
  IdSet, add_ids, current_ids, has, classify_container_type, upsert_tx,
  upsert_containers_from_snapshot,
}
use proyecto_1_sopes.Containers.Rows.{find-container_id, on_rows, find, seen_all, find-seen_all}
use proyecto_1_sopes.Containers.Marks.{find-row_marked, upsert_rows}
use proyecto_1_sopes.Containers.Upsert.{upsert_tx-Atomic}

-- A process of the snapshot belongs to the container.
abbrev pub is_alive : Bytes → List ContProcess → Bool
is_alive cid [] = false
is_alive cid (p ∷ ps) =
    is_container_related p
      && (not (is_empty p.cmdline_or_cont_id) && bytes_eq p.cmdline_or_cont_id cid)
    || is_alive cid ps

pub contains-add_ids :
    (cid : Bytes) (ps : List ContProcess) (current : IdSet)
    → contains cid (keys (add_ids ps current)) ≡ (is_alive cid ps || contains cid (keys current))
unfolding add_ids
contains-add_ids cid [] current = refl
contains-add_ids cid (p ∷ ps) current = ground (
  arith,
  contains-keys-insert p.cmdline_or_cont_id cid tt current,
  contains-add_ids cid ps current,
  contains-add_ids cid ps (insert p.cmdline_or_cont_id tt current),
)

pub has-contains : (cid : Bytes) (m : IdSet) → has cid m ≡ contains cid (keys m)
has-contains cid [] = refl
has-contains cid ((k, u) ∷ m) = ground (arith, has-contains cid m)

pub contains-current_ids :
    (cid : Bytes) (snap : ContInfoSnapshot)
    → contains cid (keys (current_ids snap)) ≡ is_alive cid snap.procesos
contains-current_ids cid snap = ground (arith, contains-add_ids cid snap.procesos [])

-- What a snapshot at `ts` makes of a container's row. A live container gets a row, or a later
-- sighting; one that is gone is marked with the time at which it was first missed.
abbrev pub row_after : Bool → ℕ → Bytes → Option ContainerRow → Option ContainerRow
row_after true ts cid none = some (new_container cid ts ts (classify_container_type cid))
row_after true ts cid (some r) = some (record r { last_seen_ts_ms = ts })
row_after false ts cid none = none
row_after false ts cid (some r) =
    some (if is_open r then record r { removed_at_ts_ms = some ts } else r)

find-upsert_rows :
    (ks : List Bytes) (ts : ℕ) (current : IdSet) (cid : Bytes) (rs : List ContainerRow)
    → contains cid ks ≡ has cid current
    → find cid (upsert_rows ks ts current rs) ≡ row_after (has cid current) ts cid (find cid rs)
find-upsert_rows ks ts current cid rs h = elim (Option-cases (find cid rs)) [
  | inl e ↦
      ground (arith, find-row_marked ts current cid (seen_all ts ks rs), find-seen_all ts ks cid rs)
  | inr (r, e) ↦ ground (
    arith,
    find-container_id cid rs r e,
    ap (λ k. has k current) (find-container_id cid rs r e),
    find-row_marked ts current cid (seen_all ts ks rs),
    find-seen_all ts ks cid rs,
  )
]

-- A map with a key is not empty.
length-keys : (cid : Bytes) (m : IdSet) → contains cid (keys m) ≡ true → eqb (length m) 0 ≡ false
length-keys cid [] h = cc
length-keys cid (x ∷ m) h = ground arith

abbrev pub Recorded : ContInfoSnapshot → Tables → Tables → Type 0
Recorded snap d d' =
    ((cid : Bytes)
      → find cid d'.containers
        ≡ row_after (is_alive cid snap.procesos) snap.ts_ms cid (find cid d.containers))
    × (d' ≡ on_rows (λ _. d'.containers) d)

-- A successful call has recorded the snapshot, and a failed one has changed nothing.
abbrev pub Outcome :
    {Conn : Type 0} (db : Engine Conn)
    → IsSqlite db
    → ContInfoSnapshot
    → Conn
    → Result Error (Unit {0}) × Conn
    → Type 0
Outcome db laws snap c (ok _, c') = Recorded snap (laws.tables c) (laws.tables c')
Outcome db laws snap c (err _, c') = laws.tables c' ≡ laws.tables c

module _ {Conn : Type 0} (db : Engine Conn) (laws : IsSqlite db) where
  Outcome-Atomic :
      (ks : List Bytes) (snap : ContInfoSnapshot) (c : Conn) (out : Result Error (Unit {0}) × Conn)
      → ((k : Bytes) → contains k ks ≡ contains k (keys (current_ids snap)))
      → Atomic db laws c (on_rows (upsert_rows ks snap.ts_ms (current_ids snap))) out
      → Outcome db laws snap c out
  Outcome-Atomic ks snap c (ok u, c') h a =
      let current = current_ids snap in
      let d = laws.tables c in
      (
        (λ cid.
            ap (λ t. find cid t.containers) a
            ∙ (find-upsert_rows ks snap.ts_ms current cid d.containers
                  (h cid ∙ sym (has-contains cid current))
                ∙ ap (λ b. row_after b snap.ts_ms cid (find cid d.containers))
                    (has-contains cid current ∙ contains-current_ids cid snap))),
        a ∙ ap (λ t. on_rows (λ _. t.containers) d) (sym a),
      )
  Outcome-Atomic ks snap c (err e, c') h a = a

  -- If some process of the snapshot belongs to a container, a call that succeeds gives every
  -- container the row that the snapshot asks for and leaves the other tables alone, and a call
  -- that fails leaves every table as it was; in any order of visiting that visits each of the
  -- current ids. The database is one that keeps the laws of SQLite.
  pub upsert_records :
      (visit : List Bytes → List Bytes)
      → ((ks : List Bytes) (k : Bytes) → contains k (visit ks) ≡ contains k ks)
      → (snap : ContInfoSnapshot) (c : Conn) (cid : Bytes) → is_alive cid snap.procesos ≡ true
      → Outcome db laws snap c (upsert_containers_from_snapshot db visit snap c)
  unfolding upsert_containers_from_snapshot
  upsert_records visit order snap c cid alive =
      let current = current_ids snap in
      subst
        (λ b.
          Outcome db laws snap c ((if b then pure tt else upsert_tx db visit snap.ts_ms current) c))
        (sym (length-keys cid current (contains-current_ids cid snap ∙ alive)))
        (Outcome-Atomic (visit (keys current)) snap c (upsert_tx db visit snap.ts_ms current c)
          (order (keys current)) (upsert_tx-Atomic db laws visit snap.ts_ms current c))

no_keys : (m : IdSet) → ((k : Bytes) → contains k (keys m) ≡ false) → m ≡ []
no_keys [] h = refl
no_keys ((k, u) ∷ m) h = ground (arith, h k, bytes_eq_iff k k)

module _ {Conn : Type 0} (db : Engine Conn) where
  -- A snapshot in which no process belongs to a container changes nothing and succeeds, so a
  -- container that was open stays open, however long ago it was last seen.
  pub upsert_without_containers :
      (visit : List Bytes → List Bytes) (snap : ContInfoSnapshot) (c : Conn)
      → ((cid : Bytes) → is_alive cid snap.procesos ≡ false)
      → upsert_containers_from_snapshot db visit snap c ≡ (ok tt, c)
  unfolding upsert_containers_from_snapshot
  upsert_without_containers visit snap c h =
      let current = current_ids snap in
      subst
        (λ m.
          (if eqb (length m) 0 then pure tt else upsert_tx db visit snap.ts_ms m) c ≡ (ok tt, c))
        (sym (no_keys current (λ k. contains-current_ids k snap ∙ h k))) refl
