-- ===== src/Examples/Rows.antt =====
-- The tables of the database after snapshots with concrete containers.
use proyecto_1_sopes.Prelude.{ℕ, ◌≡◌, refl, some, none, List, [], ◌∷◌, Bytes, ascii, ok}
use proyecto_1_sopes.Snapshot.{ContProcess, ContInfoSnapshot}
use proyecto_1_sopes.Database.{ContainerRow, apply, set_removed, set_last_seen}
use proyecto_1_sopes.Database.Tx.{for_each}
use proyecto_1_sopes.Containers.{
  upsert_containers_from_snapshot, mark_one, mark_if_gone, insert_if_new, classify_container_type,
}
use proyecto_1_sopes.Containers.Classify.{Classified, classify_container_type-Classified}
use proyecto_1_sopes.Containers.Lifecycle.{Outcome, upsert_records, upsert_without_containers}
use proyecto_1_sopes.Schema.{create_tables}
use proyecto_1_sopes.Schema.Created.{Prepares, create_tables-Prepares}
use proyecto_1_sopes.Examples.Memory.{Memory, memory_db, memory-IsSqlite, new_memory, empty_tables}

abbrev pub process_of : Bytes → Bytes → ContProcess
process_of name cid = record {
  pid = 100;
  nombre = name;
  cmdline_or_cont_id = cid;
  vsz_kb = 9000;
  rss_kb = 800;
  mem_percent = 1;
  cpu_time_ns = 2_000_000_000;
  estado = ascii "S";
  container_related = ascii "yes";
}

abbrev pub snapshot_of : ℕ → List ContProcess → ContInfoSnapshot
snapshot_of ts ps = record {
  total_ram_kb = 16000;
  free_ram_kb = 6000;
  used_ram_kb = 10000;
  ts_ms = ts;
  procesos = ps;
}

abbrev pub low_process : ContProcess
low_process = process_of (ascii "stress-low") (ascii "stress-low-1")

abbrev pub one_container : ContInfoSnapshot
one_container = snapshot_of 5000 (low_process ∷ [])

-- A row that an earlier run left open, and one that was removed.
abbrev pub old_rows : List ContainerRow
old_rows =
    record {
      container_id = ascii "web";
      first_seen_ts_ms = 1000;
      last_seen_ts_ms = 2000;
      removed_at_ts_ms = none;
      container_type = ascii "UNKNOWN";
    }
    ∷ record {
      container_id = ascii "stress-low-1";
      first_seen_ts_ms = 1000;
      last_seen_ts_ms = 1500;
      removed_at_ts_ms = some 2000;
      container_type = ascii "LOW";
    }
    ∷ []

abbrev pub old_memory : Memory
old_memory = record new_memory { now = record empty_tables { containers = old_rows } }

-- The open one is marked; the one that came back is seen again and still counts as removed.
upsert_run :
    (upsert_containers_from_snapshot memory_db (λ ks. ks) one_container old_memory).1.now.containers
    ≡ record {
      container_id = ascii "web";
      first_seen_ts_ms = 1000;
      last_seen_ts_ms = 2000;
      removed_at_ts_ms = some 5000;
      container_type = ascii "UNKNOWN";
    }
      ∷ record {
        container_id = ascii "stress-low-1";
        first_seen_ts_ms = 1000;
        last_seen_ts_ms = 5000;
        removed_at_ts_ms = some 2000;
        container_type = ascii "LOW";
      }
      ∷ []
unfolding upsert_containers_from_snapshot apply mark_one for_each mark_if_gone set_removed
    set_last_seen insert_if_new
upsert_run = refl

upsert_records_example :
    Outcome memory_db memory-IsSqlite one_container old_memory
      (upsert_containers_from_snapshot memory_db (λ ks. ks) one_container old_memory)
upsert_records_example =
    upsert_records memory_db memory-IsSqlite (λ ks. ks) (λ ks k. refl) one_container old_memory
      (ascii "stress-low-1") refl

upsert_without_containers_example :
    upsert_containers_from_snapshot memory_db (λ ks. ks) (snapshot_of 5000 []) old_memory
    ≡ (ok tt, old_memory)
upsert_without_containers_example =
    upsert_without_containers memory_db (λ ks. ks) (snapshot_of 5000 []) old_memory (λ cid. refl)

classify_container_type-Classified_example :
    Classified
      (ascii "Stress-HIGH-RAM-low-2")
      (classify_container_type (ascii "Stress-HIGH-RAM-low-2"))
classify_container_type-Classified_example =
    classify_container_type-Classified (ascii "Stress-HIGH-RAM-low-2")

create_tables-Prepares_example :
    Prepares memory_db memory-IsSqlite old_memory (create_tables memory_db old_memory)
create_tables-Prepares_example = create_tables-Prepares memory_db memory-IsSqlite old_memory
