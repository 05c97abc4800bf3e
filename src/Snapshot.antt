-- ===== src/Snapshot.antt =====
-- The snapshots that the kernel modules publish, as the daemon holds them: Daemon/readsystem.go and
-- Daemon/readcont.go. A machine integer is its bit pattern, a number below 2 ^ 64.
use proyecto_1_sopes.Prelude.{ℕ, ◌%◌, ◌+◌, ◌^◌, Bool, List, Bytes, ltb, ascii, bytes_eq}

pub record Process : Type 0 where
  pub pid : ℕ  -- int
  pub comm : Bytes
  pub rss_kb : ℕ  -- uint64
  pub vmsize_kb : ℕ  -- uint64
  pub state : Bytes
  pub utime : ℕ  -- uint64
  pub stime : ℕ  -- uint64
  pub ts_ms : ℕ  -- uint64

pub record SysInfo : Type 0 where
  pub total_ram_kb : ℕ  -- uint64
  pub free_ram_kb : ℕ  -- uint64
  pub available_kb : ℕ  -- uint64
  pub ram_used_kb : ℕ  -- uint64
  pub total_procs : ℕ  -- int64
  pub cpu_usage_pct : ℕ  -- uint64
  pub ts_ms : ℕ  -- uint64
  pub procesos : List Process
  pub raw_json_present : Bool

pub record ContProcess : Type 0 where
  pub pid : ℕ  -- int
  pub nombre : Bytes
  pub cmdline_or_cont_id : Bytes
  pub vsz_kb : ℕ  -- uint64
  pub rss_kb : ℕ  -- uint64
  pub mem_percent : ℕ  -- uint64
  pub cpu_time_ns : ℕ  -- uint64
  pub estado : Bytes
  pub container_related : Bytes

pub record ContInfoSnapshot : Type 0 where
  pub total_ram_kb : ℕ  -- uint64
  pub free_ram_kb : ℕ  -- uint64
  pub used_ram_kb : ℕ  -- uint64
  pub ts_ms : ℕ  -- int64
  pub procesos : List ContProcess

abbrev pub word : ℕ
word = 2 ^ 64

-- `a < b` on int64 patterns: the order of the signed values is that of the patterns with the sign
-- bit turned over.
abbrev pub ltb_i64 : ℕ → ℕ → Bool
ltb_i64 a b = ltb ((a + 2 ^ 63) % word) ((b + 2 ^ 63) % word)

-- `p.ContainerRelated == "yes"`
abbrev pub is_container_related : ContProcess → Bool
is_container_related p = bytes_eq p.container_related (ascii "yes")
