-- ===== src/Cpu.antt =====
-- The CPU shares that the daemon computes from two snapshots: `BuildProcCpuPct` of
-- Daemon/insert_system.go and `BuildContainerCpuPct` of Daemon/insert_cont.go.
pub mod Proc
pub mod Container
use proyecto_1_sopes.Prelude.{
  ℕ, ◌+◌, ◌-◌, ◌%◌, Bool, true, false, ◌||◌, not, Option, none, some, List, [], ◌∷◌, if◌then◌else◌,
  ltb, Map, keys, lookup, insert, number_key, Bytes, bytes_key, is_empty,
}
use proyecto_1_sopes.Snapshot.{
  Process, SysInfo, ContProcess, ContInfoSnapshot, word, ltb_i64, is_container_related,
}

-- IEEE 754 double arithmetic, on bit patterns: the conversions from uint64 and int64, and the
-- operations that the source uses.
pub record Float64 : Type 0 where
  pub of_uint64 : ℕ → ℕ
  pub of_int64 : ℕ → ℕ
  pub div : ℕ → ℕ → ℕ
  pub mul : ℕ → ℕ → ℕ
  pub leb : ℕ → ℕ → Bool

-- a - b on 64-bit patterns.
abbrev pub sub64 : ℕ → ℕ → ℕ
sub64 a b = (a + word - b) % word

abbrev pub add64 : ℕ → ℕ → ℕ
add64 a b = (a + b) % word

-- A missing key reads as 0.
abbrev pub value_or_zero : Option ℕ → ℕ
value_or_zero none = 0
value_or_zero (some v) = v

module _ (fl : Float64) where
  open fl use {of_uint64, of_int64, div, mul, leb}

  -- `deltaTicks / hz`, `(cpuTimeSec / deltaTimeSec) * 100.0 / float64(numCPUs)`
  abbrev pub share : ℕ → ℕ → ℕ → ℕ
  share cpu_time_sec delta_time_sec num_cpus =
      div (mul (div cpu_time_sec delta_time_sec) (of_uint64 100)) (of_int64 num_cpus)

  -- `prevTicks[p.Pid] = p.Utime + p.Stime`
  unfoldable pub collect_ticks : List Process → Map ℕ ℕ → Map ℕ ℕ
  collect_ticks [] ticks = ticks
  collect_ticks (p ∷ ps) ticks = collect_ticks ps (insert p.pid (add64 p.utime p.stime) ticks)

  -- The share of one process, unless the loop goes on to the next one.
  unfoldable pub proc_pct : Map ℕ ℕ → ℕ → ℕ → ℕ → Process → Option ℕ
  proc_pct prev_ticks delta_time_sec num_cpus hz p =
      let curr_ticks = add64 p.utime p.stime in
      elim (lookup p.pid prev_ticks) [
        | none ↦ none
        | some old_ticks ↦
            if ltb old_ticks curr_ticks
            then some
                (share (div (of_uint64 (sub64 curr_ticks old_ticks)) hz) delta_time_sec num_cpus)
            else none
      ]

  unfoldable pub add_proc_pcts : (Process → Option ℕ) → List Process → Map ℕ ℕ → Map ℕ ℕ
  add_proc_pcts pct [] result = result
  add_proc_pcts pct (p ∷ ps) result =
      add_proc_pcts pct ps (elim (pct p) [ none ↦ result | some v ↦ insert p.pid v result ])

  -- `float64(curr.TsMs-prev.TsMs) / 1000.0`, unsigned and signed.
  abbrev pub delta_sec : SysInfo → SysInfo → ℕ
  delta_sec prev curr = div (of_uint64 (sub64 curr.ts_ms prev.ts_ms)) (of_uint64 1000)

  abbrev pub delta_sec_cont : ContInfoSnapshot → ContInfoSnapshot → ℕ
  delta_sec_cont prev curr = div (of_int64 (sub64 curr.ts_ms prev.ts_ms)) (of_uint64 1000)

  -- `BuildProcCpuPct`
  unfoldable pub build_proc_cpu_pct : SysInfo → SysInfo → ℕ → ℕ → Map ℕ ℕ
  unfolding collect_ticks proc_pct add_proc_pcts
  build_proc_cpu_pct prev curr num_cpus hz =
      if not (ltb_i64 0 num_cpus)
      then []
      else if not (ltb prev.ts_ms curr.ts_ms)
      then []
      else let delta_time_sec = delta_sec prev curr in
        if leb delta_time_sec 0
        then []
        else add_proc_pcts (proc_pct (collect_ticks prev.procesos []) delta_time_sec num_cpus hz)
            curr.procesos []

  -- `prevCPU[cid] += int64(p.CPUTimeNs)`, for the processes that belong to a container.
  unfoldable pub collect_cpu : List ContProcess → Map Bytes ℕ → Map Bytes ℕ
  collect_cpu [] cpu = cpu
  collect_cpu (p ∷ ps) cpu = collect_cpu ps (
      if is_container_related p
      then (let cid = p.cmdline_or_cont_id in
          if is_empty cid
          then cpu
          else insert cid (add64 (value_or_zero (lookup cid cpu)) p.cpu_time_ns) cpu)
      else cpu)

  -- The share of one container, unless the loop goes on to the next one.
  unfoldable pub cont_pct : Map Bytes ℕ → Map Bytes ℕ → ℕ → ℕ → Bytes → Option ℕ
  cont_pct prev_cpu curr_cpu delta_time_sec num_cpus cid = elim (lookup cid curr_cpu) [
    | none ↦ none
    | some curr_val ↦ elim (lookup cid prev_cpu) [
      | none ↦ none
      | some prev_val ↦
          if ltb_i64 prev_val curr_val
          then some (
              share (div (of_int64 (sub64 curr_val prev_val)) (of_uint64 1_000_000_000))
                delta_time_sec num_cpus)
          else none
    ]
  ]

  unfoldable pub add_cont_pcts : (Bytes → Option ℕ) → List Bytes → Map Bytes ℕ → Map Bytes ℕ
  add_cont_pcts pct [] result = result
  add_cont_pcts pct (cid ∷ cids) result =
      add_cont_pcts pct cids (elim (pct cid) [ none ↦ result | some v ↦ insert cid v result ])

  -- `BuildContainerCpuPct`; `visit` is the order in which `range` goes through the keys of `currCPU`.
  unfoldable pub build_container_cpu_pct :
      (List Bytes → List Bytes) → ContInfoSnapshot → ContInfoSnapshot → ℕ → Map Bytes ℕ
  unfolding collect_cpu cont_pct add_cont_pcts
  build_container_cpu_pct visit prev curr num_cpus =
      if not (ltb_i64 0 num_cpus) || not (ltb_i64 prev.ts_ms curr.ts_ms)
      then []
      else let delta_time_sec = delta_sec_cont prev curr in
        if leb delta_time_sec 0
        then []
        else let curr_cpu = collect_cpu curr.procesos [] in
          add_cont_pcts (cont_pct (collect_cpu prev.procesos []) curr_cpu delta_time_sec num_cpus)
            (visit (keys curr_cpu)) []
