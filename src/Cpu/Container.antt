-- ===== src/Cpu/Container.antt =====
-- `BuildContainerCpuPct` of Daemon/insert_cont.go, against the share of one container.
use proyecto_1_sopes.Prelude.{
  ℕ, ◌+◌, ◌%◌, ◌≡◌, refl, ◌∙◌, ap, Bool, true, false, ◌&&◌, ◌||◌, not, Option, none, some, List, [],
  ◌∷◌, if◌then◌else◌, Map, keys, lookup, insert, Bytes, bytes_key, bytes_eq, bytes_eq_iff, is_empty,
  lookup-insert, contains, arith, Option-cases, inl, inr,
}
use mathlib.Core.Path.{ap₂}
use native.Mathlib.Nat.{zero-add}
use proyecto_1_sopes.Snapshot.{ContProcess, ContInfoSnapshot, word, ltb_i64, is_container_related}
use proyecto_1_sopes.Containers.Lifecycle.{is_alive}
use proyecto_1_sopes.Cpu.{
  Float64, sub64, add64, share, value_or_zero, collect_cpu, cont_pct, add_cont_pcts, delta_sec_cont,
  build_container_cpu_pct,
}

-- The CPU time of a container: the sum over its processes, before it wraps.
abbrev pub sum_ns : Bytes → List ContProcess → ℕ
sum_ns cid [] = 0
sum_ns cid (p ∷ ps) =
    if is_container_related p
      && (not (is_empty p.cmdline_or_cont_id) && bytes_eq p.cmdline_or_cont_id cid)
    then p.cpu_time_ns + sum_ns cid ps
    else sum_ns cid ps

-- As an int64 pattern, for a container that has a process.
abbrev pub cpu_of : Bytes → List ContProcess → Option ℕ
cpu_of cid ps = if is_alive cid ps then some (sum_ns cid ps % word) else none

sum_ns_absent : (cid : Bytes) (ps : List ContProcess) → is_alive cid ps ≡ false → sum_ns cid ps ≡ 0
sum_ns_absent cid [] h = refl
sum_ns_absent cid (p ∷ ps) h = ground (arith, sum_ns_absent cid ps)

module _ (fl : Float64) where
  lookup-collect_cpu :
      (cid : Bytes) (ps : List ContProcess) (m : Map Bytes ℕ)
      → lookup cid (collect_cpu fl ps m) ≡ (
          if is_alive cid ps
          then some ((value_or_zero (lookup cid m) + sum_ns cid ps) % word)
          else lookup cid m)
  unfolding collect_cpu
  lookup-collect_cpu cid [] m = refl
  lookup-collect_cpu cid (p ∷ ps) m =
      let k = p.cmdline_or_cont_id in
      let m' = insert k (add64 (value_or_zero (lookup k m)) p.cpu_time_ns) m in
      ground (
        arith,
        bytes_eq_iff k cid,
        lookup-collect_cpu cid ps m,
        lookup-collect_cpu cid ps m',
        lookup-insert k cid (add64 (value_or_zero (lookup k m)) p.cpu_time_ns) m,
        sum_ns_absent cid ps,
      )

  lookup-add_cont_pcts :
      (pct : Bytes → Option ℕ) (cid : Bytes) (cids : List Bytes) (m : Map Bytes ℕ)
      → lookup cid (add_cont_pcts fl pct cids m) ≡ (
          if contains cid cids
          then elim (pct cid) [ some v ↦ some v | none ↦ lookup cid m ]
          else lookup cid m)
  unfolding add_cont_pcts
  lookup-add_cont_pcts pct cid [] m = refl
  lookup-add_cont_pcts pct cid (k ∷ cids) m = elim (Option-cases (pct k)) [
    | inl e ↦ ground (arith, bytes_eq_iff k cid, lookup-add_cont_pcts pct cid cids m)
    | inr (v, e) ↦ ground (
      arith,
      bytes_eq_iff k cid,
      lookup-add_cont_pcts pct cid cids (insert k v m),
      lookup-insert k cid v m,
    )
  ]

  -- The share, given the CPU times at the two snapshots: none without both, or without progress.
  abbrev pub cont_share_of : ℕ → ℕ → Option ℕ → Option ℕ → Option ℕ
  cont_share_of delta num_cpus old none = none
  cont_share_of delta num_cpus none (some new) = none
  cont_share_of delta num_cpus (some old) (some new) =
      if ltb_i64 old new
      then some (
          share fl (fl.div (fl.of_int64 (sub64 new old)) (fl.of_uint64 1_000_000_000)) delta
            num_cpus)
      else none

  cont_pct_lem :
      (old new : Map Bytes ℕ) (delta num_cpus : ℕ) (cid : Bytes)
      → cont_pct fl old new delta num_cpus cid
        ≡ cont_share_of delta num_cpus (lookup cid old) (lookup cid new)
  unfolding cont_pct
  cont_pct_lem old new delta num_cpus cid = elim (Option-cases (lookup cid new)) [
    | inl e ↦ ground arith
    | inr (v, e) ↦ elim (Option-cases (lookup cid old)) [
      | inl e' ↦ ground arith
      | inr (v', e') ↦ ground arith
    ]
  ]

  lookup-collect_cpu_nil :
      (cid : Bytes) (ps : List ContProcess) → lookup cid (collect_cpu fl ps []) ≡ cpu_of cid ps
  lookup-collect_cpu_nil cid ps =
      lookup-collect_cpu cid ps []
      ∙ ap (λ t. if is_alive cid ps then some (t % word) else none) (zero-add (sum_ns cid ps))

  cont_share_absent :
      (delta num_cpus : ℕ) (cid : Bytes) (old : Option ℕ) (m : Map Bytes ℕ)
      → contains cid (keys m) ≡ false
      → cont_share_of delta num_cpus old (lookup cid m) ≡ none
  cont_share_absent delta num_cpus cid old [] h = refl
  cont_share_absent delta num_cpus cid old (x ∷ m) h =
      ground (arith, cont_share_absent delta num_cpus cid old m)

  -- Visiting the keys in any order gives each container its share.
  lookup-visit :
      (visit : List Bytes → List Bytes)
      → ((ks : List Bytes) (k : Bytes) → contains k (visit ks) ≡ contains k ks)
      → (old new : Map Bytes ℕ) (delta num_cpus : ℕ) (cid : Bytes)
      → lookup cid (add_cont_pcts fl (cont_pct fl old new delta num_cpus) (visit (keys new)) [])
        ≡ cont_share_of delta num_cpus (lookup cid old) (lookup cid new)
  lookup-visit visit order old new delta num_cpus cid = ground (
    arith,
    lookup-add_cont_pcts (cont_pct fl old new delta num_cpus) cid (visit (keys new)) [],
    order (keys new) cid,
    cont_pct_lem old new delta num_cpus cid,
    cont_share_absent delta num_cpus cid (lookup cid old) new,
  )

  -- The CPU count is positive, the clock has advanced, and the interval is positive as a float.
  abbrev pub is_usable_cont : ContInfoSnapshot → ContInfoSnapshot → ℕ → Bool
  is_usable_cont prev curr num_cpus =
      ltb_i64 0 num_cpus
      && (ltb_i64 prev.ts_ms curr.ts_ms && not (fl.leb (delta_sec_cont fl prev curr) 0))

  guarded :
      (cid : Bytes) (a b c : Bool) (m : Map Bytes ℕ)
      → lookup cid (if not a || not b then [] else if c then [] else m)
        ≡ (if a && (b && not c) then lookup cid m else none)
  guarded cid false b c m = refl
  guarded cid true false c m = refl
  guarded cid true true true m = refl
  guarded cid true true false m = refl

  -- Where the interval is usable, the map holds the share of each container that has processes in
  -- both snapshots and whose CPU time, the sum over its processes as an int64, has grown, and
  -- nothing else; otherwise it is empty. This holds for every order of visiting the map of sums
  -- that visits each of its keys.
  pub build_container_cpu_pct_lem :
      (visit : List Bytes → List Bytes)
      → ((ks : List Bytes) (k : Bytes) → contains k (visit ks) ≡ contains k ks)
      → (prev curr : ContInfoSnapshot) (num_cpus : ℕ) (cid : Bytes)
      → lookup cid (build_container_cpu_pct fl visit prev curr num_cpus) ≡ (
          if is_usable_cont prev curr num_cpus
          then cont_share_of
              (delta_sec_cont fl prev curr)
              num_cpus
              (cpu_of cid prev.procesos)
              (cpu_of cid curr.procesos)
          else none)
  unfolding build_container_cpu_pct
  build_container_cpu_pct_lem visit order prev curr num_cpus cid =
      let delta = delta_sec_cont fl prev curr in
      let old = collect_cpu fl prev.procesos [] in
      let new = collect_cpu fl curr.procesos [] in
      guarded cid (ltb_i64 0 num_cpus) (ltb_i64 prev.ts_ms curr.ts_ms) (fl.leb delta 0)
        (add_cont_pcts fl (cont_pct fl old new delta num_cpus) (visit (keys new)) [])
      ∙ ap (λ o. if is_usable_cont prev curr num_cpus then o else none)
          (lookup-visit visit order old new delta num_cpus cid
            ∙ ap₂ (cont_share_of delta num_cpus) (lookup-collect_cpu_nil cid prev.procesos)
                (lookup-collect_cpu_nil cid curr.procesos))
