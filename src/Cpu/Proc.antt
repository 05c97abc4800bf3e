-- ===== src/Cpu/Proc.antt =====
-- `BuildProcCpuPct` of Daemon/insert_system.go, against the share of one process.
use proyecto_1_sopes.Prelude.{
  ℕ, ◌≡◌, refl, sym, ◌∙◌, ap, Bool, true, false, Option, none, some, List, [], ◌∷◌, if◌then◌else◌,
  ltb, eqb, eqb_iff, Map, lookup, insert, number_key, lookup-insert, contains, IsDistinct, arith,
  not, ◌&&◌, Option-cases, Bool-cases, inl, inr,
}
use proyecto_1_sopes.Snapshot.{Process, SysInfo, ltb_i64}
use proyecto_1_sopes.Cpu.{
  Float64, sub64, add64, share, collect_ticks, proc_pct, add_proc_pcts, delta_sec,
  build_proc_cpu_pct,
}

-- The CPU time of the last process with a pid; in a snapshot with distinct pids, of the only one.
abbrev pub ticks_of : ℕ → List Process → Option ℕ
ticks_of pid [] = none
ticks_of pid (p ∷ ps) = elim (ticks_of pid ps) [
  | some t ↦ some t
  | none ↦ if eqb p.pid pid then some (add64 p.utime p.stime) else none
]

abbrev pub pids : List Process → List ℕ
pids [] = []
pids (p ∷ ps) = p.pid ∷ pids ps

some_or_none : (o : Option ℕ) → ◌≡◌ {A = Option ℕ} (elim o [ some v ↦ some v | none ↦ none ]) o
some_or_none none = refl
some_or_none (some v) = refl

module _ (fl : Float64) where
  lookup-collect_ticks :
      (pid : ℕ) (ps : List Process) (m : Map ℕ ℕ)
      → lookup pid (collect_ticks fl ps m)
        ≡ elim (ticks_of pid ps) [ some t ↦ some t | none ↦ lookup pid m ]
  unfolding collect_ticks
  lookup-collect_ticks pid [] m = refl
  lookup-collect_ticks pid (p ∷ ps) m = ground (
    arith,
    lookup-collect_ticks pid ps (insert p.pid (add64 p.utime p.stime) m),
    lookup-insert p.pid pid (add64 p.utime p.stime) m,
  )

  -- The share, given the CPU times at the two snapshots: none without both, or without progress.
  abbrev pub share_of : ℕ → ℕ → ℕ → Option ℕ → Option ℕ → Option ℕ
  share_of delta num_cpus hz none new = none
  share_of delta num_cpus hz (some old) none = none
  share_of delta num_cpus hz (some old) (some new) =
      if ltb old new
      then some (share fl (fl.div (fl.of_uint64 (sub64 new old)) hz) delta num_cpus)
      else none

  ticks_of_absent :
      (pid : ℕ) (ps : List Process) → contains pid (pids ps) ≡ false → ticks_of pid ps ≡ none
  ticks_of_absent pid [] h = refl
  ticks_of_absent pid (p ∷ ps) h = ground (arith, ticks_of_absent pid ps)

  module _ (pct : Process → Option ℕ) where
    -- The share that the loop keeps for a pid: that of the last process with one.
    abbrev pct_of : ℕ → List Process → Option ℕ
    pct_of pid [] = none
    pct_of pid (p ∷ ps) = elim (pct_of pid ps) [
      | some v ↦ some v
      | none ↦ if eqb p.pid pid then pct p else none
    ]

    lookup-add_proc_pcts :
        (pid : ℕ) (ps : List Process) (m : Map ℕ ℕ)
        → lookup pid (add_proc_pcts fl pct ps m)
          ≡ elim (pct_of pid ps) [ some v ↦ some v | none ↦ lookup pid m ]
    unfolding add_proc_pcts
    lookup-add_proc_pcts pid [] m = refl
    lookup-add_proc_pcts pid (p ∷ ps) m = elim (Option-cases (pct p)) [
      | inl e ↦ ground (
        arith,
        lookup-add_proc_pcts pid ps (elim (pct p) [ none ↦ m | some v ↦ insert p.pid v m ]),
      )
      | inr (v, e) ↦ ground (
        arith,
        lookup-add_proc_pcts pid ps (elim (pct p) [ none ↦ m | some w ↦ insert p.pid w m ]),
        lookup-insert p.pid pid v m,
      )
    ]

    pct_of_absent :
        (pid : ℕ) (ps : List Process) → contains pid (pids ps) ≡ false → pct_of pid ps ≡ none
    pct_of_absent pid [] h = refl
    pct_of_absent pid (p ∷ ps) h = ground (arith, pct_of_absent pid ps)

  module _ (old : Map ℕ ℕ) (delta num_cpus hz : ℕ) where
    proc_pct_lem :
        (p : Process)
        → proc_pct fl old delta num_cpus hz p
          ≡ share_of delta num_cpus hz (lookup p.pid old) (some (add64 p.utime p.stime))
    unfolding proc_pct
    proc_pct_lem p = elim (Option-cases (lookup p.pid old)) [
      | inl e ↦ ground arith
      | inr (t, e) ↦ ground arith
    ]

    share_of-none : (o : Option ℕ) → share_of delta num_cpus hz o none ≡ none
    share_of-none none = refl
    share_of-none (some t) = refl

    pct_of_lem :
        (pid : ℕ) (ps : List Process)
        → IsDistinct (pids ps)
        → pct_of (proc_pct fl old delta num_cpus hz) pid ps
          ≡ share_of delta num_cpus hz (lookup pid old) (ticks_of pid ps)
    pct_of_lem pid [] d = sym (share_of-none (lookup pid old))
    pct_of_lem pid (p ∷ ps) d = elim (Bool-cases (eqb p.pid pid)) [
      | inl e ↦
          let same : p.pid ≡ pid = (eqb_iff p.pid pid).0 e in
          let gone = sym (ap (λ k. contains k (pids ps)) same) ∙ d.0 in
          rw
            (
              ticks_of_absent pid ps gone,
              pct_of_absent (proc_pct fl old delta num_cpus hz) pid ps gone,
              e,
            )
            (proc_pct_lem p
              ∙ ap (λ k. share_of delta num_cpus hz (lookup k old) (some (add64 p.utime p.stime)))
                  same)
      | inr e ↦ ground (arith, pct_of_lem pid ps d.1, share_of-none (lookup pid old))
    ]

  guarded :
      (pid : ℕ) (a b c : Bool) (m : Map ℕ ℕ)
      → lookup pid (if not a then [] else if not b then [] else if c then [] else m)
        ≡ (if a && (b && not c) then lookup pid m else none)
  guarded pid false b c m = refl
  guarded pid true false c m = refl
  guarded pid true true true m = refl
  guarded pid true true false m = refl

  -- The CPU count is positive, the clock has advanced, and the interval is positive as a float.
  abbrev pub is_usable : SysInfo → SysInfo → ℕ → Bool
  is_usable prev curr num_cpus =
      ltb_i64 0 num_cpus && (ltb prev.ts_ms curr.ts_ms && not (fl.leb (delta_sec fl prev curr) 0))

  -- Where the interval is usable, the map holds the share of each process that is in both snapshots
  -- and has used CPU time in between, and nothing else: from the last sample of the pid in the
  -- previous snapshot and the one in the current snapshot. Otherwise the map is empty. Pids are
  -- distinct in the current snapshot.
  pub build_proc_cpu_pct_lem :
      (prev curr : SysInfo) (num_cpus hz pid : ℕ)
      → IsDistinct (pids curr.procesos)
      → lookup pid (build_proc_cpu_pct fl prev curr num_cpus hz) ≡ (
          if is_usable prev curr num_cpus
          then share_of
              (delta_sec fl prev curr)
              num_cpus
              hz
              (ticks_of pid prev.procesos)
              (ticks_of pid curr.procesos)
          else none)
  unfolding build_proc_cpu_pct
  build_proc_cpu_pct_lem prev curr num_cpus hz pid d =
      let delta = delta_sec fl prev curr in
      let old = collect_ticks fl prev.procesos [] in
      let pct = proc_pct fl old delta num_cpus hz in
      let now = ticks_of pid curr.procesos in
      guarded pid (ltb_i64 0 num_cpus) (ltb prev.ts_ms curr.ts_ms) (fl.leb delta 0)
        (add_proc_pcts fl pct curr.procesos [])
      ∙ ap (λ o. if is_usable prev curr num_cpus then o else none)
          (lookup-add_proc_pcts pct pid curr.procesos []
            ∙ (some_or_none (pct_of pct pid curr.procesos)
                ∙ (pct_of_lem old delta num_cpus hz pid curr.procesos d
                    ∙ ap (λ o. share_of delta num_cpus hz o now)
                        (lookup-collect_ticks pid prev.procesos []
                          ∙ some_or_none (ticks_of pid prev.procesos)))))
