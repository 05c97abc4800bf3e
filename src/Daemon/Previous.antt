-- ===== src/Daemon/Previous.antt =====
-- The previous snapshots that the loop of Daemon/main.go holds.
use proyecto_1_sopes.Prelude.{◌≡◌, refl, ◌∙◌, ap, Bool, true, List, [], ◌∷◌, Result, ok, err, ℕ}
use proyecto_1_sopes.Snapshot.{SysInfo, ContInfoSnapshot}
use proyecto_1_sopes.Database.{Engine}
use proyecto_1_sopes.Cpu.{Float64}
use proyecto_1_sopes.Rules.{Shell}
use proyecto_1_sopes.Daemon.{
  ReadError, read_sysinfo, read_cont_info, State, Tick, on_sysinfo, on_cont_info, cycle, run_cycles,
}

-- The value of the last reading that succeeded, and whether there was one.
abbrev pub newer : {A : Type 0} → Result ReadError A → A × Bool → A × Bool
newer (ok a) old = (a, true)
newer (err _) old = old

abbrev pub last_sys : List Tick → SysInfo × Bool → SysInfo × Bool
last_sys [] old = old
last_sys (t ∷ ts) old = last_sys ts (newer (read_sysinfo t.sys) old)

abbrev pub last_cont : List Tick → ContInfoSnapshot × Bool → ContInfoSnapshot × Bool
last_cont [] old = old
last_cont (t ∷ ts) old = last_cont ts (newer (read_cont_info t.cont) old)

module _ {Conn World : Type 0} (db : Engine Conn) (fl : Float64) (shell : Shell World)
    (num_cpus : ℕ) where
  abbrev pub sys_of : State Conn World → SysInfo × Bool
  sys_of s = (s.prev_sys, s.have_prev_sys)

  abbrev pub cont_of : State Conn World → ContInfoSnapshot × Bool
  cont_of s = (s.prev_cont, s.have_prev_cont)

  on_sysinfo-previous :
      (t : Tick) (r : Result ReadError SysInfo) (s : State Conn World)
      → (sys_of (on_sysinfo db fl shell num_cpus t r s) ≡ newer r (sys_of s))
        × (cont_of (on_sysinfo db fl shell num_cpus t r s) ≡ cont_of s)
  unfolding on_sysinfo
  on_sysinfo-previous t (ok si) s = (refl, refl)
  on_sysinfo-previous t (err e) s = (refl, refl)

  on_cont_info-previous :
      (t : Tick) (r : Result ReadError ContInfoSnapshot) (s : State Conn World)
      → (cont_of (on_cont_info db fl shell num_cpus t r s) ≡ newer r (cont_of s))
        × (sys_of (on_cont_info db fl shell num_cpus t r s) ≡ sys_of s)
  unfolding on_cont_info
  on_cont_info-previous t (ok snap) s = (refl, refl)
  on_cont_info-previous t (err e) s = (refl, refl)

  cycle-previous :
      (t : Tick) (s : State Conn World)
      → (sys_of (cycle db fl shell num_cpus t s) ≡ newer (read_sysinfo t.sys) (sys_of s))
        × (cont_of (cycle db fl shell num_cpus t s) ≡ newer (read_cont_info t.cont) (cont_of s))
  unfolding cycle
  cycle-previous t s =
      let s1 = on_sysinfo db fl shell num_cpus t (read_sysinfo t.sys) s in
      let a = on_sysinfo-previous t (read_sysinfo t.sys) s in
      let b = on_cont_info-previous t (read_cont_info t.cont) s1 in
      (b.1 ∙ a.0, b.0 ∙ ap (newer (read_cont_info t.cont)) a.1)

  -- After any cycles the loop holds the last snapshots that were read without error, each with a
  -- flag that says whether there has been one: a failed reading leaves both as they were.
  pub run_cycles-previous :
      (ts : List Tick) (s : State Conn World)
      → (sys_of (run_cycles db fl shell num_cpus ts s) ≡ last_sys ts (sys_of s))
        × (cont_of (run_cycles db fl shell num_cpus ts s) ≡ last_cont ts (cont_of s))
  unfolding run_cycles
  run_cycles-previous [] s = (refl, refl)
  run_cycles-previous (t ∷ ts) s =
      let (a, b) = cycle-previous t s in
      let (c, d) = run_cycles-previous ts (cycle db fl shell num_cpus t s) in
      (c ∙ ap (last_sys ts) a, d ∙ ap (last_cont ts) b)
