-- ===== src/Console.antt =====
-- What `PrintSysInfo` of Daemon/readsystem.go and `PrintContainers` of Daemon/readcont.go show, as a
-- list of lines that hold the values printed; blank lines and rules are left out.
pub mod Sorting
pub mod Top
pub mod Shown
use proyecto_1_sopes.Prelude.{
  ℕ, zero, suc, ◌+◌, Bool, true, false, not, ◌||◌, List, [], ◌∷◌, ◌++◌, map, if◌then◌else◌, ltb,
  eqb, length, take, is_empty,
}
use proyecto_1_sopes.Snapshot.{
  Process, SysInfo, ContProcess, ContInfoSnapshot, is_container_related,
}
use proyecto_1_sopes.Cpu.{add64}

pub data Line : Type 0 where
  summary : SysInfo → Line
  no_processes no_cpu_times processes_title : Line
  top_title : ℕ → Line
  top_entry : ℕ → Process → ℕ → Line
  process_entry : Process → Line
  not_all_shown : ℕ → Line
  containers_title : ContInfoSnapshot → Line
  container_entry : ℕ → ContProcess → Line
  no_containers_found : Line
  containers_found : ℕ → Line

abbrev pub total_cpu : Process → ℕ
total_cpu p = add64 p.utime p.stime

-- The loop with `break`.
unfoldable pub cpu_data_available : List Process → Bool
cpu_data_available [] = false
cpu_data_available (p ∷ ps) =
    if not (eqb p.utime 0) || not (eqb p.stime 0) then true else cpu_data_available ps

-- `for i := 0; i < topN; i++`, from an index on.
unfoldable pub top_entries : ℕ → ℕ → List Process → List Line
top_entries i zero ps = []
top_entries i (suc n) [] = []
top_entries i (suc n) (p ∷ ps) = top_entry (i + 1) p (total_cpu p) ∷ top_entries (i + 1) n ps

abbrev pub at_most : ℕ → ℕ → ℕ
at_most limit n = if ltb limit n then limit else n

-- The function given to `sort.Slice`: `ci > cj`.
unfoldable pub cpu_before : Process → Process → Bool
cpu_before p q = ltb (total_cpu q) (total_cpu p)

-- `sort.Slice`: what it makes of a list, given the order.
abbrev pub SortSlice : Type 0
SortSlice = (Process → Process → Bool) → List Process → List Process

unfoldable pub top_lines : SortSlice → List Process → List Line
unfolding cpu_data_available top_entries cpu_before
top_lines sort_slice ps =
    let procs_by_cpu = sort_slice cpu_before ps in
    let top_n = at_most 10 (length procs_by_cpu) in
    if cpu_data_available ps
    then top_title top_n ∷ top_entries 0 top_n procs_by_cpu
    else no_cpu_times ∷ []

unfoldable pub process_lines : List Process → List Line
process_lines ps =
    processes_title ∷ map process_entry (take (at_most 50 (length ps)) ps)
    ++ (if ltb 50 (length ps) then not_all_shown (length ps) ∷ [] else [])

-- `PrintSysInfo`
unfoldable pub print_sysinfo : SortSlice → SysInfo → List Line
unfolding top_lines process_lines
print_sysinfo sort_slice si =
    summary si
    ∷ (if is_empty si.procesos
        then no_processes ∷ []
        else top_lines sort_slice si.procesos ++ process_lines si.procesos)

-- The loop of `PrintContainers`, with `count` so far.
unfoldable pub container_lines : ℕ → List ContProcess → List Line
container_lines count [] =
    (if eqb count 0 then no_containers_found else containers_found count) ∷ []
container_lines count (p ∷ ps) =
    let shown = container_entry (count + 1) p ∷ container_lines (count + 1) ps in
    let skipped = container_lines count ps in if is_container_related p then shown else skipped

-- `PrintContainers`
unfoldable pub print_containers : ContInfoSnapshot → List Line
unfolding container_lines
print_containers snap = containers_title snap ∷ container_lines 0 snap.procesos
