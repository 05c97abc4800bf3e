-- ===== src/Console/Shown.antt =====
-- The loop of `PrintContainers` of Daemon/readcont.go, and the lines that it prints.
use proyecto_1_sopes.Prelude.{
  ℕ, suc, ◌+◌, ◌≡◌, ◌∙◌, ap, List, [], ◌∷◌, ◌++◌, if◌then◌else◌, eqb, length, select, arith,
}
use mathlib.Core.Path.{ap₂}
use native.Mathlib.Nat.{zero-add}
use proyecto_1_sopes.Snapshot.{ContProcess, ContInfoSnapshot, is_container_related}
use proyecto_1_sopes.Console.{
  Line, containers_title, container_entry, no_containers_found, containers_found, container_lines,
  print_containers,
}

-- Entries numbered from `i` on.
abbrev pub numbered : ℕ → List ContProcess → List Line
numbered i [] = []
numbered i (p ∷ ps) = container_entry i p ∷ numbered (i + 1) ps

abbrev pub total_line : ℕ → Line
total_line n = if eqb n 0 then no_containers_found else containers_found n

more_or_less : (count n : ℕ) → count + 1 + n ≡ count + suc n
more_or_less count n = omega arith

container_lines_lem :
    (count : ℕ) (ps : List ContProcess)
    → container_lines count ps
      ≡ numbered (count + 1) (select is_container_related ps)
        ++ total_line (count + length (select is_container_related ps)) ∷ []
unfolding container_lines
container_lines_lem count [] = ap (λ k. total_line k ∷ []) (omega arith)
container_lines_lem count (p ∷ ps) =
    let n = length (select is_container_related ps) in
    ground (
      arith,
      container_lines_lem (count + 1) ps,
      container_lines_lem count ps,
      ap (λ k. numbered (count + 1 + 1) (select is_container_related ps) ++ total_line k ∷ [])
          (more_or_less count n),
    )

-- `PrintContainers` lists the processes that belong to a container, in order and numbered from 1,
-- and after them how many there are.
pub print_containers_lem :
    (snap : ContInfoSnapshot)
    → let shown = select is_container_related snap.procesos in
      print_containers snap
      ≡ containers_title snap ∷ (numbered 1 shown ++ total_line (length shown) ∷ [])
unfolding print_containers
print_containers_lem snap =
    let shown = select is_container_related snap.procesos in
    ap (λ ls. containers_title snap ∷ ls)
      (container_lines_lem 0 snap.procesos
        ∙ ap₂ (λ i n. numbered i shown ++ total_line n ∷ []) (zero-add 1) (zero-add (length shown)))
