-- ===== src/Examples/Screen.antt =====
-- The console output of two snapshots, with an insertion sort in place of `sort.Slice`.
use Prim.Native.Nat.{min}
use proyecto_1_sopes.Prelude.{
  Bool, true, false, Bool-cases, inl, inr, ℕ, ◌≡◌, refl, List, [], ◌∷◌, ◌++◌, if◌then◌else◌, length,
  select, arith,
}
use proyecto_1_sopes.Snapshot.{Process, SysInfo, is_container_related}
use proyecto_1_sopes.Console.Sorting.{IsStrictWeak, IsOrdered, IsSortSlice}
use proyecto_1_sopes.Console.{
  cpu_before, cpu_data_available, print_sysinfo, print_containers, containers_title,
}
use proyecto_1_sopes.Console.Top.{count_above, IsDescending, top_shown, print_sysinfo_top}
use proyecto_1_sopes.Console.Shown.{numbered, total_line, print_containers_lem}
use proyecto_1_sopes.Examples.Rows.{one_container}
use proyecto_1_sopes.Examples.Measures.{running_process, second_system}

module _ (less : Process → Process → Bool) where
  abbrev place : Process → List Process → List Process
  place p [] = p ∷ []
  place p (q ∷ qs) = let rest = place p qs in if less p q then p ∷ q ∷ qs else q ∷ rest

  abbrev insertion_sort : List Process → List Process
  insertion_sort [] = []
  insertion_sort (p ∷ ps) = place p (insertion_sort ps)

  not_before : IsStrictWeak less → (p q : Process) → less p q ≡ true → less q p ≡ false
  not_before o p q h = elim (Bool-cases (less q p)) [
    | inl e ↦ absurd (ground (arith, o.transitive p q p h e, o.irreflexive p))
    | inr e ↦ e
  ]

  place-IsOrdered :
      IsStrictWeak less
      → (p : Process) (qs : List Process) → IsOrdered less qs
      → IsOrdered less (place p qs)
  place-IsOrdered o p [] h = tt
  place-IsOrdered o p (q ∷ []) h = ground (arith, not_before o p q)
  place-IsOrdered o p (q ∷ r ∷ rs) h =
      ground (arith, not_before o p q, place-IsOrdered o p (r ∷ rs) h.1)

  insertion_sort-IsOrdered :
      IsStrictWeak less → (ps : List Process) → IsOrdered less (insertion_sort ps)
  insertion_sort-IsOrdered o [] = tt
  insertion_sort-IsOrdered o (p ∷ ps) =
      place-IsOrdered o p (insertion_sort ps) (insertion_sort-IsOrdered o ps)

  module _ (test : Process → Bool) where
    select-place :
        (p : Process) (qs : List Process)
        → length (select test (place p qs)) ≡ length (select test (p ∷ qs))
    select-place p [] = refl
    select-place p (q ∷ qs) = ground (arith, select-place p qs)

    select-insertion_sort :
        (ps : List Process) → length (select test (insertion_sort ps)) ≡ length (select test ps)
    select-insertion_sort [] = refl
    select-insertion_sort (p ∷ ps) =
        ground (arith, select-place p (insertion_sort ps), select-insertion_sort ps)

insertion_sort-IsSortSlice : IsSortSlice insertion_sort
insertion_sort-IsSortSlice = record {
  sorts = λ less ps o. insertion_sort-IsOrdered less o ps;
  keeps = select-insertion_sort;
}

-- Process 7 has 800, 8 has 100 and 9 has 2; here they come the other way round.
abbrev busiest_last : SysInfo
busiest_last = record second_system {
  procesos = running_process 9 1 1 ∷ running_process 8 50 50 ∷ running_process 7 600 200 ∷ [];
}

top_run : top_shown (print_sysinfo insertion_sort busiest_last) ≡ second_system.procesos
unfolding print_sysinfo cpu_before cpu_data_available
top_run = refl

print_sysinfo_top_example :
    let shown = top_shown (print_sysinfo insertion_sort busiest_last) in
    IsDescending shown
    × ((t : ℕ) → count_above t shown ≡ min 10 (count_above t busiest_last.procesos))
unfolding cpu_data_available
print_sysinfo_top_example =
    print_sysinfo_top insertion_sort insertion_sort-IsSortSlice busiest_last refl

print_containers_lem_example :
    let shown = select is_container_related one_container.procesos in
    print_containers one_container
    ≡ containers_title one_container ∷ (numbered 1 shown ++ total_line (length shown) ∷ [])
print_containers_lem_example = print_containers_lem one_container
