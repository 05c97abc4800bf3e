-- ===== src/Console/Top.antt =====
-- The first table of `PrintSysInfo` of Daemon/readsystem.go, on any sorting of the processes.
use Prim.Native.Nat.{min}
use proyecto_1_sopes.Prelude.{
  ℕ, zero, suc, ◌+◌, ◌≤◌, ◌≡◌, refl, ◌∙◌, ap, Bool, true, false, List, [], ◌∷◌, ◌++◌, map,
  if◌then◌else◌, ltb, length, take, select, is_empty, arith, append-nil,
}
use proyecto_1_sopes.Snapshot.{Process, SysInfo}
use proyecto_1_sopes.Console.Sorting.{IsStrictWeak, IsOrdered, IsSortSlice}
use proyecto_1_sopes.Console.{
  Line, SortSlice, cpu_before, no_processes, top_entry, process_entry, not_all_shown, total_cpu,
  cpu_data_available, top_entries, at_most, top_lines, process_lines, print_sysinfo,
}

-- The processes in the lines of the first table.
abbrev pub top_shown : List Line → List Process
top_shown [] = []
top_shown (top_entry i p t ∷ ls) = p ∷ top_shown ls
top_shown (_ ∷ ls) = top_shown ls

abbrev pub is_above : ℕ → Process → Bool
is_above t p = ltb t (total_cpu p)

abbrev pub count_above : ℕ → List Process → ℕ
count_above t ps = length (select (is_above t) ps)

abbrev pub IsDescending : List Process → Type 0
IsDescending [] = Unit
IsDescending (p ∷ []) = Unit
IsDescending (p ∷ q ∷ ps) = (total_cpu q ≤ total_cpu p) × IsDescending (q ∷ ps)

top_shown-append : (ls ms : List Line) → top_shown (ls ++ ms) ≡ top_shown ls ++ top_shown ms
top_shown-append [] ms = refl
top_shown-append (l ∷ ls) ms = ground (arith, top_shown-append ls ms)

top_shown-process_entry : (ps : List Process) → top_shown (map process_entry ps) ≡ []
top_shown-process_entry [] = refl
top_shown-process_entry (p ∷ ps) = top_shown-process_entry ps

top_shown-entries : (i n : ℕ) (ps : List Process) → top_shown (top_entries i n ps) ≡ take n ps
unfolding top_entries
top_shown-entries i zero ps = refl
top_shown-entries i (suc n) [] = refl
top_shown-entries i (suc n) (p ∷ ps) = ap (◌∷◌ p) (top_shown-entries (i + 1) n ps)

take_short : {A : Type 0} (n : ℕ) (xs : List A) → length xs ≤ n → take n xs ≡ xs
take_short zero [] h = refl
take_short zero (x ∷ xs) h = absurd (omega arith)
take_short (suc n) [] h = refl
take_short (suc n) (x ∷ xs) h = ap (◌∷◌ x) (take_short n xs (omega arith))

pub take-at_most : {A : Type 0} (n : ℕ) (xs : List A) → take (at_most n (length xs)) xs ≡ take n xs
take-at_most n xs = ground (arith, take_short n xs, take_short (length xs) xs)

-- Below the limit there is nothing more above it.
none_above :
    (t : ℕ) (p : Process) (ps : List Process)
    → IsDescending (p ∷ ps)
    → is_above t p ≡ false
    → count_above t ps ≡ 0
none_above t p [] h e = refl
none_above t p (q ∷ ps) h e = ground (arith, none_above t q ps h.1)

count_above-take :
    (t n : ℕ) (ps : List Process)
    → IsDescending ps
    → count_above t (take n ps) ≡ min n (count_above t ps)
count_above-take t zero ps h = omega arith
count_above-take t (suc n) [] h = omega arith
count_above-take t (suc n) (p ∷ []) h =
    ap (λ ps. count_above t (p ∷ ps)) (take_short n [] (omega arith)) ∙ ground arith
count_above-take t (suc n) (p ∷ q ∷ ps) h =
    ground (arith, count_above-take t n (q ∷ ps) h.1, none_above t p (q ∷ ps) h)

top_shown-process_lines : (ps : List Process) → top_shown (process_lines ps) ≡ []
unfolding process_lines
top_shown-process_lines ps =
    top_shown-append (map process_entry (take (at_most 50 (length ps)) ps)) _
    ∙ (ap
          (λ qs.
            qs ++ top_shown (if ltb 50 (length ps) then not_all_shown (length ps) ∷ [] else []))
          (top_shown-process_entry (take (at_most 50 (length ps)) ps))
        ∙ ground arith)

cpu_before-IsStrictWeak : IsStrictWeak cpu_before
unfolding cpu_before
cpu_before-IsStrictWeak = record {
  irreflexive = λ p. ground arith;
  transitive = λ p q r h k. ground arith;
  negatively_transitive = λ p q r h k. ground arith;
}

IsOrdered-cpu_before : (ps : List Process) → IsOrdered cpu_before ps → IsDescending ps
unfolding cpu_before
IsOrdered-cpu_before [] h = tt
IsOrdered-cpu_before (p ∷ []) h = tt
IsOrdered-cpu_before (p ∷ q ∷ ps) h = (ground arith, IsOrdered-cpu_before (q ∷ ps) h.1)

IsDescending-take : (n : ℕ) (ps : List Process) → IsDescending ps → IsDescending (take n ps)
IsDescending-take zero ps h = tt
IsDescending-take (suc n) [] h = tt
IsDescending-take (suc zero) (p ∷ ps) h = tt
IsDescending-take (suc (suc n)) (p ∷ []) h = tt
IsDescending-take (suc (suc n)) (p ∷ q ∷ ps) h = (h.0, IsDescending-take (suc n) (q ∷ ps) h.1)

module _ (sort_slice : SortSlice) (laws : IsSortSlice sort_slice) where
  open laws use {sorts, keeps}

  abbrev sorted : List Process → List Process
  sorted ps = sort_slice cpu_before ps

  sorted-IsDescending : (ps : List Process) → IsDescending (sorted ps)
  sorted-IsDescending ps =
      IsOrdered-cpu_before (sorted ps) (sorts cpu_before ps cpu_before-IsStrictWeak)

  top_shown-top_lines :
      (ps : List Process)
      → cpu_data_available ps ≡ true
      → top_shown (top_lines sort_slice ps) ≡ take 10 (sorted ps)
  unfolding top_lines
  top_shown-top_lines ps h = rw h (
      top_shown-entries 0 (at_most 10 (length (sorted ps))) (sorted ps)
      ∙ take-at_most 10 (sorted ps))

  top_shown-lines :
      (ps : List Process)
      → cpu_data_available ps ≡ true
      → top_shown
          (if is_empty ps then no_processes ∷ [] else top_lines sort_slice ps ++ process_lines ps)
        ≡ take 10 (sorted ps)
  unfolding cpu_data_available
  top_shown-lines [] h = absurd (ground arith)
  top_shown-lines (p ∷ ps) h =
      top_shown-append (top_lines sort_slice (p ∷ ps)) (process_lines (p ∷ ps))
      ∙ (ap (λ qs. top_shown (top_lines sort_slice (p ∷ ps)) ++ qs)
            (top_shown-process_lines (p ∷ ps))
          ∙ (append-nil (top_shown (top_lines sort_slice (p ∷ ps)))
              ∙ top_shown-top_lines (p ∷ ps) h))

  top_shown-print_sysinfo :
      (si : SysInfo)
      → cpu_data_available si.procesos ≡ true
      → top_shown (print_sysinfo sort_slice si) ≡ take 10 (sorted si.procesos)
  unfolding print_sysinfo
  top_shown-print_sysinfo si h = top_shown-lines si.procesos h

  -- Where some process has CPU time, the first table has more CPU time before less, and of the
  -- processes above any CPU time it shows ten, or all of them where there are fewer: for any
  -- `sort.Slice` that does what Go documents, whatever it makes of processes with the same CPU
  -- time.
  pub print_sysinfo_top :
      (si : SysInfo)
      → cpu_data_available si.procesos ≡ true
      → let shown = top_shown (print_sysinfo sort_slice si) in
        IsDescending shown × ((t : ℕ) → count_above t shown ≡ min 10 (count_above t si.procesos))
  print_sysinfo_top si h =
      let ps = sorted si.procesos in
      rw (top_shown-print_sysinfo si h) (
        IsDescending-take 10 ps (sorted-IsDescending si.procesos),
        λ t.
            count_above-take t 10 ps (sorted-IsDescending si.procesos)
            ∙ ap (min 10) (keeps cpu_before (is_above t) si.procesos),
      )
