-- ===== src/Metrics/Summary.antt =====
-- The map of counts of `InsertProcessStateSummary`, Daemon/insert_system.go.
use proyecto_1_sopes.Prelude.{
  ℕ, suc, ◌+◌, ◌≡◌, refl, true, List, [], ◌∷◌, if◌then◌else◌, Map, keys, lookup, insert, Bytes,
  bytes_key, bytes_eq, bytes_eq_iff, contains, lookup-insert, contains-keys-insert,
  insert-IsDistinct, IsDistinct, arith, length, ltb,
}
use proyecto_1_sopes.Snapshot.{Process}
use proyecto_1_sopes.Cpu.{value_or_zero}
use proyecto_1_sopes.Metrics.{state_key, count_states}

-- The processes in a state.
abbrev pub in_state : Bytes → List Process → ℕ
in_state k [] = 0
in_state k (p ∷ ps) = if bytes_eq (state_key p.state) k then suc (in_state k ps) else in_state k ps

abbrev pub sum_values : Map Bytes ℕ → ℕ
sum_values [] = 0
sum_values ((_, n) ∷ m) = n + sum_values m

lookup-count_states :
    (k : Bytes) (ps : List Process) (m : Map Bytes ℕ)
    → value_or_zero (lookup k (count_states ps m)) ≡ value_or_zero (lookup k m) + in_state k ps
unfolding count_states
lookup-count_states k [] m = omega arith
lookup-count_states k (p ∷ ps) m =
    let s = state_key p.state in
    let n = value_or_zero (lookup s m) + 1 in
    ground (arith, bytes_eq_iff s k, lookup-count_states k ps (insert s n m), lookup-insert s k n m)

sum_values-insert :
    (k : Bytes) (n : ℕ) (m : Map Bytes ℕ)
    → sum_values (insert k n m) + value_or_zero (lookup k m) ≡ sum_values m + n
sum_values-insert k n [] = omega arith
sum_values-insert k n ((j, v) ∷ m) = ground (arith, sum_values-insert k n m)

sum_values-count_states :
    (ps : List Process) (m : Map Bytes ℕ)
    → sum_values (count_states ps m) ≡ sum_values m + length ps
unfolding count_states
sum_values-count_states [] m = omega arith
sum_values-count_states (p ∷ ps) m =
    let s = state_key p.state in
    let n = value_or_zero (lookup s m) + 1 in
    omega (arith, sum_values-count_states ps (insert s n m), sum_values-insert s n m)

count_states-IsDistinct :
    (ps : List Process) (m : Map Bytes ℕ)
    → IsDistinct (keys m)
    → IsDistinct (keys (count_states ps m))
unfolding count_states
count_states-IsDistinct [] m h = h
count_states-IsDistinct (p ∷ ps) m h =
    let s = state_key p.state in
    let n = value_or_zero (lookup s m) + 1 in
    count_states-IsDistinct ps (insert s n m) (insert-IsDistinct s n m h)

contains-count_states :
    (k : Bytes) (ps : List Process) (m : Map Bytes ℕ)
    → contains k (keys (count_states ps m))
      ≡ (if ltb 0 (in_state k ps) then true else contains k (keys m))
unfolding count_states
contains-count_states k [] m = refl
contains-count_states k (p ∷ ps) m =
    let s = state_key p.state in
    let n = value_or_zero (lookup s m) + 1 in
    ground (
      arith,
      bytes_eq_iff s k,
      contains-count_states k ps (insert s n m),
      contains-keys-insert s k n m,
    )

-- The map of counts has a key for exactly the states that a process is in, no key twice, and under
-- each the number of processes in that state; the counts add up to the number of processes.
pub count_states_lem :
    (ps : List Process)
    → IsDistinct (keys (count_states ps []))
      × ((k : Bytes) → contains k (keys (count_states ps [])) ≡ ltb 0 (in_state k ps))
      × ((k : Bytes) → value_or_zero (lookup k (count_states ps [])) ≡ in_state k ps)
      × (sum_values (count_states ps []) ≡ length ps)
count_states_lem ps = (
  count_states-IsDistinct ps [] tt,
  (λ k. ground (arith, contains-count_states k ps [])),
  (λ k. omega (arith, lookup-count_states k ps [])),
  omega (arith, sum_values-count_states ps []),
)
