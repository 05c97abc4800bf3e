-- ===== src/Startup/Shutdown.antt =====
-- The interleavings of the three goroutines of Daemon/main.go.
use proyecto_1_sopes.Prelude.{
  ℕ, suc, ◌-◌, ◌≤◌, ◌≡◌, refl, ◌∙◌, ap, subst, Bool, true, false, List, [], ◌∷◌, if◌then◌else◌,
  arith, Bool-cases, inl, inr,
}
use proyecto_1_sopes.Startup.{
  StressCmd, MainPoint, WaiterPoint, HandlerPoint, Program, nil_cmd, created, started,
  checking_grafana, starting_grafana, installing_modules, creating_stress, starting_stress,
  not_started, waiting, idle, testing_cmd, testing_process, killing, cleaning, exiting, exited,
  panicked, initial, main_step, waiter_step, handler_step, is_live, Move, main_moves, waiter_moves,
  handler_moves, step, run_moves,
}

-- Where `stressCmd` stands, given where `main` and the waiting goroutine are.
abbrev pub cmd_at : MainPoint → WaiterPoint → StressCmd
cmd_at starting_stress _ = created
cmd_at checking_grafana _ = nil_cmd
cmd_at starting_grafana _ = nil_cmd
cmd_at installing_modules _ = nil_cmd
cmd_at creating_stress _ = nil_cmd
cmd_at _ waiting = started
cmd_at _ _ = nil_cmd

-- `main` has tried to start the script.
abbrev pub is_past_start : MainPoint → Bool
is_past_start checking_grafana = false
is_past_start starting_grafana = false
is_past_start installing_modules = false
is_past_start creating_stress = false
is_past_start starting_stress = false
is_past_start _ = true

abbrev pub is_past_creation : MainPoint → Bool
is_past_creation starting_stress = true
is_past_creation m = is_past_start m

abbrev pub is_waiting : WaiterPoint → Bool
is_waiting waiting = true
is_waiting _ = false

-- What the handler's position says.
abbrev HandlerSound : HandlerPoint → Program → Type 0
HandlerSound testing_process s = is_past_creation s.main_at ≡ true
HandlerSound killing s = is_past_start s.main_at ≡ true
HandlerSound exiting s = s.cleaned ≡ true
HandlerSound exited s = s.cleaned ≡ true
HandlerSound panicked s = (is_past_start s.main_at ≡ true) × (is_waiting s.waiter_at ≡ false)
HandlerSound _ s = Unit

abbrev IsSound : Program → Type 0
IsSound s =
    (s.stress_cmd ≡ cmd_at s.main_at s.waiter_at)
    × (is_past_start s.main_at ≡ false → s.waiter_at ≡ not_started)
    × HandlerSound s.handler_at s

main_step-IsSound :
    (ok : Bool) (s : Program) → is_live s ≡ true → IsSound s → IsSound (main_step ok s)
unfolding main_step is_live
main_step-IsSound ok s l h = ground arith

waiter_step-IsSound : (s : Program) → IsSound s → IsSound (waiter_step s)
unfolding waiter_step
waiter_step-IsSound s h = ground arith

handler_step-IsSound : (s : Program) → IsSound s → IsSound (handler_step s)
unfolding handler_step
handler_step-IsSound s h = ground arith

step-IsSound : (m : Move) (s : Program) → is_live s ≡ true → IsSound s → IsSound (step m s)
unfolding step
step-IsSound (main_moves ok) s l h = main_step-IsSound ok s l h
step-IsSound waiter_moves s l h = waiter_step-IsSound s h
step-IsSound handler_moves s l h = handler_step-IsSound s h

turn-IsSound :
    (m : Move) (s : Program) (b : Bool)
    → is_live s ≡ b
    → IsSound s
    → IsSound (if b then step m s else s)
turn-IsSound m s true l h = step-IsSound m s l h
turn-IsSound m s false l h = h

run_moves-IsSound : (ms : List Move) (s : Program) → IsSound s → IsSound (run_moves ms s)
unfolding run_moves
run_moves-IsSound [] s h = h
run_moves-IsSound (m ∷ ms) s h =
    run_moves-IsSound ms (if is_live s then step m s else s) (turn-IsSound m s (is_live s) refl h)

initial-IsSound : IsSound initial
initial-IsSound = (refl, (λ _. refl), tt)

-- `stressCmd` stands where `main` and the waiting goroutine have left it.
pub run_moves-cmd_at :
    (ms : List Move) → let s = run_moves ms initial in s.stress_cmd ≡ cmd_at s.main_at s.waiter_at
run_moves-cmd_at ms = (run_moves-IsSound ms initial initial-IsSound).0

-- In every interleaving, a program that the handler has ended with `os.Exit` has called
-- `RunDetenerScript` before.
pub exit_after_cleaning :
    (ms : List Move)
    → (run_moves ms initial).handler_at ≡ exited
    → (run_moves ms initial).cleaned ≡ true
exit_after_cleaning ms h =
    let (_, _, k) = run_moves-IsSound ms initial initial-IsSound in
    subst (λ p. HandlerSound p (run_moves ms initial)) h k

-- In every interleaving, the handler reads a field of nil only after `main` has tried to start the
-- script, and when the script is not being waited for: it could not be started, or it has ended.
pub panic_without_script :
    (ms : List Move)
    → (run_moves ms initial).handler_at ≡ panicked
    → (is_past_start (run_moves ms initial).main_at ≡ true)
      × (is_waiting (run_moves ms initial).waiter_at ≡ false)
panic_without_script ms h =
    let (_, _, k) = run_moves-IsSound ms initial initial-IsSound in
    subst (λ p. HandlerSound p (run_moves ms initial)) h k

-- The most actions that the handler has before it.
abbrev pub left : HandlerPoint → ℕ
left idle = 6
left testing_cmd = 5
left testing_process = 4
left killing = 3
left cleaning = 2
left exiting = 1
left exited = 0
left panicked = 0

abbrev pub handler_count : List Move → ℕ
handler_count [] = 0
handler_count (handler_moves ∷ ms) = suc (handler_count ms)
handler_count (main_moves _ ∷ ms) = handler_count ms
handler_count (waiter_moves ∷ ms) = handler_count ms

run_moves_dead : (ms : List Move) (s : Program) → is_live s ≡ false → run_moves ms s ≡ s
unfolding run_moves
run_moves_dead [] s h = refl
run_moves_dead (m ∷ ms) s h = ground (arith, run_moves_dead ms s)

left_zero : (s : Program) → left s.handler_at ≤ 0 → is_live s ≡ false
unfolding is_live
left_zero s h = ground arith

left-handler_step : (s : Program) → left (handler_step s).handler_at ≤ left s.handler_at - 1
unfolding handler_step
left-handler_step s = ground arith

main_step-handler_at : (ok : Bool) (s : Program) → (main_step ok s).handler_at ≡ s.handler_at
unfolding main_step
main_step-handler_at ok s = ground arith

waiter_step-handler_at : (s : Program) → (waiter_step s).handler_at ≡ s.handler_at
unfolding waiter_step
waiter_step-handler_at s = ground arith

left-step :
    (m : Move) (ms : List Move) (s : Program)
    → left s.handler_at ≤ handler_count (m ∷ ms)
    → left (step m s).handler_at ≤ handler_count ms
unfolding step
left-step (main_moves ok) ms s h = omega (arith, ap left (main_step-handler_at ok s))
left-step waiter_moves ms s h = omega (arith, ap left (waiter_step-handler_at s))
left-step handler_moves ms s h = omega (arith, left-handler_step s)

-- The program has ended once the handler has had as many turns as it has actions before it.
pub run_moves_ended :
    (ms : List Move) (s : Program)
    → left s.handler_at ≤ handler_count ms
    → is_live (run_moves ms s) ≡ false
unfolding run_moves
run_moves_ended [] s h = left_zero s h
run_moves_ended (m ∷ ms) s h = elim (Bool-cases (is_live s)) [
  | inl l ↦ rw l (run_moves_ended ms (step m s) (left-step m ms s h))
  | inr l ↦ rw l (ap is_live (run_moves_dead ms s l) ∙ l)
]
