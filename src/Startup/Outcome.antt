-- ===== src/Startup/Outcome.antt =====
-- How the program of Daemon/main.go ends after a signal that arrives while the loop runs.
use proyecto_1_sopes.Prelude.{
  ◌≤◌, ◌≡◌, ap, Bool, true, false, not, ◌&&◌, ◌||◌, List, [], ◌∷◌, if◌then◌else◌, arith,
}
use proyecto_1_sopes.Startup.{
  HandlerPoint, Program, nil_cmd, started, looping, idle, testing_process, killing, cleaning,
  exiting, exited, panicked, initial, main_step, waiter_step, handler_step, is_live, Move,
  main_moves, waiter_moves, handler_moves, step, run_moves,
}
use proyecto_1_sopes.Startup.Shutdown.{
  is_waiting, cmd_at, left, handler_count, run_moves-cmd_at, run_moves_ended,
}

-- The script is still being waited for and nobody has killed it.
abbrev pub is_left_running : Program → Bool
is_left_running s = is_waiting s.waiter_at && not s.killed

-- The ends that a signal may lead to: `os.Exit` after `RunDetenerScript`, with no script left
-- running, or a panic, where the script was waited for when the loop was reached and no longer is.
abbrev pub EndsAt : Bool → HandlerPoint → Program → Type 0
EndsAt waited exited s = (s.cleaned ≡ true) × (is_left_running s ≡ false)
EndsAt waited panicked s = (is_waiting s.waiter_at ≡ false) × (waited ≡ true)
EndsAt waited _ s = ⊥

-- What the handler's position says while the loop runs.
abbrev ServingAt : Bool → HandlerPoint → Program → Type 0
ServingAt waited testing_process s = waited ≡ true
ServingAt waited killing s = waited ≡ true
ServingAt waited cleaning s = is_left_running s ≡ false
ServingAt waited exiting s = (s.cleaned ≡ true) × (is_left_running s ≡ false)
ServingAt waited exited s = (s.cleaned ≡ true) × (is_left_running s ≡ false)
ServingAt waited panicked s = (is_waiting s.waiter_at ≡ false) × (waited ≡ true)
ServingAt waited _ s = Unit

abbrev IsServing : Bool → Program → Type 0
IsServing waited s =
    (s.main_at ≡ looping)
    × (s.stress_cmd ≡ (if is_waiting s.waiter_at then started else nil_cmd))
    × ((waited || not (is_waiting s.waiter_at)) ≡ true)
    × ServingAt waited s.handler_at s

main_step-IsServing : (w ok : Bool) (s : Program) → IsServing w s → IsServing w (main_step ok s)
unfolding main_step
main_step-IsServing w ok s h = ground arith

waiter_step-IsServing : (w : Bool) (s : Program) → IsServing w s → IsServing w (waiter_step s)
unfolding waiter_step
waiter_step-IsServing w s h = ground arith

handler_step-IsServing : (w : Bool) (s : Program) → IsServing w s → IsServing w (handler_step s)
unfolding handler_step
handler_step-IsServing w s h = ground arith

turn-IsServing :
    (w : Bool) (m : Move) (s : Program) (b : Bool)
    → IsServing w s
    → IsServing w (if b then step m s else s)
unfolding step
turn-IsServing w m s false h = h
turn-IsServing w (main_moves ok) s true h = main_step-IsServing w ok s h
turn-IsServing w waiter_moves s true h = waiter_step-IsServing w s h
turn-IsServing w handler_moves s true h = handler_step-IsServing w s h

run_moves-IsServing :
    (w : Bool) (ms : List Move) (s : Program) → IsServing w s → IsServing w (run_moves ms s)
unfolding run_moves
run_moves-IsServing w [] s h = h
run_moves-IsServing w (m ∷ ms) s h =
    run_moves-IsServing w ms (if is_live s then step m s else s)
      (turn-IsServing w m s (is_live s) h)

looping-IsServing :
    (s : Program)
    → s.stress_cmd ≡ cmd_at s.main_at s.waiter_at
    → s.main_at ≡ looping
    → s.handler_at ≡ idle
    → IsServing (is_waiting s.waiter_at) s
looping-IsServing s c m h = ground arith

ended-EndsAt :
    (w : Bool) (s : Program) → IsServing w s → is_live s ≡ false → EndsAt w s.handler_at s
unfolding is_live
ended-EndsAt w s h e = ground arith

-- However the program has come to its loop without a signal, and however the goroutines interleave
-- from then on: after six turns of the handler, the arrival of the signal included, the program
-- has ended, either by `os.Exit` with `RunDetenerScript` called before and the script killed or
-- no longer waited for, or by a panic, which needs that the script was waited for when the loop was
-- reached and no longer is. That `RunDetenerScript` returns is one of the turns.
pub signal_ends :
    (before ms : List Move)
    → (run_moves before initial).main_at ≡ looping
    → (run_moves before initial).handler_at ≡ idle
    → 6 ≤ handler_count ms
    → let s = run_moves before initial in
      let s' = run_moves ms s in EndsAt (is_waiting s.waiter_at) s'.handler_at s'
signal_ends before ms m h n =
    let s = run_moves before initial in
    let w = is_waiting s.waiter_at in
    ended-EndsAt w (run_moves ms s)
      (run_moves-IsServing w ms s (looping-IsServing s (run_moves-cmd_at before) m h))
      (run_moves_ended ms s (omega (arith, ap left h)))
