-- ===== src/Examples/Stopping.antt =====
-- Interleavings of the goroutines of `main`.
use proyecto_1_sopes.Prelude.{◌≡◌, refl, true, false, List, [], ◌∷◌, ◌++◌, arith}
use proyecto_1_sopes.Startup.{
  Move, initial, main_moves, waiter_moves, handler_moves, panicked, run_moves, is_live, step,
  main_step, waiter_step, handler_step,
}
use proyecto_1_sopes.Startup.Shutdown.{
  is_past_start, is_waiting, exit_after_cleaning, panic_without_script,
}
use proyecto_1_sopes.Startup.Outcome.{is_left_running, signal_ends}

-- `main` has started the script and prepares the database.
abbrev script_started : List Move
script_started =
    main_moves true ∷ main_moves true ∷ main_moves true ∷ main_moves true ∷ main_moves true ∷ []

-- A signal, the two tests, `Kill`, detener.sh and the exit.
abbrev handled : List Move
handled =
    handler_moves ∷ handler_moves ∷ handler_moves ∷ handler_moves ∷ handler_moves ∷ handler_moves
    ∷ []

-- The script ends between the first test and the second.
abbrev racing : List Move
racing = script_started ++ (handler_moves ∷ handler_moves ∷ waiter_moves ∷ handler_moves ∷ [])

racing_panics : (run_moves racing initial).handler_at ≡ panicked
unfolding run_moves step is_live main_step waiter_step handler_step
racing_panics = refl

exit_after_cleaning_example : (run_moves (script_started ++ handled) initial).cleaned ≡ true
unfolding run_moves step is_live main_step waiter_step handler_step
exit_after_cleaning_example = exit_after_cleaning (script_started ++ handled) refl

panic_without_script_example :
    (is_past_start (run_moves racing initial).main_at ≡ true)
    × (is_waiting (run_moves racing initial).waiter_at ≡ false)
panic_without_script_example = panic_without_script racing racing_panics

-- The loop runs, and the script has not ended.
abbrev loop_running : List Move
loop_running = script_started ++ (main_moves true ∷ main_moves true ∷ [])

signal_ends_example :
    let s = run_moves handled (run_moves loop_running initial) in
    (s.cleaned ≡ true) × (is_left_running s ≡ false)
unfolding run_moves step is_live main_step waiter_step handler_step
signal_ends_example = signal_ends loop_running handled refl refl (omega arith)
