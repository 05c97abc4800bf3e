-- ===== src/Startup.antt =====
-- The three goroutines of Daemon/main.go: `main` up to its loop, the signal handler, and the one
-- that `RunStressContainerScript` leaves waiting for the script. They share `stressCmd`.
pub mod Shutdown
pub mod Outcome
use proyecto_1_sopes.Prelude.{
  ℕ, ◌+◌, ◌≡◌, Bool, true, false, not, ◌&&◌, List, [], ◌∷◌, if◌then◌else◌,
}

-- `stressCmd`: nil, or a command whose `Process` is nil until `Start` has succeeded.
pub data StressCmd : Type 0 where
  nil_cmd created started : StressCmd

-- What `main` does next.
pub data MainPoint : Type 0 where
  checking_grafana starting_grafana installing_modules creating_stress starting_stress : MainPoint
  opening_db creating_tables looping returned : MainPoint

-- Whether the script is waited for.
pub data WaiterPoint : Type 0 where
  not_started waiting done : WaiterPoint

-- What the handler does next; `panicked` is the end by a nil dereference.
pub data HandlerPoint : Type 0 where
  idle testing_cmd testing_process killing cleaning exiting exited panicked : HandlerPoint

pub record Program : Type 0 where
  pub stress_cmd : StressCmd
  pub main_at : MainPoint
  pub waiter_at : WaiterPoint
  pub handler_at : HandlerPoint
  pub killed : Bool  -- `Kill` has been called
  pub cleaned : Bool  -- `RunDetenerScript` has returned

abbrev pub initial : Program
initial = record {
  stress_cmd = nil_cmd;
  main_at = checking_grafana;
  waiter_at = not_started;
  handler_at = idle;
  killed = false;
  cleaned = false;
}

-- One action of `main`, with its outcome: the answer of `IsGrafanaRunning`, or whether the call
-- succeeded. Only a database that cannot be prepared ends the program.
unfoldable pub main_step : Bool → Program → Program
main_step ok s = elim s.main_at [
  | checking_grafana ↦ record s { main_at = if ok then installing_modules else starting_grafana }
  | starting_grafana ↦ record s { main_at = installing_modules }
  | installing_modules ↦ record s { main_at = creating_stress }
  | creating_stress ↦ record s { main_at = starting_stress; stress_cmd = created }
  | starting_stress ↦
      if ok
      then record s { main_at = opening_db; stress_cmd = started; waiter_at = waiting }
      else record s { main_at = opening_db; stress_cmd = nil_cmd }
  | opening_db ↦ record s { main_at = if ok then creating_tables else returned }
  | creating_tables ↦ record s { main_at = if ok then looping else returned }
  | looping ↦ s
  | returned ↦ s
]

-- `Wait` returns, and the reference is cleared.
unfoldable pub waiter_step : Program → Program
waiter_step s = elim s.waiter_at [
  | not_started ↦ s
  | waiting ↦ record s { waiter_at = done; stress_cmd = nil_cmd }
  | done ↦ s
]

-- One action of the handler. `stressCmd` is read three times: for each of the two tests and for
-- `Kill`; reading a field of nil is a panic.
unfoldable pub handler_step : Program → Program
handler_step s = elim s.handler_at [
  | idle ↦ record s { handler_at = testing_cmd }
  | testing_cmd ↦ elim s.stress_cmd [
    | nil_cmd ↦ record s { handler_at = cleaning }
    | created ↦ record s { handler_at = testing_process }
    | started ↦ record s { handler_at = testing_process }
  ]
  | testing_process ↦ elim s.stress_cmd [
    | nil_cmd ↦ record s { handler_at = panicked }
    | created ↦ record s { handler_at = cleaning }
    | started ↦ record s { handler_at = killing }
  ]
  | killing ↦ elim s.stress_cmd [
    | nil_cmd ↦ record s { handler_at = panicked }
    | created ↦ record s { handler_at = panicked }
    | started ↦ record s { handler_at = cleaning; killed = true }
  ]
  | cleaning ↦ record s { handler_at = exiting; cleaned = true }
  | exiting ↦ record s { handler_at = exited }
  | exited ↦ s
  | panicked ↦ s
]

-- The process ends with `main`, with `os.Exit` and with a panic.
unfoldable pub is_live : Program → Bool
is_live s =
    elim s.main_at [ returned ↦ false | _ ↦ true ]
    && elim s.handler_at [ exited ↦ false | panicked ↦ false | _ ↦ true ]

-- Which goroutine moves.
pub data Move : Type 0 where
  main_moves : Bool → Move
  waiter_moves handler_moves : Move

unfoldable pub step : Move → Program → Program
unfolding main_step waiter_step handler_step
step (main_moves ok) s = main_step ok s
step waiter_moves s = waiter_step s
step handler_moves s = handler_step s

-- An interleaving; after the end nothing moves.
unfoldable pub run_moves : List Move → Program → Program
unfolding step is_live
run_moves [] s = s
run_moves (m ∷ ms) s = run_moves ms (if is_live s then step m s else s)
