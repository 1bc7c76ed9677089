-- ===== src/Threads.antt =====
-- The two threads of main.c and the flags `done` and `reconnect` that they share: `_sig`, the part of
-- `_loop` from `_thread_init` to `_thread_deinit`, and the loop of `_beat`, as interleaved actions. What
-- a round does is left out but for whether `_ftdi_xmit` fails in it.
pub mod Ending
use osc2ftdidmx.Base.{Bool, true, false, Option, none, some, List, [], ◌∷◌, if◌then◌else◌}

-- Where `_loop` is: before `pthread_create`, before the store to `done`, in its loop, before
-- `pthread_join`, or after it.
pub data Main : Type 0 where
  creating storing polling joining over : Main

-- Where `_beat` is: not created, before the test of `done`, in a round, or returned.
pub data Worker : Type 0 where
  absent testing working ended : Worker

pub record Threads : Type 0 where
  pub main : Main
  pub worker : Worker
  pub done : Bool
  pub reconnect : Bool

-- What happens next: a step of `_loop`, the worker's test of `done`, the end of a round with or without
-- a failure of `_ftdi_xmit`, or a signal.
pub data Action : Type 0 where
  main_step test round_ok round_fails signal : Action

unfoldable pub at_main : Threads → Option Threads
at_main s = elim s.main [
  | creating ↦ some (record s { main = storing; worker = testing })
  | storing ↦ some (record s { main = polling; done = false })
  | polling ↦ some (if s.done then record s { main = joining } else s)
  | joining ↦ elim s.worker [
    | ended ↦ some (record s { main = over })
    | absent ↦ none
    | testing ↦ none
    | working ↦ none
  ]
  | over ↦ none
]

unfoldable pub at_worker : Worker → Action → Threads → Option Threads
at_worker testing test s = some (record s { worker = if s.done then ended else working })
at_worker working round_ok s = some (record s { worker = testing })
at_worker working round_fails s = some (record s { worker = testing; done = true })
at_worker _ _ s = none

-- One action, where it is possible.
unfoldable pub act : Action → Threads → Option Threads
unfolding at_main at_worker
act main_step s = at_main s
act signal s = some (record s { done = true; reconnect = false })
act test s = at_worker s.worker test s
act round_ok s = at_worker s.worker round_ok s
act round_fails s = at_worker s.worker round_fails s

unfoldable pub then_run : Option Threads → (Threads → Option Threads) → Option Threads
then_run none k = none
then_run (some s) k = k s

-- A sequence of actions, in order.
unfoldable pub run_actions : List Action → Threads → Option Threads
unfolding act then_run
run_actions [] s = some s
run_actions (a ∷ actions) s = then_run (act a s) (run_actions actions)
