-- ===== src/Tests/Interleavings.antt =====
-- Interleavings of the two threads, and the theorems at some of them.
use osc2ftdidmx.Base.{◌≡◌, inl, refl, true, false, some, List, [], ◌∷◌}
use osc2ftdidmx.Threads.{
  creating, polling, over, absent, ended, testing, Threads, Action, main_step, test, round_ok,
  round_fails, act, at_main, at_worker, then_run, run_actions,
}
use osc2ftdidmx.Threads.Ending.{NoSignal, run_actions-ends, reconnecting_hangs}

-- `_loop` polls, and the output thread runs.
abbrev running : Threads
running = record { main = polling; worker = testing; done = false; reconnect = true }

abbrev failing : List Action
failing = test ∷ round_ok ∷ test ∷ round_fails ∷ test ∷ []

abbrev failed : Threads
failed = record { main = polling; worker = ended; done = true; reconnect = true }

failing-failed : run_actions failing running ≡ some failed
unfolding run_actions then_run act at_main at_worker
failing-failed = refl

run_actions-ends_example :
    (more : List Action) × (u : Threads) × NoSignal more
    × (run_actions more failed ≡ some u)
    × (u.main ≡ over)
run_actions-ends_example =
    run_actions-ends failing running failed (record { stored = inl refl; seen = λ e. cc })
      failing-failed refl

-- `_loop` runs again after a failure.
abbrev restarted : Threads
restarted = record { main = creating; worker = absent; done = true; reconnect = true }

abbrev hung : Threads
hung = record { main = polling; worker = ended; done = false; reconnect = true }

restarted-hung :
    run_actions (main_step ∷ test ∷ main_step ∷ main_step ∷ main_step ∷ []) restarted ≡ some hung
unfolding run_actions then_run act at_main at_worker
restarted-hung = refl

reconnecting_hangs_example : (hung.main ≡ polling) × (hung.worker ≡ ended)
reconnecting_hangs_example =
    reconnecting_hangs restarted (main_step ∷ main_step ∷ []) hung refl refl
      ((λ e. cc), ((λ e. cc), tt)) restarted-hung
