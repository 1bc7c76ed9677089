-- ===== src/Tests/Resources.antt =====
-- The theorems on acquiring and releasing, at concrete runs.
use osc2ftdidmx.Base.{ltb, ◌≡◌, refl, true, false, none, [], ◌∷◌, ok, fault, pos, negsuc, inr}
use osc2ftdidmx.Ftdi.{Ids}
use osc2ftdidmx.Lifecycle.{Sys, Env, osc_init, loop, run_main}
use osc2ftdidmx.Lifecycle.Release.{Idle}
use osc2ftdidmx.Lifecycle.Loop.{Runs, Released, loop-Released, run_main-Released}
use osc2ftdidmx.Lifecycle.Dangling.{run_main_double_free, osc_init_closes_stdin}

abbrev ids : Ids
ids = record { vid = 0x0403; pid = 0x6001; des = none; sid = none }

-- All calls succeed, and the threads only run.
abbrev env : Env
env = record {
  new_ok = λ n. true;
  stream_init = λ s. record { success = true; fd = negsuc 0; sock = pos 4 };
  answer = λ t c. pos 0;
  create_ok = λ s. true;
  threads = λ s. s;
}

-- Memory for ring buffers runs out.
abbrev poor : Env
poor = record env { new_ok = λ n. false }

env-Runs : Runs env
env-Runs = record { keeps_rings = λ s r. r; keeps_device = λ s d. d }

-- `app` of `main` when `_loop` is called first: all of its bytes are 0.
abbrev zeroed : Sys
zeroed = record {
  rx = none;
  tx = none;
  live = [];
  blocks = 0;
  fd = pos 0;
  sock = pos 0;
  closed = [];
  trace = [];
  running = false;
  list = [];
}

zeroed-Idle : Idle zeroed
zeroed-Idle = record { no_block = refl; no_device = refl; no_thread = refl; no_message = refl }

loop-Released_example : Released env (loop env ids zeroed)
loop-Released_example = loop-Released env env-Runs ids zeroed zeroed-Idle (inr (λ n. refl))

run_main-Released_example : Released env (run_main env ids (true ∷ true ∷ false ∷ []) zeroed)
run_main-Released_example =
    run_main-Released env env-Runs (λ n. refl) ids (true ∷ true ∷ false ∷ []) zeroed zeroed-Idle

-- Memory for two ring buffers, and then no more.
abbrev scarce : Env
scarce = record env { new_ok = λ n. ltb n 2 }

scarce-Runs : Runs scarce
scarce-Runs = record { keeps_rings = λ s r. r; keeps_device = λ s d. d }

run_main_double_free_example : run_main scarce ids (true ∷ []) zeroed ≡ fault
run_main_double_free_example =
    run_main_double_free scarce scarce-Runs (λ s. refl) ids [] zeroed refl refl refl refl

osc_init_closes_stdin_example :
    (t : Sys) × (osc_init poor zeroed ≡ ok (negsuc 0, t)) × (t.closed ≡ 0 ∷ 0 ∷ [])
osc_init_closes_stdin_example = osc_init_closes_stdin poor zeroed refl refl refl refl refl
