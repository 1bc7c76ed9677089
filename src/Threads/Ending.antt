-- ===== src/Threads/Ending.antt =====
-- Whether `_loop` comes to its end when the output thread has ended.
use osc2ftdidmx.Base.{
  ◌≡◌, ◌≢◌, ◌⊎◌, inl, inr, refl, true, false, Option, none, some, List, [], ◌∷◌, arith,
}
use osc2ftdidmx.Threads.{
  creating, polling, joining, over, ended, Threads, Action, main_step, test, signal, at_main,
  at_worker, act, then_run, run_actions,
}

-- `_loop` has stored to `done`, and the output thread ends only when `done` is set.
pub record Started (s : Threads) : Type 0 where
  pub stored : (s.main ≡ polling) ⊎ ((s.main ≡ joining) ⊎ (s.main ≡ over))
  pub seen : s.worker ≡ ended → s.done ≡ true

act-Started : (a : Action) (s : Threads) {t : Threads} → Started s → act a s ≡ some t → Started t
unfolding act at_main at_worker
act-Started a s started e = ground arith

then_run-some :
    (o : Option Threads) (k : Threads → Option Threads) {t : Threads}
    → then_run o k ≡ some t
    → (u : Threads) × (o ≡ some u) × (k u ≡ some t)
unfolding then_run
then_run-some none k e = cc
then_run-some (some u) k e = (u, refl, e)

run_actions-Started :
    (actions : List Action) (s : Threads) {t : Threads}
    → Started s
    → run_actions actions s ≡ some t
    → Started t
unfolding run_actions
run_actions-Started [] s started e = ground arith
run_actions-Started (a ∷ actions) s started e =
    let (u, first, rest) = then_run-some (act a s) (run_actions actions) e in
    run_actions-Started actions u (act-Started a s started first) rest

abbrev pub NoSignal : List Action → Type 0
NoSignal [] = Unit
NoSignal (a ∷ actions) = (a ≢ signal) × NoSignal actions

finish :
    (s : Threads)
    → Started s
    → s.worker ≡ ended
    → (more : List Action) × (t : Threads) × NoSignal more
      × (run_actions more s ≡ some t)
      × (t.main ≡ over)
unfolding run_actions then_run act at_main
finish s started e = elim started.stored [
  | inl loops ↦ (
    main_step ∷ main_step ∷ [],
    record s { main = over },
    ((λ e. cc), ((λ e. cc), tt)),
    ground (arith, started.seen e),
    refl,
  )
  | inr (inl joins) ↦
      (main_step ∷ [], record s { main = over }, ((λ e. cc), tt), ground arith, refl)
  | inr (inr gone) ↦ ([], s, tt, refl, gone)
]

-- Let `_loop` have stored to `done` before the output thread ended. Then, however the actions of the two
-- threads and signals are interleaved from there on, whenever the output thread has ended, `_loop` can
-- go on to its end without a further signal.
pub run_actions-ends :
    (actions : List Action) (s t : Threads)
    → Started s
    → run_actions actions s ≡ some t
    → t.worker ≡ ended
    → (more : List Action) × (u : Threads) × NoSignal more
      × (run_actions more t ≡ some u)
      × (u.main ≡ over)
run_actions-ends actions s t started e over_now =
    finish t (run_actions-Started actions s started e) over_now

-- The output thread has ended and `done` is false.
record Hung (s : Threads) : Type 0 where
  loops : s.main ≡ polling
  ended_already : s.worker ≡ ended
  not_done : s.done ≡ false

act-Hung :
    (a : Action) (s : Threads) {t : Threads} → Hung s → a ≢ signal → act a s ≡ some t → Hung t
unfolding act at_main at_worker
act-Hung a s hung n e = ground arith

run_actions-Hung :
    (actions : List Action) (s : Threads) {t : Threads}
    → Hung s
    → NoSignal actions
    → run_actions actions s ≡ some t
    → Hung t
unfolding run_actions
run_actions-Hung [] s hung n e = ground arith
run_actions-Hung (a ∷ actions) s hung n e =
    let (u, first, rest) = then_run-some (act a s) (run_actions actions) e in
    run_actions-Hung actions u (act-Hung a s hung n.0 first) n.1 rest

after_restart :
    (s s1 s2 s3 : Threads)
    → s.main ≡ creating
    → s.done ≡ true
    → act main_step s ≡ some s1
    → act test s1 ≡ some s2
    → act main_step s2 ≡ some s3
    → Hung s3
unfolding act at_main at_worker
after_restart s s1 s2 s3 begins set e1 e2 e3 = ground arith

-- Let `_loop` begin with `done` still set, as it does when it reconnects, and let the output thread test
-- `done` before `_loop` stores to it. Then no sequence of actions without a signal takes `_loop` out of
-- its loop, though the output thread has ended.
pub reconnecting_hangs :
    (s : Threads) (actions : List Action) (t : Threads)
    → s.main ≡ creating
    → s.done ≡ true
    → NoSignal actions
    → run_actions (main_step ∷ test ∷ main_step ∷ actions) s ≡ some t
    → (t.main ≡ polling) × (t.worker ≡ ended)
unfolding run_actions
reconnecting_hangs s actions t begins set n e =
    let (s1, e1, rest1) = then_run-some (act main_step s) _ e in
    let (s2, e2, rest2) = then_run-some (act test s1) _ rest1 in
    let (s3, e3, rest3) = then_run-some (act main_step s2) _ rest2 in
    let hung : Hung t =
      run_actions-Hung actions s3 (after_restart s s1 s2 s3 begins set e1 e2 e3) n rest3 in
    (hung.loops, hung.ended_already)
