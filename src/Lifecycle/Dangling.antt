-- ===== src/Lifecycle/Dangling.antt =====
-- What `_osc_init` frees and closes that it did not acquire, when a ring buffer is refused.
use osc2ftdidmx.Base.{
  ℕ, ◌+◌, ◌≡◌, ◌∙◌, refl, ap, sym, subst, true, false, none, some, List, [], ◌∷◌, Bool, Bool-cases,
  inl, inr, ok, fault, ◌>>=◌, ℤ, pos, negsuc, arith,
}
use osc2ftdidmx.Ftdi.{Ids, is_zero, ftdi_init, ftdi_deinit}
use osc2ftdidmx.Lifecycle.Release.{Ringed}
use osc2ftdidmx.Lifecycle.Init.{set_rx-refused, set_rx-given, set_tx-given, with_rx, with_tx}
use osc2ftdidmx.Lifecycle.Loop.{Runs}
use osc2ftdidmx.Lifecycle.{
  Sys, Env, Result, returning, release, varchunk_free, free_ring, close_socket, stream_deinit,
  osc_deinit, osc_failure, check_rx, check_tx, osc_init, after_init, loop, open_stream, init_stream,
  open_device, run_threads, shut_down, with_trace, thread_deinit, sched_deinit, reconnecting,
  run_main,
}

osc_deinit-dangling :
    (s : Sys) (b : ℕ) → s.rx ≡ none → s.tx ≡ some b → s.live ≡ [] → osc_deinit s ≡ fault
unfolding osc_deinit stream_deinit free_ring varchunk_free release
osc_deinit-dangling s b e e' l = ground arith

osc_deinit-closes :
    (s : Sys)
    → s.rx ≡ none
    → s.tx ≡ none
    → s.fd ≡ pos 0
    → s.sock ≡ pos 0
    → (t : Sys) × (osc_deinit s ≡ ok t) × (t.closed ≡ 0 ∷ 0 ∷ s.closed)
unfolding osc_deinit stream_deinit free_ring close_socket
osc_deinit-closes s e e' fd sock = (stream_deinit s, ground arith, ground arith)

-- All is freed, `n` blocks were allocated so far, and the pointer to the second ring buffer is left.
record Dangles (n : ℕ) (s : Sys) : Type 0 where
  no_block : s.live ≡ []
  count : s.blocks ≡ n
  block : ℕ
  left : s.tx ≡ some block

abbrev EndsDangling : ℕ → Result → Type 0
EndsDangling n result = (r : ℤ) × (t : Sys) × (result ≡ ok (r, t)) × Dangles n t

Ringed-same : (s t : Sys) → t.rx ≡ s.rx → t.tx ≡ s.tx → t.live ≡ s.live → Ringed s → Ringed t
Ringed-same s t rx tx live ringed = record {
  rx_block = ringed.rx_block;
  tx_block = ringed.tx_block;
  rx_set = rx ∙ ringed.rx_set;
  tx_set = tx ∙ ringed.tx_set;
  both = live ∙ ringed.both;
  apart = ringed.apart;
}

-- `_osc_deinit` frees both ring buffers and keeps the pointers.
osc_deinit-left :
    (n : ℕ) (s : Sys) → Ringed s → s.blocks ≡ n → (t : Sys) × (osc_deinit s ≡ ok t) × Dangles n t
unfolding osc_deinit stream_deinit free_ring varchunk_free release
osc_deinit-left n s ringed count = (
  record (stream_deinit s) { live = [] },
  ground arith,
  record { no_block = refl; count = count; block = ringed.tx_block; left = ringed.tx_set },
)

osc_deinit-Dangles :
    (n : ℕ) (r : ℤ) (s : Sys)
    → Ringed s
    → s.blocks ≡ n
    → EndsDangling n (returning r (osc_deinit s))
osc_deinit-Dangles n r s ringed count =
    let (t, freed, dangles) = osc_deinit-left n s ringed count in
    (r, t, ap (returning r) freed, dangles)

module _ (env : Env) where
  -- What the threads do while they run allocates no ring buffer.
  abbrev pub KeepsBlocks : Type 0
  KeepsBlocks = (s : Sys) → (env.threads s).blocks ≡ s.blocks

  module _ (runs : Runs env) (keeps : KeepsBlocks) (n : ℕ) where
    run_threads-Dangles : (s : Sys) → Ringed s → s.blocks ≡ n → EndsDangling n (run_threads env s)
    unfolding run_threads shut_down with_trace thread_deinit sched_deinit
    run_threads-Dangles s ringed count = elim (Bool-cases (env.create_ok s)) [
      | inl made ↦
          let ran : Sys = env.threads (record s { running = true }) in
          let kept : Ringed ran =
            runs.keeps_rings (record s { running = true })
              (Ringed-same s (record s { running = true }) refl refl refl ringed) in
          rw made (
            osc_deinit-Dangles n (pos 0)
              (with_trace env (sched_deinit (thread_deinit ran)) (ftdi_deinit env.answer ran.trace))
              (Ringed-same ran _ refl refl refl kept) (keeps (record s { running = true }) ∙ count))
      | inr failed ↦ rw failed (
          osc_deinit-Dangles n (negsuc 0) (with_trace env s (ftdi_deinit env.answer s.trace))
            (Ringed-same s _ refl refl refl ringed) count)
    ]

    open_device-Dangles :
        (ids : Ids) (s : Sys) → Ringed s → s.blocks ≡ n → EndsDangling n (open_device env ids s)
    unfolding open_device with_trace
    open_device-Dangles ids s ringed count =
        let after : Sys = with_trace env s (ftdi_init env.answer ids s.trace).1 in
        let same : Ringed after = Ringed-same s after refl refl refl ringed in
        elim (Bool-cases (is_zero (ftdi_init env.answer ids s.trace).0)) [
          | inl opened ↦ rw opened (run_threads-Dangles after same count)
          | inr failed ↦ rw failed (osc_deinit-Dangles n (negsuc 0) after same count)
        ]

    init_stream-Dangles :
        (ids : Ids) (s : Sys)
        → Ringed s
        → s.blocks ≡ n
        → EndsDangling n (init_stream env s >>= after_init env ids)
    unfolding init_stream open_stream osc_failure after_init
    init_stream-Dangles ids s ringed count =
        let after : Sys = open_stream env s in
        let same : Ringed after = Ringed-same s after refl refl refl ringed in
        elim (Bool-cases (env.stream_init s).success) [
          | inl success ↦ rw success (open_device-Dangles ids after same count)
          | inr failed ↦
              let (t, freed, dangles) = osc_deinit-left n after same count in
              rw failed (
                negsuc 0,
                t,
                ap (λ m. returning (negsuc 0) m >>= after_init env ids) freed,
                dangles,
              )
        ]

    -- A round of `_loop` that gets memory for both ring buffers.
    loop-Dangles :
        (ids : Ids) (s : Sys)
        → s.live ≡ []
        → s.blocks + 2 ≡ n
        → env.new_ok s.blocks ≡ true
        → env.new_ok (s.blocks + 1) ≡ true
        → EndsDangling n (loop env ids s)
    unfolding loop osc_init check_rx check_tx
    loop-Dangles ids s empty count rx tx =
        let both : Sys = with_tx env (with_rx env s) in
        let ringed : Ringed both = record {
          rx_block = s.blocks;
          tx_block = s.blocks + 1;
          rx_set = refl;
          tx_set = refl;
          both = rw empty refl;
          apart = omega arith;
        } in
        subst (λ u. EndsDangling n (check_rx env u >>= after_init env ids))
          (sym (set_rx-given env s rx))
          (subst (λ u. EndsDangling n (check_tx env u >>= after_init env ids))
            (sym (set_tx-given env (with_rx env s) tx))
            (init_stream-Dangles ids both ringed (omega (arith, count))))

  -- A round of `_loop` with a pointer left from the round before.
  refused-fault :
      (ids : Ids) (s : Sys) (b : ℕ)
      → s.live ≡ []
      → s.tx ≡ some b
      → env.new_ok s.blocks ≡ false
      → loop env ids s ≡ fault
  unfolding loop osc_init check_rx osc_failure
  refused-fault ids s b empty dangling refused =
      subst (λ u. (check_rx env u >>= after_init env ids) ≡ fault)
        (sym (set_rx-refused env s refused))
        (ap (λ m. returning (negsuc 0) m >>= after_init env ids)
          (osc_deinit-dangling (record s { rx = none; blocks = s.blocks + 1 }) b refl dangling
            empty))

  -- Let no ring buffer be allocated when `main` calls `_loop`, let the first round get memory for both ring
  -- buffers, and let the threads allocate none and keep these. Then, however that round ends, when `main` runs
  -- `_loop` again to reconnect and `_osc_init` gets no memory for the first ring buffer, it frees the second ring
  -- buffer of the first round again: a fault.
  pub run_main_double_free :
      Runs env
      → KeepsBlocks
      → (ids : Ids) (reads : List Bool) (s : Sys) → s.live ≡ []
      → env.new_ok s.blocks ≡ true
      → env.new_ok (s.blocks + 1) ≡ true
      → env.new_ok (s.blocks + 2) ≡ false
      → run_main env ids (true ∷ reads) s ≡ fault
  unfolding run_main reconnecting
  run_main_double_free runs keeps ids reads s empty rx tx refused =
      let (r, t, ends, dangles) = loop-Dangles runs keeps (s.blocks + 2) ids s empty refl rx tx in
      let next : env.new_ok t.blocks ≡ false =
        subst (λ n. env.new_ok n ≡ false) (sym dangles.count) refused in
      ap (λ m. m >>= reconnecting env ids (true ∷ reads)) ends
      ∙ ap (λ m. m >>= reconnecting env ids reads)
          (refused-fault ids t dangles.block dangles.no_block dangles.left next)

  -- Where `_osc_init` gets no memory for the first ring buffer, and the stream has not been
  -- initialised, so that its descriptors are 0, it fails and closes descriptor 0, twice.
  pub osc_init_closes_stdin :
      (s : Sys)
      → s.live ≡ []
      → s.tx ≡ none
      → s.fd ≡ pos 0
      → s.sock ≡ pos 0
      → env.new_ok s.blocks ≡ false
      → (t : Sys) × (osc_init env s ≡ ok (negsuc 0, t)) × (t.closed ≡ 0 ∷ 0 ∷ s.closed)
  unfolding osc_init check_rx osc_failure
  osc_init_closes_stdin s empty no_tx fd sock refused =
      let without : Sys = record s { rx = none; blocks = s.blocks + 1 } in
      let (t, e, closes) = osc_deinit-closes without refl no_tx fd sock in
      (
        t,
        subst (λ u. check_rx env u ≡ ok (negsuc 0, t)) (sym (set_rx-refused env s refused))
            (ap (returning (negsuc 0)) e),
        closes,
      )
