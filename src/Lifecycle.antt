-- ===== src/Lifecycle.antt =====
-- Acquiring and releasing in main.c: `_osc_init`, `_osc_deinit`, `_thread_init`, `_thread_deinit`,
-- `_sched_deinit`, `_loop` and the reconnecting loop of `main`. The two ring buffers are blocks with
-- a number; freeing a block that is not live is a fault. `varchunk_new`, the stream of osc.lv2,
-- libftdi, `pthread_create` and what the threads do while they run are parameters.
pub mod Release
pub mod Init
pub mod Loop
pub mod Dangling
use osc2ftdidmx.Base.{
  ℕ, zero, suc, ◌+◌, ◌<◌, Bool, true, false, Option, none, some, List, [], ◌∷◌, ◌==◌, if◌then◌else◌,
  Outcome, ok, fault, no_fuel, ◌>>=◌, ℤ, pos, negsuc,
}
use osc2ftdidmx.Sched.{Sched}
use osc2ftdidmx.Ftdi.{Call, Trace, Ids, is_zero, ftdi_init, ftdi_deinit}

-- The fields `rb.rx`, `rb.tx`, `stream.fd`, `stream.sock`, `list` of `app_t`; the blocks that are
-- live, the number of blocks so far, the descriptors that were closed (the newest first), the calls
-- of libftdi, and whether the output thread runs.
pub record Sys : Type 0 where
  pub rx : Option ℕ
  pub tx : Option ℕ
  pub live : List ℕ
  pub blocks : ℕ
  pub fd : ℤ
  pub sock : ℤ
  pub closed : List ℕ
  pub trace : Trace
  pub running : Bool
  pub list : List Sched

-- What `lv2_osc_stream_init` leaves and whether it succeeds.
pub record Opened : Type 0 where
  pub success : Bool
  pub fd : ℤ
  pub sock : ℤ

pub record Env : Type 0 where
  -- whether the n-th `varchunk_new` succeeds
  pub new_ok : ℕ → Bool
  pub stream_init : Sys → Opened
  pub answer : Trace → Call → ℤ
  pub create_ok : Sys → Bool
  -- what the threads have done when `done` is seen
  pub threads : Sys → Sys

unfoldable pub release : ℕ → List ℕ → Option (List ℕ)
release b [] = none
release b (x ∷ live) =
    let rest = release b live in
    if b == x then some live else elim rest [ none ↦ none | some l ↦ some (x ∷ l) ]

-- `varchunk_free`
unfoldable pub varchunk_free : ℕ → Sys → Outcome Sys
unfolding release
varchunk_free b s = elim (release b s.live) [ none ↦ fault | some l ↦ ok (record s { live = l }) ]

-- `if(p) varchunk_free(p)`
unfoldable pub free_ring : Option ℕ → Sys → Outcome Sys
unfolding varchunk_free
free_ring none s = ok s
free_ring (some b) s = varchunk_free b s

-- `_close_socket`, on the list of closed descriptors.
unfoldable pub close_socket : ℤ → List ℕ → List ℕ
close_socket (pos n) closed = n ∷ closed
close_socket (negsuc n) closed = closed

-- `lv2_osc_stream_deinit`
unfoldable pub stream_deinit : Sys → Sys
unfolding close_socket
stream_deinit s = record s {
  fd = negsuc 0;
  sock = negsuc 0;
  closed = close_socket s.sock (close_socket s.fd s.closed);
}

-- `_osc_deinit`; the pointers keep their values.
unfoldable pub osc_deinit : Sys → Outcome Sys
unfolding stream_deinit free_ring
osc_deinit s = free_ring s.rx (stream_deinit s) >>= free_ring s.tx

abbrev pub Result : Type 0
Result = Outcome (ℤ × Sys)

-- `return r` after a step that returns nothing.
abbrev pub returning : ℤ → Outcome Sys → Result
returning r m = m >>= λ s. ok (r, s)

-- `thread_deinit` joins the thread, and `_sched_deinit` frees the list.
unfoldable pub thread_deinit : Sys → Sys
thread_deinit s = record s { running = false }

unfoldable pub sched_deinit : Sys → Sys
sched_deinit s = record s { list = [] }

module _ (env : Env) where
  -- `varchunk_new`
  unfoldable pub varchunk_new : Sys → Option ℕ × Sys
  varchunk_new s =
      if env.new_ok s.blocks
      then (some s.blocks, record s { live = s.blocks ∷ s.live; blocks = s.blocks + 1 })
      else (none, record s { blocks = s.blocks + 1 })

  unfoldable pub set_rx : Sys → Sys
  unfolding varchunk_new
  set_rx s = let (p, s') = varchunk_new s in record s' { rx = p }

  unfoldable pub set_tx : Sys → Sys
  unfolding varchunk_new
  set_tx s = let (p, s') = varchunk_new s in record s' { tx = p }

  unfoldable pub open_stream : Sys → Sys
  open_stream s = let opened = env.stream_init s in record s { fd = opened.fd; sock = opened.sock }

  abbrev pub is_null : Option ℕ → Bool
  is_null none = true
  is_null (some b) = false

  -- The label `failure` of `_osc_init`.
  unfoldable pub osc_failure : Sys → Result
  unfolding osc_deinit
  osc_failure s = returning (negsuc 0) (osc_deinit s)

  -- `_osc_init` from `lv2_osc_stream_init` on.
  unfoldable pub init_stream : Sys → Result
  unfolding open_stream osc_failure
  init_stream s =
      if (env.stream_init s).success then ok (pos 0, open_stream s) else osc_failure (open_stream s)

  -- `_osc_init` from the test of `rb.tx` on.
  unfoldable pub check_tx : Sys → Result
  unfolding init_stream osc_failure
  check_tx s = if is_null s.tx then osc_failure s else init_stream s

  -- `_osc_init` from the test of `rb.rx` on.
  unfoldable pub check_rx : Sys → Result
  unfolding set_tx check_tx osc_failure
  check_rx s = if is_null s.rx then osc_failure s else check_tx (set_tx s)

  -- `_osc_init`
  unfoldable pub osc_init : Sys → Result
  unfolding set_rx check_rx
  osc_init s = check_rx (set_rx s)

  unfoldable pub with_trace : Sys → Trace → Sys
  with_trace s t = record s { trace = t }

  -- The end of `_loop`, after the threads have run.
  unfoldable pub shut_down : Sys → Result
  unfolding thread_deinit sched_deinit with_trace osc_deinit
  shut_down s =
      let s1 = sched_deinit (thread_deinit s) in
      returning (pos 0) (osc_deinit (with_trace s1 (ftdi_deinit env.answer s1.trace)))

  -- `_loop` from `_thread_init` on.
  unfoldable pub run_threads : Sys → Result
  unfolding shut_down with_trace osc_deinit
  run_threads s =
      if env.create_ok s
      then shut_down (env.threads (record s { running = true }))
      else returning (negsuc 0) (osc_deinit (with_trace s (ftdi_deinit env.answer s.trace)))

  -- `_loop` from `_ftdi_init` on.
  unfoldable pub open_device : Ids → Sys → Result
  unfolding run_threads with_trace osc_deinit
  open_device ids s =
      let (r, t) = ftdi_init env.answer ids s.trace in
      if is_zero r
      then run_threads (with_trace s t)
      else returning (negsuc 0) (osc_deinit (with_trace s t))

  unfoldable pub after_init : Ids → ℤ × Sys → Result
  unfolding open_device
  after_init ids (r, s) = if is_zero r then open_device ids s else ok (r, s)

  -- `_loop`
  unfoldable pub loop : Ids → Sys → Result
  unfolding osc_init after_init
  loop ids s = osc_init s >>= after_init ids

  -- `_loop` and then the loop of `main`, where the list tells for each round whether `reconnect` is
  -- set when it is read.
  unfoldable pub reconnecting : Ids → List Bool → ℤ × Sys → Result
  unfolding loop
  reconnecting ids [] result = ok result
  reconnecting ids (false ∷ reads) result = ok result
  reconnecting ids (true ∷ reads) (r, s) = loop ids s >>= reconnecting ids reads

  unfoldable pub run_main : Ids → List Bool → Sys → Result
  unfolding reconnecting
  run_main ids reads s = loop ids s >>= reconnecting ids reads
