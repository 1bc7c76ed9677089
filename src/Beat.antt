-- ===== src/Beat.antt =====
-- One round of the output thread, `_beat` of main.c: the packets of the ring buffer and the messages
-- that are due are handled, the frame is filled from the slots and sent, and the time of the next
-- round is computed. What the round finds in the ring buffer, whether it was slept up to, and the
-- answers of libftdi are parameters.
pub mod Time
pub mod Frame
pub mod Drain
pub mod Round
pub mod Output
pub mod Bytes
pub mod Ring
pub mod Encoded
use osc2ftdidmx.Base.{
  ℕ, zero, suc, ◌+◌, ◌-◌, ◌*◌, ◌/◌, ◌<◌, Bool, true, false, not, ◌||◌, Option, none, some, List, [],
  ◌∷◌, ◌==◌, ltb, if◌then◌else◌, length, get_elem?, set, drop, Outcome, ok, fault, no_fuel, ◌>>=◌,
  or_fault, ℤ, pos, negsuc, ◌+ℤ◌,
}
use osc2ftdidmx.Slot.{Slot, slot_get_val}
use osc2ftdidmx.Dispatch.{State}
use osc2ftdidmx.Sched.{Timespec, Sched, nsecs, is_before}
use osc2ftdidmx.Packet.{PacketOps, App, immediate, handle_osc_packet}
use osc2ftdidmx.Ftdi.{Call, Trace, ftdi_xmit}

-- A chunk of the ring buffer, as `varchunk_read_request` returns it.
pub record Chunk : Type 0 where
  pub buf : List ℕ
  pub len : ℕ

-- `step_ns`; a division by zero is undefined.
unfoldable pub step_ns : ℕ → Option ℕ
step_ns fps = if fps == 0 then none else some (nsecs / fps)

-- The `while` loop that carries nanoseconds into seconds.
unfoldable pub carry : ℕ → Timespec → Outcome Timespec
carry zero to = no_fuel
carry (suc fuel) to =
    let rest = carry fuel (record { tv_sec = to.tv_sec +ℤ pos 1; tv_nsec = to.tv_nsec - nsecs }) in
    if ltb to.tv_nsec nsecs then ok to else rest

-- The time of the next round. The loop runs at most `tv_nsec / NSECS` times.
unfoldable pub next_beat : ℕ → Timespec → Outcome Timespec
unfolding carry
next_beat step to =
    let nsec = to.tv_nsec + step in
    carry (nsec / nsecs + 1) (record { tv_sec = to.tv_sec; tv_nsec = nsec })

-- The loop over the 512 slots that fills `dmx.data`, from index `i` on with `left` rounds left.
unfoldable pub fill : List Slot → ℕ → ℕ → List ℕ → Outcome (List ℕ)
fill slots i zero dmx = ok dmx
fill slots i (suc left) dmx =
    or_fault (get_elem? slots i) >>= λ slot. fill slots (i + 1) left (set dmx i (slot_get_val slot))

-- The packed struct `dmx`, and its size.
pub record Dmx : Type 0 where
  pub start_code : ℕ
  pub values : List ℕ

abbrev pub sizeof_dmx : ℕ
sizeof_dmx = 1 + 512

pub record Beat (R A : Type 0) : Type 0 where
  pub app : App R A
  pub to : Timespec
  pub dmx : Dmx
  pub done : Bool
  pub trace : Trace

module _ {R A : Type 0} (o : PacketOps R A) where
  -- `_handle_osc_packet` with fuel above the length of the packet.
  unfoldable pub handle : App R A → List ℕ → ℕ → Outcome (App R A)
  handle app buf len = handle_osc_packet o (length buf + 1) app immediate buf len

  -- The loop over the ring buffer.
  unfoldable pub drain_chunks : List Chunk → App R A → Outcome (App R A)
  unfolding handle
  drain_chunks [] app = ok app
  drain_chunks (c ∷ chunks) app = handle app c.buf c.len >>= drain_chunks chunks

  unfoldable pub with_list : App R A → List Sched → App R A
  with_list app list = record app { list = list }

  -- The loop over the scheduled messages, at the time `to`. The head is taken off the list after it
  -- was handled: it is a message, whose handling leaves the list alone. Each turn takes a unit of fuel.
  unfoldable pub drain_list : ℕ → Timespec → App R A → Outcome (App R A)
  unfolding handle with_list
  drain_list zero to app = no_fuel
  drain_list (suc fuel) to app = elim app.list [
    | [] ↦ ok app
    | elmnt ∷ list ↦
        let rest = handle app elmnt.buf elmnt.len >>= λ next.
        drain_list fuel to (with_list next (drop 1 next.list)) in
        if is_before to elmnt.to then ok app else rest
  ]

module _ {R A : Type 0} (answer : Trace → Call → ℤ) where
  -- What follows when the frame is filled.
  unfoldable pub send : ℕ → Beat R A → Outcome (Beat R A)
  unfolding next_beat
  send step beat =
      let frame = beat.dmx.start_code ∷ beat.dmx.values in
      let (r, trace) = ftdi_xmit answer frame sizeof_dmx beat.trace in
      next_beat step beat.to >>= λ to.
      ok (record beat { to = to; done = if r == 0 then beat.done else true; trace = trace })

module _ {R A : Type 0} (o : PacketOps R A) (answer : Trace → Call → ℤ) where
  -- The body of the loop of `_beat`; `woken` is false when `clock_nanosleep` returns -1.
  unfoldable pub round : ℕ → Bool → List Chunk → Beat R A → Outcome (Beat R A)
  unfolding drain_chunks drain_list fill send
  round step woken chunks beat =
      let body =
        (drain_chunks o chunks beat.app >>= λ app.
        drain_list o (length app.list + 1) beat.to app >>= λ app.
        fill app.state.slots 0 512 beat.dmx.values >>= λ values.
        send answer step (record beat { app = app; dmx = record beat.dmx { values = values } })) in
      if woken then body else ok beat

-- What a round meets: whether `done` was set from outside, whether the thread was woken as it should
-- be, and the chunks in the ring buffer.
pub record Input : Type 0 where
  pub stopped : Bool
  pub woken : Bool
  pub chunks : List Chunk

module _ {R A : Type 0} (o : PacketOps R A) (answer : Trace → Call → ℤ) where
  -- `_beat` over the rounds that are given; the loop ends when `done` is seen.
  unfoldable pub rounds : ℕ → List Input → Beat R A → Outcome (Beat R A)
  unfolding round
  rounds step [] beat = ok beat
  rounds step (i ∷ inputs) beat =
      let rest = round o answer step i.woken i.chunks beat >>= rounds step inputs in
      if beat.done || i.stopped then ok (record beat { done = true }) else rest

  -- `_beat` from its start at the time `now`.
  unfoldable pub beat_thread : ℕ → Timespec → List Input → Beat R A → Outcome (Beat R A)
  unfolding step_ns rounds
  beat_thread fps now inputs beat =
      or_fault (step_ns fps) >>= λ step. rounds step inputs (record beat { to = now })
