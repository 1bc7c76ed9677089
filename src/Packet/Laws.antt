-- ===== src/Packet/Laws.antt =====
-- The branches of `_handle_osc_packet`.
use osc2ftdidmx.Base.{
  ℕ, zero, suc, ◌+◌, ◌≡◌, ◌≢◌, true, false, List, [], ◌∷◌, ◌++◌, if◌then◌else◌, take, arith, ok,
}
use osc2ftdidmx.Sched.{Sched, to_timespec}
use osc2ftdidmx.Sched.Laws.{NoFraction, sched_append-fifo}
use osc2ftdidmx.Packet.{
  PacketOps, App, immediate, sizeof_sched, with_state, deliver, schedule, handle_message,
  handle_osc_packet,
}

pub NoFraction-append :
    (xs : List Sched) (e : Sched) → NoFraction xs → e.to.tv_nsec ≡ 0 → NoFraction (xs ++ (e ∷ []))
NoFraction-append [] e h k = (k, tt)
NoFraction-append (x ∷ xs) e h k = (h.0, NoFraction-append xs e h.1 k)

module _ {R A : Type 0} (o : PacketOps R A) where
  -- A packet that is no bundle and has the immediate time tag leaves the list of scheduled
  -- messages alone, where it returns.
  pub handle_osc_packet-immediate :
      (fuel : ℕ) (app next : App R A) (buf : List ℕ) (len : ℕ)
      → o.is_bundle (o.initialize buf len) ≡ false
      → handle_osc_packet o fuel app immediate buf len ≡ ok next
      → (next.list ≡ app.list) × (next.mallocs ≡ app.mallocs)
  unfolding handle_osc_packet handle_message deliver with_state
  handle_osc_packet-immediate zero app next buf len b e = cc
  handle_osc_packet-immediate (suc fuel) app next buf len b e = ground arith

  -- If the nanoseconds of all scheduled messages are 0, a packet of a message with a time tag
  -- other than 1 touches no slot: it goes to the end of the list if memory is left, and is
  -- dropped if not, whatever its time is.
  pub handle_osc_packet-schedules :
      (fuel : ℕ) (app : App R A) (timetag : ℕ) (buf : List ℕ) (len : ℕ)
      → o.is_bundle (o.initialize buf len) ≡ false
      → o.is_message (o.initialize buf len) ≡ true
      → timetag ≢ immediate
      → NoFraction app.list
      → (next : App R A) × (handle_osc_packet o (suc fuel) app timetag buf len ≡ ok next)
        × (next.state ≡ app.state)
        × (next.list ≡ (
            if o.malloc_ok app.mallocs (sizeof_sched + len)
            then app.list
              ++ (record { to = to_timespec timetag; len = len; buf = take len buf } ∷ [])
            else app.list))
  unfolding handle_osc_packet handle_message schedule
  handle_osc_packet-schedules fuel app timetag buf len b m t h = (
    schedule o app timetag buf len,
    ground arith,
    ground arith,
    ground (
      arith,
      sched_append-fifo app.list
          (record { to = to_timespec timetag; len = len; buf = take len buf }) h,
    ),
  )
