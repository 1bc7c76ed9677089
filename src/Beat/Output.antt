-- ===== src/Beat/Output.antt =====
-- From the packets in the ring buffer to the frame that is sent.
use osc2ftdidmx.Base.{
  ℕ, ◌==◌, if◌then◌else◌, zero, suc, ◌+◌, ◌<◌, ◌≡◌, ◌∙◌, sym, refl, ap, subst, true, List, [], ◌∷◌,
  ◌++◌, arith, length, get_elem?, some, ok, ℤ,
}
use osc2ftdidmx.Slot.Spec.{highest}
use osc2ftdidmx.Slot.Get.{highest-cong}
use osc2ftdidmx.Dispatch.Spec.{Assign}
use osc2ftdidmx.Dispatch.Grid.{GridValid, grid_view, final}
use osc2ftdidmx.Sched.{Timespec}
use osc2ftdidmx.Packet.{PacketOps, App, immediate}
use osc2ftdidmx.Packet.Effect.{Says, Does, final-append, nothing-Does, handle_osc_packet-Does}
use osc2ftdidmx.Ftdi.{Call, Trace, ftdi_xmit}
use osc2ftdidmx.Beat.{Beat, Chunk, handle, drain_chunks, drain_list, send, round, sizeof_dmx}
use osc2ftdidmx.Beat.Time.{next_beat_lem}
use osc2ftdidmx.Beat.Frame.{fill_lem}

module _ {R A : Type 0} (o : PacketOps R A) where
  -- The chunks say what their packets say, one after the other.
  abbrev pub SaysChunks : List Chunk → List Assign → Type 0
  SaysChunks [] xs = xs ≡ []
  SaysChunks (c ∷ chunks) xs =
      (here : List Assign) × (rest : List Assign) × (xs ≡ here ++ rest)
      × Says o (length c.buf + 1) immediate c.buf c.len here
      × SaysChunks chunks rest

  -- On valid slots, when all messages of the packets in the ring buffer are immediate and the
  -- reader finds their arguments, the loop over the ring buffer does exactly what the packets
  -- say, in their order.
  pub drain_chunks-Does :
      (chunks : List Chunk) (app : App R A) (xs : List Assign)
      → GridValid app.state.slots
      → SaysChunks chunks xs
      → Does o app xs (drain_chunks o chunks app)
  unfolding drain_chunks handle
  drain_chunks-Does [] app xs grid says =
      subst (λ ys. Does o app ys (ok app)) (sym says) (nothing-Does o app grid)
  drain_chunks-Does (c ∷ chunks) app xs grid says =
      let (here, rest, both, first, others) = says in
      let one : Does o app here (handle o app c.buf c.len) =
        handle_osc_packet-Does o (length c.buf + 1) app immediate c.buf c.len here grid first in
      let more : Does o one.next rest (drain_chunks o chunks one.next) =
        drain_chunks-Does chunks one.next rest one.grid others in
      record {
        next = more.next;
        returns = rw one.returns more.returns;
        grid = more.grid;
        same_list = more.same_list ∙ one.same_list;
        shows = λ c p h.
            more.shows c p h
            ∙ ap (final rest c p) (one.shows c p h)
            ∙ sym (final-append here rest c p _)
            ∙ ap (λ ys. final ys c p (grid_view app.state.slots c p)) (sym both);
      }

  drain_list-empty :
      (fuel : ℕ) (app : App R A) (to : Timespec)
      → 0 < fuel
      → app.list ≡ []
      → drain_list o fuel to app ≡ ok app
  unfolding drain_list
  drain_list-empty zero app to h e = absurd (omega arith)
  drain_list-empty (suc fuel) app to h e = rw e refl

  send-returns :
      (answer : Trace → Call → ℤ) (step : ℕ) (beat : Beat R A)
      → (next : Beat R A) × (send answer step beat ≡ ok next)
        × (next.dmx ≡ beat.dmx)
        × (next.trace
            ≡ (ftdi_xmit answer (beat.dmx.start_code ∷ beat.dmx.values) sizeof_dmx beat.trace).1)
  unfolding send
  send-returns answer step beat =
      let (to, e, range, after) = next_beat_lem step beat.to in
      let r : ℕ × Trace =
        ftdi_xmit answer (beat.dmx.start_code ∷ beat.dmx.values) sizeof_dmx beat.trace in
      (
        record beat { to = to; done = if r.0 == 0 then beat.done else true; trace = r.1 },
        rw e refl,
        refl,
        refl,
      )

  -- On valid slots, with no message scheduled, and with packets in the ring buffer whose messages
  -- are immediate and have arguments that the reader finds, a round to which the thread is woken
  -- returns. Each channel of the frame that it passes to `_ftdi_xmit` has the value of its
  -- highest priority that is set, after the assignments that the packets say, or 0.
  pub round-output :
      (answer : Trace → Call → ℤ) (step : ℕ) (chunks : List Chunk) (beat : Beat R A)
      (xs : List Assign)
      → GridValid beat.app.state.slots
      → length beat.dmx.values ≡ 512
      → beat.app.list ≡ []
      → SaysChunks chunks xs
      → (next : Beat R A) × (round o answer step true chunks beat ≡ ok next)
        × ((c : ℕ)
            → c < 512
            → get_elem? next.dmx.values c
              ≡ some (highest (λ p. final xs c p (grid_view beat.app.state.slots c p)) 32))
        × (next.trace
            ≡ (ftdi_xmit answer (next.dmx.start_code ∷ next.dmx.values) sizeof_dmx beat.trace).1)
  unfolding round
  round-output answer step chunks beat xs grid sized empty says =
      let done : Does o beat.app xs (drain_chunks o chunks beat.app) =
        drain_chunks-Does chunks beat.app xs grid says in
      let app : App R A = done.next in
      let rest =
        drain_list-empty (length app.list + 1) app beat.to (omega arith) (done.same_list ∙ empty) in
      let (values, fills, same_length, levels) =
        fill_lem app.state.slots done.grid beat.dmx.values sized in
      let filled : Beat R A = record beat {
        app = app;
        dmx = record beat.dmx { values = values };
      } in
      let (next, sends, same_frame, sent) = send-returns answer step filled in
      (
        next,
        rw (done.returns, rest, fills) sends,
        λ c h.
            ap (λ d. get_elem? d.values c) same_frame
            ∙ levels c h
            ∙ ap some (highest-cong _ _ 32 (λ p k. done.shows c p k)),
        sent
            ∙ ap (λ d. (ftdi_xmit answer (d.start_code ∷ d.values) sizeof_dmx beat.trace).1)
                (sym same_frame),
      )
