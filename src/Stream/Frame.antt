-- ===== src/Stream/Frame.antt =====
-- From the datagrams that arrive to the frame that is sent to the device.
use osc2ftdidmx.Base.{
  ℕ, suc, ◌+◌, ◌*◌, ◌<◌, ◌≤◌, ◌≡◌, ◌⊎◌, inl, inr, ◌∙◌, refl, subst, sym, ap, Bool, true, List, [],
  ◌∷◌, ◌++◌, arith, length, get_elem?, some, ok, ℤ, map,
}
use osc2ftdidmx.Slot.Spec.{highest}
use osc2ftdidmx.Osc.Reader.{Reader}
use osc2ftdidmx.Osc.Reader.Args.{Arg}
use osc2ftdidmx.Osc.Wire.Bundle.{OscPacket, encode}
use osc2ftdidmx.Dispatch.Grid.{GridValid, grid_view, final}
use osc2ftdidmx.Packet.Bytes.{ops}
use osc2ftdidmx.Ftdi.{Call, Trace, ftdi_xmit}
use osc2ftdidmx.Varchunk.{Ring, readable, pad}
use osc2ftdidmx.Varchunk.Valid.{Valid}
use osc2ftdidmx.Beat.{Beat, Chunk, round, sizeof_dmx}
use osc2ftdidmx.Beat.Bytes.{QueueFits, said_all}
use osc2ftdidmx.Beat.Ring.{alone, read_chunks, read_chunks-round}
use osc2ftdidmx.Stream.{Event, reqbuf, Sent, Net}
use osc2ftdidmx.Stream.Udp.{Received, datagram, run_udp}
use osc2ftdidmx.Stream.Udp.Queue.{arrivals, AllSmall}
use osc2ftdidmx.Stream.Udp.Send.{run_udp_lem}

-- The packets as datagrams from one address.
abbrev pub datagrams : ℕ → List OscPacket → List Received
datagrams from [] = []
datagrams from (p ∷ packets) = datagram from (encode p) ∷ datagrams from packets

-- Each packet has at least one byte, and no more than a receiver asks for.
abbrev pub FitDatagrams : List OscPacket → Type 0
FitDatagrams [] = Unit
FitDatagrams (p ∷ packets) =
    (0 < length (encode p)) × (length (encode p) ≤ reqbuf) × FitDatagrams packets

arrivals-one :
    (from : ℕ) (bytes : List ℕ) (more : List Received)
    → 0 < length bytes
    → arrivals (datagram from bytes ∷ more) ≡ bytes ∷ arrivals more
arrivals-one from [] more h = absurd (omega arith)
arrivals-one from (b ∷ bytes) more h = refl

arrivals-datagrams :
    (from : ℕ) (packets : List OscPacket)
    → FitDatagrams packets
    → arrivals (datagrams from packets) ≡ map encode packets
arrivals-datagrams from [] fit = refl
arrivals-datagrams from (p ∷ packets) fit =
    arrivals-one from (encode p) (datagrams from packets) fit.0
    ∙ ap (λ t. encode p ∷ t) (arrivals-datagrams from packets fit.2)

datagrams-AllSmall :
    (from : ℕ) (packets : List OscPacket) → FitDatagrams packets → AllSmall (datagrams from packets)
datagrams-AllSmall from [] fit = tt
datagrams-AllSmall from (p ∷ packets) fit = (fit.1, datagrams-AllSmall from packets fit.2)

-- What was taken of the bytes are the bytes of the first packets.
map-split :
    (packets : List OscPacket) (taken left : List (List ℕ))
    → map encode packets ≡ taken ++ left
    → (now : List OscPacket) × (later : List OscPacket) × (packets ≡ now ++ later)
      × (map encode now ≡ taken)
      × (map encode later ≡ left)
map-split packets [] left e = ([], packets, refl, refl, e)
map-split [] (t ∷ taken) left e = cc
map-split (p ∷ packets) (t ∷ taken) left e =
    let (now, later, split, same, others) = map-split packets taken left (cc) in
    (p ∷ now, later, ap (λ ps. p ∷ ps) split, cc, others)

none_left :
    (later : List OscPacket) (left : List (List ℕ))
    → map encode later ≡ left
    → left ≡ []
    → later ≡ []
none_left [] left e f = refl
none_left (p ∷ later) left e f = cc

module _ (base : ℕ) (pattern_match : List ℕ → List ℕ → Bool) (malloc_ok : ℕ → ℕ → Bool) where
  QueueFits-now :
      (now later : List OscPacket)
      → QueueFits base pattern_match malloc_ok (map alone (now ++ later))
      → QueueFits base pattern_match malloc_ok (map alone now)
  QueueFits-now [] later fits = tt
  QueueFits-now (p ∷ now) later fits = (fits.0, fits.1, fits.2, QueueFits-now now later fits.3)

  -- Let both ring buffers be empty, the slots valid, the frame have 512 values and no message be scheduled. Let
  -- datagrams arrive with the bytes of OSC packets, messages or nested bundles, of at most 1024 bytes, whose
  -- numbers fit, whose messages are immediate and whose addresses do not wrap. Then `_lv2_osc_stream_run_udp`
  -- returns, the loop of `_beat` that takes the chunks out ends, and the round returns; and each channel of the
  -- frame that it passes to `_ftdi_xmit` has the value of its highest priority that is set after what the
  -- packets say, or 0. The packets are all, or the first ones when less than twice the bytes that a request
  -- takes are free in the ring buffer.
  pub run_udp-round :
      (answer : Trace → Call → ℤ) (step from : ℕ) (sends : List Sent) (packets : List OscPacket)
      (net : Net) (beat : Beat Reader Arg)
      → Valid net.tx []
      → Valid net.rx []
      → GridValid beat.app.state.slots
      → length beat.dmx.values ≡ 512
      → beat.app.list ≡ []
      → FitDatagrams packets
      → QueueFits base pattern_match malloc_ok (map alone packets)
      → (now : List OscPacket) × (later : List OscPacket) × (next : Net) × (ev : Event)
        × (unread : List Received) × (drained : Ring) × (chunks : List Chunk) × (frame : Beat Reader
            Arg)
        × (packets ≡ now ++ later)
        × ((later ≡ []) ⊎ (next.rx.size < readable next.rx + 2 * (16 + pad reqbuf)))
        × (run_udp sends (datagrams from packets) net ≡ ok (next, ev, unread))
        × (read_chunks (suc (length now)) next.rx ≡ ok (drained, chunks))
        × (round (ops base pattern_match malloc_ok) answer step true chunks beat ≡ ok frame)
        × ((c : ℕ)
            → c < 512
            → get_elem? frame.dmx.values c
              ≡ some (
                  highest
                    (λ p.
                      final
                        (said_all base pattern_match malloc_ok (map alone now))
                        c
                        p
                        (grid_view beat.app.state.slots c p))
                    32))
        × (frame.trace
            ≡ (ftdi_xmit answer (frame.dmx.start_code ∷ frame.dmx.values) sizeof_dmx beat.trace).1)
  run_udp-round answer step from sends packets net beat vt vr grid sized unscheduled fit fits =
      let (next, ev, unread, gone, kept, taken, left, returns, split, output, tx, parts, rx, all) =
        run_udp_lem sends (datagrams from packets) net [] [] vt vr
          (datagrams-AllSmall from packets fit) in
      let (now, later, both, same, others) =
        map-split packets taken left (sym (arrivals-datagrams from packets fit) ∙ parts) in
      let (s, chunks, frame, read, empty, rounded, values, sent) =
        read_chunks-round base pattern_match malloc_ok answer step now next.rx beat
          (subst (Valid next.rx) (sym same) rx) grid sized unscheduled
          (QueueFits-now now later
            (subst (λ ps. QueueFits base pattern_match malloc_ok (map alone ps)) both fits)) in
      let none_kept : (later ≡ []) ⊎ (next.rx.size < readable next.rx + 2 * (16 + pad reqbuf)) =
        elim all [
          | inl taken_all ↦ inl (none_left later left others taken_all)
          | inr full ↦ inr full
        ] in
      (
        now, later, next, ev, unread, s, chunks, frame, both, none_kept, returns, read, rounded,
        values, sent,
      )
