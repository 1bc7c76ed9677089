-- ===== src/Beat/Bytes.antt =====
-- From the bytes in the ring buffer to the frame that is sent.
use osc2ftdidmx.Base.{
  ℕ, suc, ◌+◌, ◌<◌, ◌≤◌, ◌-◌, ◌^◌, ◌≡◌, refl, subst, Bool, true, List, [], ◌∷◌, ◌++◌, arith, length,
  length-append, get_elem?, some, ok, ℤ,
}
use osc2ftdidmx.Slot.Spec.{highest}
use osc2ftdidmx.Osc.Reader.{Reader}
use osc2ftdidmx.Osc.Reader.Args.{Arg}
use osc2ftdidmx.Osc.Wire.Bundle.{OscPacket, encode, PacketFits, IsImmediate}
use osc2ftdidmx.Dispatch.Spec.{Assign}
use osc2ftdidmx.Dispatch.Grid.{GridValid, grid_view, final}
use osc2ftdidmx.Packet.{immediate}
use osc2ftdidmx.Packet.Effect.{Says}
use osc2ftdidmx.Packet.Bytes.{ops, said, encode-Says}
use osc2ftdidmx.Ftdi.{Call, Trace, ftdi_xmit}
use osc2ftdidmx.Beat.{Beat, Chunk, round, sizeof_dmx}
use osc2ftdidmx.Beat.Output.{SaysChunks, round-output}

-- A packet in the ring buffer, with the bytes that lie behind it.
pub record Queued : Type 0 where
  pub packet : OscPacket
  pub behind : List ℕ

abbrev pub chunk_of : Queued → Chunk
chunk_of q = record { buf = encode q.packet ++ q.behind; len = length (encode q.packet) }

abbrev pub chunks_of : List Queued → List Chunk
chunks_of [] = []
chunks_of (q ∷ queue) = chunk_of q ∷ chunks_of queue

module _ (base : ℕ) (pattern_match : List ℕ → List ℕ → Bool) (malloc_ok : ℕ → ℕ → Bool) where
  -- The numbers of the packets fit, their messages are immediate, and no address wraps.
  abbrev pub QueueFits : List Queued → Type 0
  QueueFits [] = Unit
  QueueFits (q ∷ queue) =
      PacketFits q.packet
      × IsImmediate immediate q.packet
      × (base + length (encode q.packet) + 4 ≤ 2 ^ 64 - 1)
      × QueueFits queue

  abbrev pub said_all : List Queued → List Assign
  said_all [] = []
  said_all (q ∷ queue) = said base pattern_match malloc_ok q.packet ++ said_all queue

  SaysChunks-chunks_of :
      (queue : List Queued)
      → QueueFits queue
      → SaysChunks (ops base pattern_match malloc_ok) (chunks_of queue) (said_all queue)
  SaysChunks-chunks_of [] fits = refl
  SaysChunks-chunks_of (q ∷ queue) fits =
      let buf : List ℕ = encode q.packet ++ q.behind in
      let one_more : suc (length buf) ≡ length buf + 1 = omega arith in
      (
        said base pattern_match malloc_ok q.packet,
        said_all queue,
        refl,
        subst
            (λ n.
              Says (ops base pattern_match malloc_ok) n immediate buf (length (encode q.packet))
                (said base pattern_match malloc_ok q.packet))
            one_more
            (encode-Says base pattern_match malloc_ok q.packet (length buf) immediate q.behind
              (omega (arith, length-append (encode q.packet) q.behind)) fits.0 fits.1 fits.2),
        SaysChunks-chunks_of queue fits.3,
      )

  -- On valid slots, with a frame of 512 values and no message scheduled, let the ring buffer hold the bytes
  -- of OSC packets, messages or nested bundles, whose numbers fit, whose messages are immediate and whose
  -- addresses do not wrap. Then a round to which the thread is woken, with the reader of osc.lv2, returns, and each channel of the frame that it passes to
  -- `_ftdi_xmit` has the value of its highest priority that is set after what the messages say, or 0.
  pub round-chunks_of :
      (answer : Trace → Call → ℤ) (step : ℕ) (queue : List Queued) (beat : Beat Reader Arg)
      → GridValid beat.app.state.slots
      → length beat.dmx.values ≡ 512
      → beat.app.list ≡ []
      → QueueFits queue
      → (next : Beat Reader Arg) × (round
            (ops base pattern_match malloc_ok)
            answer
            step
            true
            (chunks_of queue)
            beat
          ≡ ok next)
        × ((c : ℕ)
            → c < 512
            → get_elem? next.dmx.values c
              ≡ some (
                  highest
                    (λ p. final (said_all queue) c p (grid_view beat.app.state.slots c p))
                    32))
        × (next.trace
            ≡ (ftdi_xmit answer (next.dmx.start_code ∷ next.dmx.values) sizeof_dmx beat.trace).1)
  round-chunks_of answer step queue beat grid sized empty fits =
      round-output (ops base pattern_match malloc_ok) answer step (chunks_of queue) beat
        (said_all queue) grid sized empty (SaysChunks-chunks_of queue fits)
