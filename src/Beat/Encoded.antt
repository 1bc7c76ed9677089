-- ===== src/Beat/Encoded.antt =====
-- The output thread with the program's reader, on the bytes of messages and nested bundles.
use osc2ftdidmx.Base.{ℕ, ◌≡◌, Bool, true, List, ok, ℤ}
use osc2ftdidmx.Osc.Reader.{Reader}
use osc2ftdidmx.Osc.Reader.Args.{Arg}
use osc2ftdidmx.Packet.{PacketOps}
use osc2ftdidmx.Packet.Bytes.{ops}
use osc2ftdidmx.Packet.Encoded.{Encoded, ops-WellFormed}
use osc2ftdidmx.Ftdi.{Call, Trace}
use osc2ftdidmx.Beat.{Chunk, Beat, round}
use osc2ftdidmx.Beat.Drain.{ChunksGood}
use osc2ftdidmx.Beat.Round.{BeatValid, Rounded, round_total}

module _ (base : ℕ) (pattern_match : List ℕ → List ℕ → Bool) (malloc_ok : ℕ → ℕ → Bool) where
  abbrev o : PacketOps Reader Arg
  o = ops base pattern_match malloc_ok

  module _ (answer : Trace → Call → ℤ) where
    -- Let the slots be valid, the frame have 512 values and the device be open, and let each scheduled message
    -- have no nanoseconds. Let the ring buffer hold the bytes of OSC packets, messages or nested bundles with
    -- any time tags, and the scheduled messages be the bytes of OSC messages; let their numbers fit and the
    -- addresses not wrap. Then a round to which the thread is woken, with the reader of osc.lv2, returns, and all
    -- of this holds again. The time of the next round is exactly `step` nanoseconds later. Either the frame of
    -- the new state was written in whole, each channel with the value of its highest priority, or the thread is
    -- to end.
    pub round-Encoded :
        (step : ℕ) (chunks : List Chunk) (beat : Beat Reader Arg)
        → ChunksGood o (Encoded base) (ops-WellFormed base pattern_match malloc_ok) chunks
        → BeatValid o (Encoded base) beat
        → (next : Beat Reader Arg) × (round o answer step true chunks beat ≡ ok next)
          × Rounded o
              (Encoded base)
              (ops-WellFormed base pattern_match malloc_ok)
              answer
              step
              beat
              next
    round-Encoded =
        round_total o (Encoded base) (ops-WellFormed base pattern_match malloc_ok) answer
