-- ===== src/Beat/Ring.antt =====
-- The loop of `_beat` that takes the chunks out of the ring buffer of varchunk, and a round on what it takes.
use osc2ftdidmx.Base.{
  ℕ, zero, suc, ◌+◌, ◌<◌, ◌-◌, ◌≡◌, ◌∙◌, refl, ap, Bool, true, List, [], ◌∷◌, ◌++◌, arith, length,
  get_elem?, some, none, Option, ok, ℤ, map, Outcome, no_fuel, ◌>>=◌,
}
use osc2ftdidmx.Slot.Spec.{highest}
use osc2ftdidmx.Osc.Reader.{Reader}
use osc2ftdidmx.Osc.Reader.Args.{Arg}
use osc2ftdidmx.Osc.Wire.Bundle.{OscPacket, encode}
use osc2ftdidmx.Dispatch.Grid.{GridValid, grid_view, final}
use osc2ftdidmx.Packet.Bytes.{ops, said}
use osc2ftdidmx.Ftdi.{Call, Trace, ftdi_xmit}
use osc2ftdidmx.Varchunk.{Ring, read_request, read_advance}
use osc2ftdidmx.Varchunk.Buffer.{bytes_at}
use osc2ftdidmx.Varchunk.Valid.{Valid}
use osc2ftdidmx.Varchunk.Read.{read_request_empty, read_request_lem, read_advance_lem}
use osc2ftdidmx.Beat.{Beat, Chunk, round, sizeof_dmx}
use osc2ftdidmx.Beat.Bytes.{Queued, chunks_of, QueueFits, said_all, round-chunks_of}

-- A chunk that was given: its size, and the bytes from its index to the end of the array.
abbrev pub chunk_at : Ring → ℕ → ℕ → Chunk
chunk_at r n i = record { buf = bytes_at r.buf i (r.size - i); len = n }

-- One turn of the loop, with what comes after it.
abbrev pub next_turn :
    (Ring → Outcome (Ring × List Chunk)) → Ring × Option (ℕ × ℕ) → Outcome (Ring × List Chunk)
next_turn again (r, none) = ok (r, [])
next_turn again (r, some (n, i)) =
    read_advance r >>= again >>= λ rest. ok (rest.0, chunk_at r n i ∷ rest.1)

-- `while((buf = varchunk_read_request(...)))`, without the handling of the packets, which leaves the ring
-- as it is; each turn takes fuel.
unfoldable pub read_chunks : ℕ → Ring → Outcome (Ring × List Chunk)
read_chunks zero r = no_fuel
read_chunks (suc fuel) r = read_request r >>= next_turn (read_chunks fuel)

bytes_at-append :
    (buf : ℕ → ℕ) (i m n : ℕ) → bytes_at buf i (m + n) ≡ bytes_at buf i m ++ bytes_at buf (i + m) n
bytes_at-append buf i zero n =
    let at : i ≡ i + zero = omega arith in
    let all : zero + n ≡ n = omega arith in ap (bytes_at buf i) all ∙ ap (λ j. bytes_at buf j n) at
bytes_at-append buf i (suc m) n =
    let at : suc i + m ≡ i + suc m = omega arith in
    let all : suc m + n ≡ suc (m + n) = omega arith in
    ap (bytes_at buf i) all
    ∙ ap (λ rest. buf i ∷ rest)
        (bytes_at-append buf (suc i) m n ∙ ap (λ j. bytes_at buf (suc i) m ++ bytes_at buf j n) at)

-- The same packets with nothing behind them.
abbrev pub alone : OscPacket → Queued
alone p = record { packet = p; behind = [] }

module _ (base : ℕ) (pattern_match : List ℕ → List ℕ → Bool) (malloc_ok : ℕ → ℕ → Bool) where
  -- What the loop takes out: the packets, each with what lies behind it in the array.
  abbrev pub Taken : ℕ → Ring → List OscPacket → Type 0
  Taken fuel r packets =
      (s : Ring) × (queue : List Queued) × (read_chunks fuel r ≡ ok (s, chunks_of queue))
      × Valid s []
      × QueueFits base pattern_match malloc_ok queue
      × (said_all base pattern_match malloc_ok queue
          ≡ said_all base pattern_match malloc_ok (map alone packets))

  read_chunks-Taken :
      (packets : List OscPacket) (fuel : ℕ) (r : Ring)
      → Valid r (map encode packets)
      → length packets < fuel
      → QueueFits base pattern_match malloc_ok (map alone packets)
      → Taken fuel r packets
  unfolding read_chunks
  read_chunks-Taken packets zero r v more fits = absurd (omega arith)
  read_chunks-Taken [] (suc fuel) r v more fits =
      (r, [], rw (read_request_empty r v) refl, v, tt, refl)
  read_chunks-Taken (p ∷ packets) (suc fuel) r v more fits =
      let (t, given, front, less) = read_request_lem r (encode p) (map encode packets) v in
      let (s, advanced, valid, fewer, moved) =
        read_advance_lem (record r { tail = t }) (encode p) (map encode packets) front in
      let (u, queue, rest, empty, all_fit, same) =
        read_chunks-Taken packets fuel s valid (omega arith) fits.3 in
      let n : ℕ = length (encode p) in
      let left : ℕ = r.size - (t + 8) - n in
      let behind : List ℕ = bytes_at r.buf (t + 8 + n) left in
      let size : r.size - (t + 8) ≡ n + left =
        omega (arith, front.chunk.inside, front.chunk.padded) in
      let bytes : bytes_at r.buf (t + 8) (r.size - (t + 8)) ≡ encode p ++ behind =
        ap (bytes_at r.buf (t + 8)) size
        ∙ bytes_at-append r.buf (t + 8) n left
        ∙ ap (λ b. b ++ behind) front.chunk.body in
      (
        u,
        record { packet = p; behind = behind } ∷ queue,
        rw (given, advanced, rest)
            (ap (λ b. ok (u, record { buf = b; len = n } ∷ chunks_of queue)) bytes),
        empty,
        (fits.0, fits.1, fits.2, all_fit),
        ap (λ rest. said base pattern_match malloc_ok p ++ rest) same,
      )

  -- On valid slots, with a frame of 512 values and no message scheduled, let the ring buffer hold the bytes
  -- of OSC packets, messages or nested bundles, whose numbers fit, whose messages are immediate and whose
  -- addresses do not wrap. Then the loop that takes the chunks out ends and leaves the buffer empty, the
  -- round to which the thread is woken with them returns, and each channel of the frame that it passes to
  -- `_ftdi_xmit` has the value of its highest priority that is set after what the messages say, or 0.
  pub read_chunks-round :
      (answer : Trace → Call → ℤ) (step : ℕ) (packets : List OscPacket) (r : Ring)
      (beat : Beat Reader Arg)
      → Valid r (map encode packets)
      → GridValid beat.app.state.slots
      → length beat.dmx.values ≡ 512
      → beat.app.list ≡ []
      → QueueFits base pattern_match malloc_ok (map alone packets)
      → (s : Ring) × (chunks : List Chunk) × (next : Beat Reader Arg) × (read_chunks
            (suc (length packets))
            r
          ≡ ok (s, chunks))
        × Valid s []
        × (round (ops base pattern_match malloc_ok) answer step true chunks beat ≡ ok next)
        × ((c : ℕ)
            → c < 512
            → get_elem? next.dmx.values c
              ≡ some (
                  highest
                    (λ p.
                      final
                        (said_all base pattern_match malloc_ok (map alone packets))
                        c
                        p
                        (grid_view beat.app.state.slots c p))
                    32))
        × (next.trace
            ≡ (ftdi_xmit answer (next.dmx.start_code ∷ next.dmx.values) sizeof_dmx beat.trace).1)
  read_chunks-round answer step packets r beat v grid sized none_scheduled fits =
      let (s, queue, taken, empty, all_fit, same) =
        read_chunks-Taken packets (suc (length packets)) r v (omega arith) fits in
      let (next, returns, values, sent) =
        round-chunks_of base pattern_match malloc_ok answer step queue beat grid sized
          none_scheduled all_fit in
      (
        s,
        chunks_of queue,
        next,
        taken,
        empty,
        returns,
        (λ c h.
            values c h
            ∙ ap
                (λ list.
                  some (highest (λ p. final list c p (grid_view beat.app.state.slots c p)) 32))
                same),
        sent,
      )
