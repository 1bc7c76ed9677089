-- ===== src/Tests/Streams.antt =====
-- Streams over UDP: the theorems at concrete datagrams and rings.
use osc2ftdidmx.Base.{
  ℕ, suc, ◌+◌, ◌*◌, ◌<◌, ◌≡◌, ◌⊎◌, refl, true, none, some, List, [], ◌∷◌, ◌++◌, arith, get_elem?,
  map, length, length-replicate, replicate, ok, fault,
}
use osc2ftdidmx.Slot.Spec.{highest}
use osc2ftdidmx.Dispatch.Grid.{grid_view, final}
use osc2ftdidmx.Osc.Reader.{Reader}
use osc2ftdidmx.Osc.Reader.Args.{Arg}
use osc2ftdidmx.Osc.Wire.Bundle.{OscPacket}
use osc2ftdidmx.Packet.Bytes.{ops}
use osc2ftdidmx.Ftdi.{ftdi_xmit}
use osc2ftdidmx.Beat.{Beat, Chunk, round, sizeof_dmx}
use osc2ftdidmx.Beat.Bytes.{said_all}
use osc2ftdidmx.Beat.Ring.{alone, read_chunks}
use osc2ftdidmx.Varchunk.{Ring, varchunk_init, sub_size, pad, readable}
use osc2ftdidmx.Varchunk.Valid.{Valid}
use osc2ftdidmx.Varchunk.New.{varchunk_init-Valid}
use osc2ftdidmx.Stream.{Event, reqbuf, all_sent, send_blocks, Net}
use osc2ftdidmx.Stream.Udp.{Received, datagram, recv_blocks, run_udp}
use osc2ftdidmx.Stream.Udp.Queue.{arrivals}
use osc2ftdidmx.Stream.Udp.Send.{run_udp_lem}
use osc2ftdidmx.Stream.Udp.Overflow.{run_udp-overflow}
use osc2ftdidmx.Stream.Frame.{datagrams, run_udp-round}
use osc2ftdidmx.Tests.Toy.{same, no_slots, no_slots-GridValid}
use osc2ftdidmx.Tests.Rounds.{answer}
use osc2ftdidmx.Tests.Wire.{beat, malloc_ok}
use osc2ftdidmx.Tests.Buffers.{memory, packet, packet-QueueFits}

abbrev fresh : Ring
fresh = record { size = 8192; mask = 8191; rsvd = 0; gapd = 0; head = 0; tail = 0; buf = λ i. 0 }

fresh-Valid : Valid fresh []
unfolding varchunk_init sub_size
fresh-Valid = varchunk_init-Valid memory 13 (omega arith) (omega arith)

abbrev net : Net
net = record { rx = fresh; tx = fresh; peer = some 7; output = [] }

run_udp-round_example :
    (now : List OscPacket) × (later : List OscPacket) × (next : Net) × (ev : Event) × (unread : List
      Received)
    × (drained : Ring) × (chunks : List Chunk) × (frame : Beat Reader Arg) × (packet ∷ []
        ≡ now ++ later)
    × ((later ≡ []) ⊎ (next.rx.size < readable next.rx + 2 * (16 + pad reqbuf)))
    × (run_udp (all_sent ∷ []) (datagrams 7 (packet ∷ [])) net ≡ ok (next, ev, unread))
    × (read_chunks (suc (length now)) next.rx ≡ ok (drained, chunks))
    × (round (ops 4096 same malloc_ok) answer 33333333 true chunks beat ≡ ok frame)
    × ((c : ℕ)
        → c < 512
        → get_elem? frame.dmx.values c
          ≡ some (
              highest
                (λ p.
                  final (said_all 4096 same malloc_ok (map alone now)) c p (grid_view no_slots c p))
                32))
    × (frame.trace
        ≡ (ftdi_xmit answer (frame.dmx.start_code ∷ frame.dmx.values) sizeof_dmx beat.trace).1)
run_udp-round_example =
    run_udp-round 4096 same malloc_ok answer 33333333 7 (all_sent ∷ []) (packet ∷ []) net beat
      fresh-Valid fresh-Valid no_slots-GridValid refl refl (omega arith, omega arith, tt)
      packet-QueueFits

run_udp_lem_example :
    (next : Net) × (ev : Event) × (unread : List Received) × (gone : List (List ℕ)) × (kept : List
      (List ℕ))
    × (taken : List (List ℕ)) × (left : List (List ℕ)) × (run_udp
          (send_blocks ∷ [])
          (datagram 3 (1 ∷ 2 ∷ []) ∷ recv_blocks ∷ [])
          net
        ≡ ok (next, ev, unread))
    × ([] ≡ gone ++ kept)
    × (next.output ≡ [] ++ gone)
    × Valid next.tx kept
    × (arrivals (datagram 3 (1 ∷ 2 ∷ []) ∷ recv_blocks ∷ []) ≡ taken ++ left)
    × Valid next.rx ([] ++ taken)
    × ((left ≡ []) ⊎ (next.rx.size < readable next.rx + 2 * (16 + pad reqbuf)))
run_udp_lem_example =
    run_udp_lem (send_blocks ∷ []) (datagram 3 (1 ∷ 2 ∷ []) ∷ recv_blocks ∷ []) net [] []
      fresh-Valid fresh-Valid (omega arith, (tt, tt))

abbrev listening : Net
listening = record net { peer = none }

run_udp-overflow_example : run_udp [] (datagram 3 (replicate 8185 0) ∷ []) listening ≡ fault
run_udp-overflow_example =
    run_udp-overflow [] listening 3 (replicate 8185 0) [] fresh-Valid refl (omega arith) refl
      (omega (arith, length-replicate {A = ℕ} 8185 0))
