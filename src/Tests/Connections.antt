-- ===== src/Tests/Connections.antt =====
-- Streams with a connection: the theorems at concrete frames.
use osc2ftdidmx.Base.{
  ℕ, ◌+◌, ◌*◌, ◌≤◌, ◌≡◌, ◌⊎◌, refl, true, false, none, List, [], ◌∷◌, ◌++◌, arith, map, ok, fault,
}
use osc2ftdidmx.Osc.Wire.Bundle.{encode}
use osc2ftdidmx.Osc.Writer.{be32}
use osc2ftdidmx.Varchunk.{Ring, varchunk_init, sub_size, pad, readable}
use osc2ftdidmx.Varchunk.Valid.{Valid}
use osc2ftdidmx.Varchunk.New.{varchunk_init-Valid}
use osc2ftdidmx.Slip.{slip_encode, escape_all, specials, escaped}
use osc2ftdidmx.Slip.RoundTrip.{frames}
use osc2ftdidmx.Stream.{Event, no_event, reqbuf, all_sent}
use osc2ftdidmx.Stream.Tcp.{came, came_blocks, Link, fd_open, closed}
use osc2ftdidmx.Stream.Tcp.Receive.{Ends}
use osc2ftdidmx.Stream.Tcp.Run.{run_tcp_lem}
use osc2ftdidmx.Stream.Tcp.Prefix.{prefixed, TookBodies, recv_prefix-Took, recv_prefix-blocks}
use osc2ftdidmx.Stream.Connection.{Answers, recv_prefix, run_tcp}
use osc2ftdidmx.Tests.Buffers.{memory, packet, filled, filled-Valid}

abbrev fresh : Ring
fresh = record { size = 8192; mask = 8191; rsvd = 0; gapd = 0; head = 0; tail = 0; buf = λ i. 0 }

fresh-Valid : Valid fresh []
unfolding varchunk_init sub_size
fresh-Valid = varchunk_init-Valid memory 13 (omega arith) (omega arith)

-- A server whose connection is open, with one packet to send.
abbrev link : Link
link = record {
  net = record { rx = fresh; tx = filled; peer = none; output = [] };
  server = true;
  slip = true;
  connected = true;
  sock = true;
  fd = true;
  kept = [];
}

abbrev packets : List (List ℕ)
packets = (1 ∷ 192 ∷ 2 ∷ []) ∷ (219 ∷ []) ∷ []

abbrev answers : Answers
answers = record {
  accepts = none;
  reinit = (no_event, false);
  connects = false;
  sends = all_sent ∷ [];
  recvs = came (frames packets) ∷ [];
}

run_tcp_lem_example :
    (next : Link) × (ev : Event) × (gone : List (List ℕ)) × (kept : List (List ℕ)) × (run_tcp
        answers link
      ≡ ok (next, ev))
    × (encode packet ∷ [] ≡ gone ++ kept)
    × (next.net.output ≡ [] ++ map slip_encode gone)
    × Valid next.net.tx kept
    × (((next.connected ≡ false) × (fd_open next ≡ false) × (next.net.rx ≡ fresh))
        ⊎ ((taken : List (List ℕ)) × (left : List (List ℕ)) × (next.connected ≡ true)
            × (packets ≡ taken ++ left)
            × Valid next.net.rx ([] ++ taken)
            × Ends left next.net.rx next.kept))
unfolding slip_encode escape_all specials escaped
run_tcp_lem_example =
    run_tcp_lem answers link (encode packet ∷ []) [] packets [] refl refl refl refl filled-Valid
      fresh-Valid (omega arith, omega arith, tt)
      (omega arith, omega arith, (omega arith, omega arith, tt)) (omega arith) (omega arith) refl

recv_prefix-Took_example :
    TookBodies packets link [] (recv_prefix closed closed (prefixed packets) link no_event)
recv_prefix-Took_example =
    recv_prefix-Took closed closed packets link no_event [] fresh-Valid
      (omega arith, (omega arith, tt))

room : readable fresh + 2 * (16 + pad reqbuf) ≤ 8192
unfolding readable pad
room = omega arith

recv_prefix-blocks_example :
    recv_prefix closed closed (came (be32 16) ∷ came_blocks ∷ []) link no_event ≡ fault
recv_prefix-blocks_example =
    recv_prefix-blocks closed closed 16 [] link no_event [] fresh-Valid room
