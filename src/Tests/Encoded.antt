-- ===== src/Tests/Encoded.antt =====
-- Packets with time tags in their bytes: the theorems at such packets and at messages that are scheduled.
use osc2ftdidmx.Base.{
  ℕ, ◌≡◌, refl, true, false, List, [], ◌∷◌, ◌++◌, arith, codes, length, ok, fault, pos, inr,
}
use osc2ftdidmx.Osc.Memory.{strncmp_eq}
use osc2ftdidmx.Osc.Reader.{Reader, reader_initialize, reader_is_bundle}
use osc2ftdidmx.Osc.Reader.Args.{Arg}
use osc2ftdidmx.Osc.Wire.{four, int, padded}
use osc2ftdidmx.Osc.Wire.Bundle.{OscPacket, message, bundle, no_items, item, encode, PacketFits}
use osc2ftdidmx.Sched.{Sched}
use osc2ftdidmx.Packet.{App, immediate, handle_osc_packet}
use osc2ftdidmx.Packet.Total.{AppValid}
use osc2ftdidmx.Packet.Bytes.{ops}
use osc2ftdidmx.Packet.Encoded.{Encoded, ops-WellFormed}
use osc2ftdidmx.Packet.NoTypes.{handle_osc_packet-no_types}
use osc2ftdidmx.Beat.{Beat, Chunk, Input, round}
use osc2ftdidmx.Beat.Round.{BeatValid, Rounded}
use osc2ftdidmx.Beat.Encoded.{round-Encoded}
use osc2ftdidmx.Tests.Rounds.{answer}
use osc2ftdidmx.Tests.Toy.{same, no_slots-GridValid}
use osc2ftdidmx.Tests.Wire.{idle_app, malloc_ok, beat}

abbrev fire : OscPacket
fire = message (codes "/dmx/3/5") (four int 300 ∷ [])

fire-PacketFits : PacketFits fire
fire-PacketFits = ((codes "dmx/3/5", refl), ground arith, ground arith)

-- A message for now, and one in a bundle with a later time tag.
abbrev timed : OscPacket
timed = bundle 1 (item fire (item (bundle 16399944902328680448 (item fire no_items)) no_items))

timed-PacketFits : PacketFits timed
timed-PacketFits = (
  omega arith,
  (
    omega arith,
    fire-PacketFits,
    (omega arith, (omega arith, (omega arith, fire-PacketFits, tt)), tt),
  ),
)

abbrev behind : List ℕ
behind = 7 ∷ 7 ∷ 7 ∷ []

test_length : length (encode timed ++ behind) ≡ 87
test_length = refl

-- A message that is due, one that is not, and one behind it that is.
abbrev waiting : List Sched
waiting =
    record { to = record { tv_sec = pos 5; tv_nsec = 0 }; len = 20; buf = encode fire }
    ∷ record { to = record { tv_sec = pos 1900000000; tv_nsec = 0 }; len = 20; buf = encode fire }
    ∷ record { to = record { tv_sec = pos 6; tv_nsec = 0 }; len = 20; buf = encode fire }
    ∷ []

fire-Encoded : Encoded 4096 (encode fire) 20
fire-Encoded = record {
  packet = fire;
  tail = [];
  bytes = refl;
  size = refl;
  fits = fire-PacketFits;
  room = omega arith;
}

abbrev waiting_app : App Reader Arg
waiting_app = record idle_app { list = waiting }

waiting_app-AppValid : AppValid (ops 4096 same malloc_ok) (Encoded 4096) waiting_app
unfolding reader_is_bundle strncmp_eq reader_initialize
waiting_app-AppValid = record {
  grid = no_slots-GridValid;
  no_fraction = (refl, (refl, (refl, tt)));
  schedulable = ((fire-Encoded, refl), ((fire-Encoded, refl), ((fire-Encoded, refl), tt)));
}

abbrev late : Beat Reader Arg
late = record beat { app = waiting_app }

late-BeatValid : BeatValid (ops 4096 same malloc_ok) (Encoded 4096) late
late-BeatValid = record { app_valid = waiting_app-AppValid; sized = refl; device_open = refl }

abbrev chunk : Chunk
chunk = record { buf = encode timed ++ behind; len = 84 }

chunk-Encoded : Encoded 4096 (encode timed ++ behind) 84
chunk-Encoded = record {
  packet = timed;
  tail = behind;
  bytes = refl;
  size = refl;
  fits = timed-PacketFits;
  room = omega arith;
}

round-Encoded_example :
    (next : Beat Reader Arg) × (round
        (ops 4096 same malloc_ok)
        answer
        33333333
        true
        (chunk ∷ [])
        late
      ≡ ok next)
    × Rounded
        (ops 4096 same malloc_ok)
        (Encoded 4096)
        (ops-WellFormed 4096 same malloc_ok)
        answer
        33333333
        late
        next
round-Encoded_example =
    round-Encoded 4096 same malloc_ok answer 33333333 (chunk ∷ []) late (chunk-Encoded, tt)
      late-BeatValid

abbrev inputs : List Input
inputs =
    record { stopped = false; woken = true; chunks = chunk ∷ [] }
    ∷ record { stopped = false; woken = true; chunks = [] }
    ∷ record { stopped = true; woken = true; chunks = [] }
    ∷ []

-- `/dmx/3/5` with the integer 300 and no type string.
abbrev path : List ℕ
path = codes "/dmx/3/5"

abbrev untyped : List ℕ
untyped = (padded path ++ (0 ∷ 0 ∷ 1 ∷ 44 ∷ [])) ++ behind

handle_osc_packet-no_types_example :
    handle_osc_packet (ops 4096 same malloc_ok) 1 idle_app immediate untyped 16 ≡ fault
handle_osc_packet-no_types_example =
    handle_osc_packet-no_types 4096 same malloc_ok 0 idle_app path (codes "dmx/3/5")
      (0 ∷ 0 ∷ 1 ∷ 44 ∷ []) behind [] (0 ∷ 1 ∷ 44 ∷ behind) refl (ground arith) refl tt
      (inr (λ e. omega arith)) (omega arith)
