-- ===== src/Tests/Wire.antt =====
-- Packets as bytes: what the encoding gives, and the theorems at such packets.
use osc2ftdidmx.Base.{
  ℕ, ◌≡◌, refl, Bool, true, false, none, some, List, [], ◌∷◌, ◌++◌, arith, map, codes, ok, no_fuel,
}
use osc2ftdidmx.Dispatch.Refine.{Reads}
use osc2ftdidmx.Osc.Reader.{Reader, reader_initialize}
use osc2ftdidmx.Osc.Reader.Args.{Arg, arg_begin}
use osc2ftdidmx.Osc.Reader.Items.{RawItem, item_begin, items_from}
use osc2ftdidmx.Osc.Reader.Ops.{reader_args, to_items}
use osc2ftdidmx.Osc.Reader.Gets.{At, initialize-At}
use osc2ftdidmx.Osc.Reader.Message.{arg_begin_lem}
use osc2ftdidmx.Osc.Reader.Bundle.{AreItems, items_from-bundle}
use osc2ftdidmx.Osc.Reader.Hang.{minus_four, items_from-minus_four}
use osc2ftdidmx.Osc.Wire.{
  Argument, four, int, float, text, string, flag, nil, blob, word32, word64, seen, NoZero, ArgsFit,
}
use osc2ftdidmx.Osc.Wire.Bundle.{
  OscPacket, OscItems, message, bundle, no_items, item, encode, bundle_mark, PacketFits,
}
use osc2ftdidmx.Packet.{App, immediate, handle_osc_packet}
use osc2ftdidmx.Packet.Effect.{Does}
use osc2ftdidmx.Packet.Bytes.{ops, said, handle_osc_packet-encode}
use osc2ftdidmx.Beat.{Beat}
use osc2ftdidmx.Tests.Toy.{same, no_slots, no_slots-GridValid}
use osc2ftdidmx.Tests.Rounds.{now, zeros, open_trace}

-- `/dmx/3/5` with the integer 300, a float, a string, a blob and nil.
abbrev arguments : List Argument
arguments =
    four int 300
    ∷ four float 0x3f800000
    ∷ text string (codes "abc")
    ∷ blob (1 ∷ 2 ∷ [])
    ∷ flag nil
    ∷ []

abbrev path : List ℕ
path = codes "/dmx/3/5"

abbrev simple : OscPacket
simple = message path arguments

test_bytes :
    encode simple
    ≡ codes "/dmx/3/5"
      ++ (0 ∷ 0 ∷ 0 ∷ 0 ∷ [])
      ++ codes ",ifsbN"
      ++ (0 ∷ 0 ∷ [])
      ++ (0 ∷ 0 ∷ 1 ∷ 44 ∷ 63 ∷ 128 ∷ 0 ∷ 0 ∷ [])
      ++ codes "abc"
      ++ (0 ∷ [])
      ++ (0 ∷ 0 ∷ 0 ∷ 2 ∷ 1 ∷ 2 ∷ 0 ∷ 0 ∷ [])
test_bytes = refl

path-NoZero : NoZero path
path-NoZero = ground arith

arguments-ArgsFit : ArgsFit arguments
arguments-ArgsFit = ground arith

simple-PacketFits : PacketFits simple
simple-PacketFits = ((codes "dmx/3/5", refl), path-NoZero, arguments-ArgsFit)

abbrev nested : OscPacket
nested =
    bundle 1
      (item simple (item (bundle 1 (item (message (codes "/dmx/4/1") []) no_items)) no_items))

nested-PacketFits : PacketFits nested
nested-PacketFits = (
  omega arith,
  (
    omega arith,
    simple-PacketFits,
    (
      omega arith,
      (omega arith, (omega arith, ((codes "dmx/4/1", refl), ground arith, tt), tt)),
      tt,
    ),
  ),
)

abbrev pub idle_app : App Reader Arg
idle_app = record {
  state = record {
    cur_channel = 0;
    cur_value = 0;
    cur_set = false;
    cur_reader = reader_initialize (record { base = 0; bytes = [] }) 0;
    cur_arg = none;
    slots = no_slots;
  };
  list = [];
  mallocs = 0;
}

abbrev pub malloc_ok : ℕ → ℕ → Bool
malloc_ok n size = true

abbrev behind : List ℕ
behind = 7 ∷ 7 ∷ 7 ∷ []

handle_osc_packet-encode_example :
    Does (ops 4096 same malloc_ok) idle_app (said 4096 same malloc_ok nested) (
      handle_osc_packet
        (ops 4096 same malloc_ok)
        101
        idle_app
        immediate
        (encode nested ++ behind)
        100)
handle_osc_packet-encode_example =
    handle_osc_packet-encode 4096 same malloc_ok idle_app nested behind no_slots-GridValid
      nested-PacketFits (refl, ((refl, tt), tt)) (omega arith)

abbrev reader : Reader
reader = reader_initialize (record { base = 4096; bytes = encode simple ++ behind }) 40

reader-At : At reader (encode simple) behind
reader-At = initialize-At 4096 (encode simple) behind (omega arith)

arg_begin_lem_example :
    (q : Reader) × (next : Arg) × (arg_begin reader 40 ≡ ok (q, some next))
    × Reads reader_args q (some next) (map seen arguments)
    × (reader_args.arg_path next ≡ path)
arg_begin_lem_example =
    arg_begin_lem reader path arguments behind path-NoZero arguments-ArgsFit reader-At

abbrev bad : List ℕ
bad = bundle_mark ++ (word64 1 ++ (word32 minus_four ++ []))

abbrev bad_reader : Reader
bad_reader = reader_initialize (record { base = 4096; bytes = bad ++ behind }) 20

items_from-minus_four_example : items_from 1000 (item_begin bad_reader 20) ≡ no_fuel
items_from-minus_four_example =
    items_from-minus_four 1 1000 bad_reader [] behind (omega arith)
      (initialize-At 4096 bad behind (omega arith))

abbrev pub beat : Beat Reader Arg
beat = record {
  app = idle_app;
  to = now;
  dmx = record { start_code = 0; values = zeros };
  done = false;
  trace = open_trace;
}

abbrev nested_items : OscItems
nested_items =
    item simple (item (bundle 1 (item (message (codes "/dmx/4/1") []) no_items)) no_items)

items_from-bundle_example :
    (raws : List RawItem) × (items_from 101 (
        item_begin
          (reader_initialize (record { base = 4096; bytes = encode nested ++ behind }) 100)
          100)
      ≡ ok raws)
    × AreItems 1 behind nested_items
        (to_items (record { base = 4096; bytes = encode nested ++ behind }) raws)
unfolding reader_initialize
items_from-bundle_example =
    items_from-bundle 1 nested_items 101
      (reader_initialize (record { base = 4096; bytes = encode nested ++ behind }) 100) behind
      (omega arith) nested-PacketFits.1 (omega arith) (omega arith)
      (initialize-At 4096 (encode nested) behind (omega arith))
