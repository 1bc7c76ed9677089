-- ===== src/Tests/Writing.antt =====
-- The writer: runs, and the theorems at concrete messages.
use osc2ftdidmx.Base.{
  ℕ, ◌+◌, ◌-◌, ◌*◌, ◌/◌, ◌%◌, ◌^◌, ◌<◌, ◌≤◌, ◌≡◌, ◌⊎◌, refl, Bool, true, false, some, List, [], ◌∷◌,
  ◌++◌, arith, map, length, codes, ok, replicate,
}
use osc2ftdidmx.Dispatch.Refine.{Reads}
use osc2ftdidmx.Osc.Memory.{Memory}
use osc2ftdidmx.Osc.Reader.{Reader, reader_initialize}
use osc2ftdidmx.Osc.Reader.Args.{Arg, arg_begin}
use osc2ftdidmx.Osc.Reader.Ops.{reader_args}
use osc2ftdidmx.Osc.Wire.{
  Argument, four, int, float, text, string, flag, nil, blob, seen, NoZero, encode_message,
}
use osc2ftdidmx.Osc.Writer.{Writer, writer_initialize, writer_get_size, writer_finalize, add_blob}
use osc2ftdidmx.Osc.Writer.Space.{Space, Wrote}
use osc2ftdidmx.Osc.Writer.Bodies.{blob_bytes, add_blob-Wrote}
use osc2ftdidmx.Osc.Writer.Args.{message_varlist}
use osc2ftdidmx.Osc.Writer.Message.{passed_all, AllWritable, format}
use osc2ftdidmx.Osc.Writer.RoundTrip.{
  writer_initialize-Space, message_varlist_lem, arg_begin-message_varlist,
}

-- The bits of a normal `float` as a `double`: the sign, the exponent with the greater bias, the fraction; and
-- back, where the fraction of the `double` has 23 bits.
abbrev widen : ℕ → ℕ
widen u = u / 2 ^ 31 * 2 ^ 63 + (u / 2 ^ 23 % 2 ^ 8 + 896) * 2 ^ 52 + u % 2 ^ 23 * 2 ^ 29

abbrev narrow : ℕ → ℕ
narrow u = u / 2 ^ 63 * 2 ^ 31 + (u / 2 ^ 52 % 2 ^ 11 - 896) * 2 ^ 23 + u % 2 ^ 52 / 2 ^ 29

-- 1.0, -2.5
test_casts : map widen (0x3f800000 ∷ 0xc0200000 ∷ []) ≡ 0x3ff0000000000000 ∷ 0xc004000000000000 ∷ []
test_casts = refl

-- An array of 64 bytes with the value 9, and a byte behind it.
abbrev array : List ℕ
array = replicate 64 9

abbrev memory : Memory
memory = record { base = 4096; bytes = array ++ (7 ∷ []) }

abbrev path : List ℕ
path = codes "/dmx/3/5"

abbrev arguments : List Argument
arguments =
    four int 300
    ∷ four float 0x3f800000
    ∷ text string (codes "abc")
    ∷ blob (1 ∷ 2 ∷ 3 ∷ 4 ∷ [])
    ∷ flag nil
    ∷ []

path-NoZero : NoZero path
path-NoZero = ground arith

arguments-AllWritable : AllWritable narrow widen arguments
arguments-AllWritable = ground arith

message_varlist_lem_example :
    (v : Writer) × (b : Bool) × (front : List ℕ) × (rest : List ℕ) × (message_varlist narrow
        (writer_initialize memory 4096 64)
        (path ++ (0 ∷ []))
        (format arguments)
        (passed_all widen arguments)
      ≡ ok (v, b))
    × (v.mem.bytes ≡ front ++ (rest ++ (7 ∷ [])))
    × (length front + length rest ≡ 64)
    × (((b ≡ true)
          × (length (encode_message path arguments) < 64)
          × (front ≡ encode_message path arguments)
          × (writer_finalize v ≡ (length (encode_message path arguments), some v.mem.base)))
        ⊎ ((b ≡ false) × (64 ≤ length (encode_message path arguments))))
message_varlist_lem_example =
    message_varlist_lem narrow widen memory array (7 ∷ []) path arguments refl (omega arith)
      path-NoZero (omega arith) (omega arith) arguments-AllWritable

arg_begin-message_varlist_example :
    (v : Writer) × (q : Reader) × (next : Arg) × (message_varlist narrow
        (writer_initialize memory 4096 64)
        (path ++ (0 ∷ []))
        (format arguments)
        (passed_all widen arguments)
      ≡ ok (v, true))
    × (arg_begin (reader_initialize v.mem (writer_get_size v)) (writer_get_size v)
        ≡ ok (q, some next))
    × Reads reader_args q (some next) (map seen arguments)
    × (reader_args.arg_path next ≡ path)
arg_begin-message_varlist_example =
    arg_begin-message_varlist narrow widen memory array (7 ∷ []) path arguments refl (omega arith)
      path-NoZero (omega arith) (omega arith) arguments-AllWritable (omega arith)

abbrev fresh : Writer
fresh = record { mem = memory; buf = 4096; ptr = 4096; end = 4160 }

fresh-Space : Space fresh [] array (7 ∷ [])
unfolding writer_initialize
fresh-Space = writer_initialize-Space memory array (7 ∷ []) refl (omega arith)

add_blob-Wrote_example :
    Wrote [] array (7 ∷ []) (blob_bytes (1 ∷ 2 ∷ []) array) (add_blob fresh 2 (1 ∷ 2 ∷ 3 ∷ []))
add_blob-Wrote_example =
    add_blob-Wrote fresh [] array (7 ∷ []) fresh-Space (1 ∷ 2 ∷ []) (3 ∷ []) (omega arith)

-- The two bytes that pad the blob are those of the array.
test_padding : blob_bytes (1 ∷ 2 ∷ []) array ≡ 0 ∷ 0 ∷ 0 ∷ 2 ∷ 1 ∷ 2 ∷ 9 ∷ 9 ∷ []
test_padding = refl

-- Twelve bytes do not go into an array of twelve.
test_exact :
    message_varlist narrow
      (writer_initialize memory 4096 12)
      (codes "/abcd" ++ (0 ∷ []))
      (0 ∷ [])
      []
    ≡ ok (
      record fresh {
        end = 4108;
        ptr = 4104;
        mem = record memory {
          bytes = codes "/abcd" ++ (0 ∷ 0 ∷ 0 ∷ []) ++ replicate 56 9 ++ (7 ∷ []);
        };
      },
      false,
    )
unfolding message_varlist writer_initialize
test_exact = refl
