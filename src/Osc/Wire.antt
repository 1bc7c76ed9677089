-- ===== src/Osc/Wire.antt =====
-- How OSC 1.0 lays messages and bundles out in bytes, with the types of `LV2_OSC_Type` in
-- osc.lv2/osc.lv2/osc.h: an encoder that is written from the format and not from the reader.
pub mod Bundle
use osc2ftdidmx.Base.{
  ℕ, zero, suc, ◌+◌, ◌-◌, ◌*◌, ◌/◌, ◌%◌, ◌^◌, ◌<◌, ◌≡◌, ◌≢◌, List, [], ◌∷◌, ◌++◌, map, length,
  replicate, codes,
}
use osc2ftdidmx.Osc.Args.{Value, int32, other}

-- The types by what they take: four bytes, eight bytes, a string, or nothing.
pub data Four : Type 0 where
  int float char midi rgba : Four

pub data Eight : Type 0 where
  long double timetag : Eight

pub data Text : Type 0 where
  string symbol : Text

pub data Flag : Type 0 where
  yes_flag no_flag nil impulse : Flag

-- An argument: the bits of a number, the characters of a string, the bytes of a blob, or a flag.
pub data Argument : Type 0 where
  four : Four → ℕ → Argument
  eight : Eight → ℕ → Argument
  text : Text → List ℕ → Argument
  blob : List ℕ → Argument
  flag : Flag → Argument

abbrev pub tag_of : Argument → ℕ
tag_of (four int u) = b'i'
tag_of (four float u) = b'f'
tag_of (four char u) = b'c'
tag_of (four midi u) = b'm'
tag_of (four rgba u) = b'r'
tag_of (eight long u) = b'h'
tag_of (eight double u) = b'd'
tag_of (eight timetag u) = b't'
tag_of (text string s) = b's'
tag_of (text symbol s) = b'S'
tag_of (blob bytes) = b'b'
tag_of (flag yes_flag) = b'T'
tag_of (flag no_flag) = b'F'
tag_of (flag nil) = b'N'
tag_of (flag impulse) = b'I'

-- Numbers have their highest byte first.
abbrev pub word32 : ℕ → List ℕ
word32 u = u / 2 ^ 24 ∷ u / 2 ^ 16 % 256 ∷ u / 2 ^ 8 % 256 ∷ u % 256 ∷ []

abbrev pub word64 : ℕ → List ℕ
word64 u = word32 (u / 2 ^ 32) ++ word32 (u % 2 ^ 32)

-- A string ends in one to four null bytes, so that four divides its length.
abbrev pub padded : List ℕ → List ℕ
padded s = s ++ replicate (4 - length s % 4) 0

abbrev pub encode_arg : Argument → List ℕ
encode_arg (four k u) = word32 u
encode_arg (eight k u) = word64 u
encode_arg (text k s) = padded s
encode_arg (blob bytes) =
    word32 (length bytes) ++ (bytes ++ replicate ((4 - length bytes % 4) % 4) 0)
encode_arg (flag k) = []

abbrev pub encode_args : List Argument → List ℕ
encode_args [] = []
encode_args (a ∷ args) = encode_arg a ++ encode_args args

abbrev pub encode_message : List ℕ → List Argument → List ℕ
encode_message path args = padded path ++ (padded (b',' ∷ map tag_of args) ++ encode_args args)

-- What the program sees of an argument.
abbrev pub seen : Argument → Value
seen (four int u) = int32 u
seen (four float u) = other
seen (four char u) = other
seen (four midi u) = other
seen (four rgba u) = other
seen (eight k u) = other
seen (text k s) = other
seen (blob bytes) = other
seen (flag k) = other

abbrev pub NoZero : List ℕ → Type 0
NoZero [] = Unit
NoZero (c ∷ cs) = (c ≢ 0) × NoZero cs

-- The numbers fit their size and the strings have no null byte inside.
abbrev pub ArgFits : Argument → Type 0
ArgFits (four k u) = u < 2 ^ 32
ArgFits (eight k u) = u < 2 ^ 64
ArgFits (text k s) = NoZero s
ArgFits (blob bytes) = length bytes < 2 ^ 31
ArgFits (flag k) = Unit

abbrev pub ArgsFit : List Argument → Type 0
ArgsFit [] = Unit
ArgsFit (a ∷ args) = ArgFits a × ArgsFit args
