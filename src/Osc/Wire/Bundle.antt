-- ===== src/Osc/Wire/Bundle.antt =====
-- Messages and nested bundles, and how they are laid out in bytes.
use osc2ftdidmx.Base.{ℕ, ◌^◌, ◌<◌, ◌≡◌, List, [], ◌∷◌, ◌++◌, length, codes}
use osc2ftdidmx.Osc.Wire.{Argument, word32, word64, encode_message, NoZero, ArgsFit}

mutual
  -- A message has a path and arguments, a bundle a time tag and items.
  pub data OscPacket : Type 0 where
    message : List ℕ → List Argument → OscPacket
    bundle : ℕ → OscItems → OscPacket

  pub data OscItems : Type 0 where
    no_items : OscItems
    item : OscPacket → OscItems → OscItems

-- The eight bytes that a bundle begins with.
abbrev pub bundle_mark : List ℕ
bundle_mark = codes "#bundle" ++ (0 ∷ [])

-- The size of each item stands before it.
abbrev mutual
  pub encode : OscPacket → List ℕ
  encode (message path args) = encode_message path args
  encode (bundle timetag items) = bundle_mark ++ (word64 timetag ++ encode_items items)

  pub encode_items : OscItems → List ℕ
  encode_items no_items = []
  encode_items (item p items) = word32 (length (encode p)) ++ (encode p ++ encode_items items)

-- Paths begin with a slash and have no null byte, and all numbers fit.
abbrev mutual
  pub PacketFits : OscPacket → Type 0
  PacketFits (message path args) =
      ((rest : List ℕ) × (path ≡ b'/' ∷ rest)) × NoZero path × ArgsFit args
  PacketFits (bundle timetag items) = (timetag < 2 ^ 64) × ItemsFit items

  pub ItemsFit : OscItems → Type 0
  ItemsFit no_items = Unit
  ItemsFit (item p items) = (length (encode p) < 2 ^ 31) × PacketFits p × ItemsFit items

-- Each message lies in bundles with the immediate time tag alone.
abbrev mutual
  pub IsImmediate : ℕ → OscPacket → Type 0
  IsImmediate timetag (message path args) = timetag ≡ 1
  IsImmediate timetag (bundle t items) = AreImmediate t items

  pub AreImmediate : ℕ → OscItems → Type 0
  AreImmediate timetag no_items = Unit
  AreImmediate timetag (item p items) = IsImmediate timetag p × AreImmediate timetag items
