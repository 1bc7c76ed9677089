-- ===== src/Packet/Encoded.antt =====
-- The program's reader meets the laws of Packet/Total on the bytes of messages and nested bundles.
use mathlib.Core.List.{append-nil}
use mathlib.Core.Bool.{false≢true}
use osc2ftdidmx.Base.{
  ℕ, ◌+◌, ◌-◌, ◌^◌, ◌<◌, ◌≤◌, ◌≡◌, ◌∙◌, sym, ap, refl, subst, Bool, true, false, List, [], ◌∷◌,
  ◌++◌, arith, length, length-append, take, some,
}
use osc2ftdidmx.Osc.Reader.{Reader}
use osc2ftdidmx.Osc.Reader.Args.{Arg}
use osc2ftdidmx.Osc.Reader.Bundle.{AreItems}
use osc2ftdidmx.Osc.Wire.Bundle
use osc2ftdidmx.Osc.Wire.Bundle.{
  OscPacket, message, bundle, OscItems, no_items, item, encode, encode_items, PacketFits,
}
use osc2ftdidmx.Osc.Args.{Value}
use osc2ftdidmx.Dispatch.Refine.{Reads}
use osc2ftdidmx.Packet.{Item, PacketOps}
use osc2ftdidmx.Packet.Total
use osc2ftdidmx.Packet.Total.{WellFormed}
use osc2ftdidmx.Packet.Bytes.{ops, message-Says, message_kind, bundle_kind, bundle-AreItems}

-- The bytes of a packet whose numbers fit, with anything behind them, at addresses that do not wrap.
pub record Encoded (base : ℕ) (buf : List ℕ) (len : ℕ) : Type 0 where
  pub packet : OscPacket
  pub tail : List ℕ
  pub bytes : buf ≡ encode packet ++ tail
  pub size : len ≡ length (encode packet)
  pub fits : PacketFits packet
  pub room : base + length (encode packet) + 4 ≤ 2 ^ 64 - 1

module _ (base : ℕ) where
  encode-Encoded :
      (p : OscPacket) (tail : List ℕ)
      → PacketFits p
      → base + length (encode p) + 4 ≤ 2 ^ 64 - 1
      → Encoded base (encode p ++ tail) (length (encode p))
  encode-Encoded p tail fits room = record {
    packet = p;
    tail = tail;
    bytes = refl;
    size = refl;
    fits = fits;
    room = room;
  }

  Encoded-elim :
      (P : List ℕ → ℕ → Type 0)
      → ((p : OscPacket) (tail : List ℕ)
          → PacketFits p
          → base + length (encode p) + 4 ≤ 2 ^ 64 - 1
          → P (encode p ++ tail) (length (encode p)))
      → (buf : List ℕ) (len : ℕ) → Encoded base buf len
      → P buf len
  Encoded-elim P each buf len good =
      subst (λ b. P b len) (sym good.bytes)
        (subst (P (encode good.packet ++ good.tail)) (sym good.size)
          (each good.packet good.tail good.fits good.room))

  AreItems-ItemsFit :
      (n timetag : ℕ) (tail : List ℕ) (items : OscItems) (itms : List Item)
      → Bundle.ItemsFit items
      → base + length (encode_items items) + 4 ≤ 2 ^ 64 - 1
      → length (encode_items items ++ tail) < n
      → AreItems timetag tail items itms
      → Total.ItemsFit (Encoded base) n itms
  AreItems-ItemsFit n timetag tail no_items itms fits room inside are =
      subst (Total.ItemsFit (Encoded base) n) (sym are) tt
  AreItems-ItemsFit n timetag tail (item p items) itms fits room inside (more, same, rest) =
      let behind : List ℕ = encode_items items ++ tail in
      let sizes = length-append (encode p) (encode_items items) in
      let body = length-append (encode p) behind in
      let all = length-append (encode p ++ encode_items items) tail in
      let left = length-append (encode_items items) tail in
      subst (Total.ItemsFit (Encoded base) n) (sym same) (
        omega (arith, sizes, body, all, left),
        encode-Encoded p behind fits.1 (omega (arith, sizes)),
        AreItems-ItemsFit n timetag tail items more fits.2 (omega (arith, sizes))
            (omega (arith, sizes, all, left)) rest,
      )

take-length : (xs tail : List ℕ) → take (length xs) (xs ++ tail) ≡ xs
take-length [] tail = refl
take-length (x ∷ xs) tail = ap (λ ys. x ∷ ys) (take-length xs tail)

module _ (base : ℕ) (pattern_match : List ℕ → List ℕ → Bool) (malloc_ok : ℕ → ℕ → Bool) where
  abbrev o : PacketOps Reader Arg
  o = ops base pattern_match malloc_ok

  bundles-Encoded :
      (p : OscPacket) (tail : List ℕ)
      → PacketFits p
      → base + length (encode p) + 4 ≤ 2 ^ 64 - 1
      → o.is_bundle (o.initialize (encode p ++ tail) (length (encode p))) ≡ true
      → Total.ItemsFit
          (Encoded base)
          (length (encode p ++ tail))
          (o.bundle_items (o.initialize (encode p ++ tail) (length (encode p))) (length (encode p)))
  bundles-Encoded (message path args) tail fits room says =
      let kind =
        message_kind base pattern_match malloc_ok path fits.0.0 args tail fits.0.1 (omega arith) in
      absurd (false≢true (sym kind.0 ∙ says))
  bundles-Encoded (bundle timetag items) tail fits room says =
      AreItems-ItemsFit base (length (encode (bundle timetag items) ++ tail)) timetag tail items
        (o.bundle_items
          (o.initialize (encode (bundle timetag items) ++ tail)
            (length (encode (bundle timetag items))))
          (length (encode (bundle timetag items))))
        fits.1 (omega arith)
        (omega (
          arith,
          length-append (encode_items items) tail,
          length-append (encode (bundle timetag items)) tail,
        ))
        (bundle-AreItems base pattern_match malloc_ok timetag items tail fits.0 fits.1 room)

  messages-Encoded :
      (p : OscPacket) (tail : List ℕ)
      → PacketFits p
      → base + length (encode p) + 4 ≤ 2 ^ 64 - 1
      → o.is_message (o.initialize (encode p ++ tail) (length (encode p))) ≡ true
      → (r : Reader) × (a : Arg) × (vs : List Value) × (o.args.message_begin
            (o.initialize (encode p ++ tail) (length (encode p)))
            (length (encode p))
          ≡ (r, some a))
        × Reads o.args r (some a) vs
  messages-Encoded (message path args) tail fits room says =
      let (r, a, vs, begins, reads, same) =
        message-Says base pattern_match malloc_ok path fits.0.0 args tail fits.0.1 fits.1 fits.2
          (omega arith) in
      (r, a, vs, begins, reads)
  messages-Encoded (bundle timetag items) tail fits room says =
      let kind = bundle_kind base pattern_match malloc_ok timetag items tail (omega arith) in
      absurd (false≢true (sym kind.1 ∙ says))

  copies-Encoded :
      (p : OscPacket) (tail : List ℕ)
      → PacketFits p
      → base + length (encode p) + 4 ≤ 2 ^ 64 - 1
      → o.is_bundle (o.initialize (encode p ++ tail) (length (encode p))) ≡ false
      → Encoded base (take (length (encode p)) (encode p ++ tail)) (length (encode p))
        × (o.is_bundle
              (o.initialize (take (length (encode p)) (encode p ++ tail)) (length (encode p)))
            ≡ false)
  copies-Encoded (message path args) tail fits room says =
      let p : OscPacket = message path args in
      let alone = take-length (encode p) tail ∙ sym (append-nil (encode p)) in
      let kind =
        message_kind base pattern_match malloc_ok path fits.0.0 args [] fits.0.1 (omega arith) in
      subst
        (λ b.
          Encoded base b (length (encode p))
          × (o.is_bundle (o.initialize b (length (encode p))) ≡ false))
        (sym alone) (encode-Encoded base p [] fits room, kind.0)
  copies-Encoded (bundle timetag items) tail fits room says =
      let kind = bundle_kind base pattern_match malloc_ok timetag items tail (omega arith) in
      absurd (false≢true (sym says ∙ kind.0))

  -- The laws hold of the program's reader.
  pub ops-WellFormed : WellFormed (Encoded base) o
  ops-WellFormed = record {
    bundles =
        Encoded-elim base
          (λ buf len.
            o.is_bundle (o.initialize buf len) ≡ true
            → Total.ItemsFit (Encoded base) (length buf)
                (o.bundle_items (o.initialize buf len) len))
          bundles-Encoded;
    messages =
        Encoded-elim base
          (λ buf len.
            o.is_message (o.initialize buf len) ≡ true
            → (r : Reader) × (a : Arg) × (vs : List Value) × (o.args.message_begin
                  (o.initialize buf len) len
                ≡ (r, some a))
              × Reads o.args r (some a) vs)
          messages-Encoded;
    copies =
        Encoded-elim base
          (λ buf len.
            o.is_bundle (o.initialize buf len) ≡ false
            → Encoded base (take len buf) len
              × (o.is_bundle (o.initialize (take len buf) len) ≡ false))
          copies-Encoded;
  }
