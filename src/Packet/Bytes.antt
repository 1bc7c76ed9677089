-- ===== src/Packet/Bytes.antt =====
-- Packets as bytes: what the encoding of messages and nested bundles says when the reader of osc.lv2
-- reads it, and that the program does it.
use osc2ftdidmx.Base.{
  ℕ, suc, ◌+◌, ◌-◌, ◌^◌, ◌<◌, ◌≤◌, ◌≡◌, ◌∙◌, sym, ap, refl, subst, Bool, true, false, none, List,
  [], ◌∷◌, ◌++◌, arith, map, length, length-append, drop, inl, inr,
}
use osc2ftdidmx.Osc.Tree.{walk}
use osc2ftdidmx.Osc.Memory.{load8, strncmp_eq}
use osc2ftdidmx.Osc.Reader.{Reader, reader_initialize, reader_is_bundle, reader_is_message, here}
use osc2ftdidmx.Osc.Reader.Args.{Arg}
use osc2ftdidmx.Osc.Reader.Ops.{got_or_null, reader_ops, or_else, to_items}
use osc2ftdidmx.Osc.Reader.Gets.{here-At, initialize-At}
use osc2ftdidmx.Osc.Reader.Message.{arg_begin_lem}
use osc2ftdidmx.Osc.Reader.Bundle.{AreItems, items_from-bundle}
use osc2ftdidmx.Osc.Wire.{Argument, seen, encode_message, NoZero, ArgsFit}
use osc2ftdidmx.Osc.Wire.Bundle.{
  OscPacket, message, bundle, OscItems, no_items, item, encode, encode_items, PacketFits, ItemsFit,
  IsImmediate, AreImmediate,
}
use osc2ftdidmx.Dispatch.Tables.{tree_root}
use osc2ftdidmx.Dispatch.Spec.{Assign, targets, spread}
use osc2ftdidmx.Dispatch.Grid.{GridValid}
use osc2ftdidmx.Packet.{Item, PacketOps, App, immediate, handle_osc_packet}
use osc2ftdidmx.Packet.Effect.{SaysMessage, SaysItems, Says, Does, handle_osc_packet-Does}

module _ (base : ℕ) (pattern_match : List ℕ → List ℕ → Bool) (malloc_ok : ℕ → ℕ → Bool) where
  abbrev pub ops : PacketOps Reader Arg
  ops = reader_ops base pattern_match malloc_ok

  abbrev pub start : List ℕ → List ℕ → Reader
  start front tail =
      reader_initialize (record { base = base; bytes = front ++ tail }) (length front)

  -- A message deals its arguments out to what its path matches; a bundle says what its items say.
  abbrev mutual
    pub said : OscPacket → List Assign
    said (message path args) =
        spread (map seen args) none (targets (walk pattern_match tree_root 0 (drop 1 path)) 0)
    said (bundle timetag items) = said_items items

    pub said_items : OscItems → List Assign
    said_items no_items = []
    said_items (item p items) = said p ++ said_items items

  pub message-Says :
      (path rest : List ℕ) (args : List Argument) (tail : List ℕ)
      → path ≡ b'/' ∷ rest
      → NoZero path
      → ArgsFit args
      → base + length (encode_message path args) < 2 ^ 64
      → SaysMessage ops
          (encode_message path args ++ tail)
          (length (encode_message path args))
          (said (message path args))
  message-Says path rest args tail slash no_zero fits h =
      let at = initialize-At base (encode_message path args) tail h in
      let (q, next, begins, reads, same) =
        arg_begin_lem (start (encode_message path args) tail) path args tail no_zero fits at in
      (
        q,
        next,
        map seen args,
        ap (got_or_null (start (encode_message path args) tail)) begins,
        reads,
        ap
            (λ t.
              spread (map seen args) none (targets (walk pattern_match tree_root 0 (drop 1 t)) 0))
            (sym same),
      )

  -- The first byte tells a message from a bundle.
  pub message_kind :
      (path rest : List ℕ) (args : List Argument) (tail : List ℕ)
      → path ≡ b'/' ∷ rest
      → base + length (encode_message path args) < 2 ^ 64
      → (ops.is_bundle (start (encode_message path args) tail) ≡ false)
        × (ops.is_message (start (encode_message path args) tail) ≡ true)
  unfolding reader_is_bundle reader_is_message strncmp_eq load8
  message_kind path rest args tail slash h =
      let r : Reader = start (encode_message path args) tail in
      let at = initialize-At base (encode_message path args) tail h in
      let first : here r ≡ b'/' ∷ _ =
        here-At r at ∙ ap (λ p. encode_message p args ++ tail) slash in
      (rw first refl, rw first refl)

  pub bundle_kind :
      (timetag : ℕ) (items : OscItems) (tail : List ℕ)
      → base + length (encode (bundle timetag items)) < 2 ^ 64
      → (ops.is_bundle (start (encode (bundle timetag items)) tail) ≡ true)
        × (ops.is_message (start (encode (bundle timetag items)) tail) ≡ false)
  unfolding reader_is_bundle reader_is_message strncmp_eq load8
  bundle_kind timetag items tail h =
      let at = initialize-At base (encode (bundle timetag items)) tail h in
      let first = here-At (start (encode (bundle timetag items)) tail) at in
      (rw first refl, rw first refl)

  -- The items that the reader finds in a bundle.
  pub bundle-AreItems :
      (timetag : ℕ) (items : OscItems) (tail : List ℕ)
      → timetag < 2 ^ 64
      → ItemsFit items
      → base + length (encode (bundle timetag items)) + 4 ≤ 2 ^ 64 - 1
      → let r = start (encode (bundle timetag items)) tail in
        AreItems timetag tail items (ops.bundle_items r (length (encode (bundle timetag items))))
  unfolding reader_initialize
  bundle-AreItems timetag items tail fits_tag fits room =
      let buf : List ℕ = encode (bundle timetag items) in
      let r : Reader = start buf tail in
      let at = initialize-At base buf tail (omega arith) in
      let (raws, returns, are) =
        items_from-bundle timetag items (length (buf ++ tail) + 1) r tail fits_tag fits
          (omega (arith, length-append (encode_items items) tail)) (omega (arith, at.last)) at in
      subst (λ o. AreItems timetag tail items (to_items r.mem (or_else [] o))) (sym returns) are

  mutual
    -- Whatever lies behind the packet in memory.
    pub encode-Says :
        (p : OscPacket) (fuel timetag : ℕ) (tail : List ℕ)
        → length (encode p) ≤ fuel
        → PacketFits p
        → IsImmediate timetag p
        → base + length (encode p) + 4 ≤ 2 ^ 64 - 1
        → Says ops (suc fuel) timetag (encode p ++ tail) (length (encode p)) (said p)
    encode-Says (message path args) fuel timetag tail h fits now room =
        let kind = message_kind path fits.0.0 args tail fits.0.1 (omega arith) in
        inr (
          inl (
            kind.0,
            kind.1,
            now,
            message-Says path fits.0.0 args tail fits.0.1 fits.1 fits.2 (omega arith),
          ))
    encode-Says (bundle t items) fuel timetag tail h fits now room = inl (
      (bundle_kind t items tail (omega arith)).0,
      encode_items-Says items _ fuel t tail (omega arith) fits.1 now (omega arith)
          (bundle-AreItems t items tail fits.0 fits.1 room),
    )

    encode_items-Says :
        (items : OscItems) (itms : List Item) (fuel timetag : ℕ) (tail : List ℕ)
        → length (encode_items items) ≤ fuel
        → ItemsFit items
        → AreImmediate timetag items
        → base + length (encode_items items) + 4 ≤ 2 ^ 64 - 1
        → AreItems timetag tail items itms
        → SaysItems ops (Says ops fuel) itms (said_items items)
    encode_items-Says no_items itms fuel timetag tail h fits now room are =
        subst (λ xs. SaysItems ops (Says ops fuel) xs []) (sym are) refl
    encode_items-Says (item p items) itms fuel timetag tail h fits now room are =
        let (more, same, rest) = are in
        let behind : List ℕ = encode_items items ++ tail in
        let sizes = length-append (encode p) (encode_items items) in
        let here : Says ops fuel timetag (encode p ++ behind) (length (encode p)) (said p) =
          subst (λ n. Says ops n timetag (encode p ++ behind) (length (encode p)) (said p))
            (let one : suc (fuel - 1) ≡ fuel = omega arith in one)
            (encode-Says p (fuel - 1) timetag behind (omega (arith, sizes)) fits.1 now.0
              (omega (arith, sizes))) in
        subst (λ xs. SaysItems ops (Says ops fuel) xs (said p ++ said_items items)) (sym same)
          (
            said p,
            said_items items,
            refl,
            here,
            encode_items-Says items more fuel timetag tail (omega (arith, sizes)) fits.2 now.1
                (omega (arith, sizes)) rest,
          )

  -- On valid slots, let a packet be the bytes of a message, or of bundles nested as they like, with anything
  -- behind them in memory. Let its numbers fit, its messages be immediate, and the addresses not wrap. Then
  -- `_handle_osc_packet`, with the reader of osc.lv2, returns, has done exactly the assignments that the
  -- messages say, in their order, and schedules nothing.
  pub handle_osc_packet-encode :
      (app : App Reader Arg) (p : OscPacket) (tail : List ℕ)
      → GridValid app.state.slots
      → PacketFits p
      → IsImmediate immediate p
      → base + length (encode p) + 4 ≤ 2 ^ 64 - 1
      → Does ops app (said p) (
          handle_osc_packet ops
            (suc (length (encode p)))
            app
            immediate
            (encode p ++ tail)
            (length (encode p)))
  handle_osc_packet-encode app p tail grid fits now room =
      handle_osc_packet-Does ops (suc (length (encode p))) app immediate (encode p ++ tail)
        (length (encode p)) (said p) grid
        (encode-Says p (length (encode p)) immediate tail (omega arith) fits now room)
