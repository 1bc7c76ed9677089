-- ===== src/Osc/Reader/Bundle.antt =====
-- A bundle in its bytes: the reader goes through its items.
use mathlib.Core.List.{append-nil}
use osc2ftdidmx.Base.{
  ℕ, zero, suc, ◌+◌, ◌-◌, ◌%◌, ◌^◌, ◌<◌, ◌≤◌, ◌≡◌, ◌∙◌, sym, ap, refl, subst, true, false, none,
  some, List, [], ◌∷◌, ◌++◌, arith, length, length-append, ok, ltb,
}
use osc2ftdidmx.Osc.Memory.{strncmp_eq, to_size}
use osc2ftdidmx.Osc.Reader.{Reader, here, moved, overflow, get_be32, get_int32, get_timetag}
use osc2ftdidmx.Osc.Reader.Items.{
  RawItem, item_raw, item_header, item_begin, item_is_end, item_next, items_from,
}
use osc2ftdidmx.Osc.Reader.Ops.{to_item, to_items}
use osc2ftdidmx.Osc.Reader.Gets.{
  At, moved-At, overflow-At, here-At_append, get_be32-At, get_be64-At,
}
use osc2ftdidmx.Osc.Wire.{word32, word64}
use osc2ftdidmx.Osc.Wire.Bundle.{
  OscPacket, bundle, OscItems, no_items, item, encode, encode_items, bundle_mark, ItemsFit,
}
use osc2ftdidmx.Packet.{Item}

-- The items with this time tag, each with its size and the bytes from its begin on, where `tail` lies behind
-- the encoded items.
abbrev pub AreItems : ℕ → List ℕ → OscItems → List Item → Type 0
AreItems timetag tail no_items itms = itms ≡ []
AreItems timetag tail (item p items) itms =
    (more : List Item) × (itms
      ≡ record {
        timetag = timetag;
        size = length (encode p);
        body = encode p ++ (encode_items items ++ tail);
      }
        ∷ more)
    × AreItems timetag tail items more

get_int32-end :
    (r : Reader) {tail : List ℕ}
    → At r [] tail
    → r.end + 4 ≤ 2 ^ 64 - 1
    → get_int32 r ≡ ok (r, none)
unfolding get_int32 get_be32 overflow
get_int32-end r at room =
    let more : ltb r.end ((r.ptr + 4) % 2 ^ 64) ≡ true = ground (arith, at.last) in rw more refl

item_raw-end :
    (r : Reader) (itm : RawItem) {tail : List ℕ}
    → At r [] tail
    → r.end + 4 ≤ 2 ^ 64 - 1
    → item_raw r itm ≡ ok (r, none)
unfolding item_raw
item_raw-end r itm at room = rw (get_int32-end r at room) refl

to_size-small : (n : ℕ) → n < 2 ^ 31 → to_size n ≡ n
unfolding to_size
to_size-small n h = ground arith

-- The item at the pointer.
item_raw-At :
    (r : Reader) (itm : RawItem) (p : OscPacket) (items : OscItems) (tail : List ℕ)
    → length (encode p) < 2 ^ 31
    → At r (encode_items (item p items)) tail
    → (item_raw r itm
        ≡ ok (moved r 4, some (record itm { size = length (encode p); body = (moved r 4).ptr })))
      × At (moved r 4) (encode p ++ encode_items items) tail
unfolding item_raw get_int32
item_raw-At r itm p items tail h at =
    let next : At (moved r 4) (encode p ++ encode_items items) tail =
      moved-At r (word32 (length (encode p))) (encode p ++ encode_items items) tail 4 at refl in
    (
      rw
          (
            get_be32-At r (length (encode p)) (encode p ++ encode_items items) tail at
                (omega arith),
            to_size-small (length (encode p)) h,
            overflow-At (moved r 4) (encode p) (encode_items items) tail (length (encode p)) next
                refl,
          )
          refl,
      next,
    )

-- The item that `_handle_osc_bundle` passes on.
to_item-At :
    (r : Reader) (itm : RawItem) (p : OscPacket) (front tail : List ℕ)
    → length (encode p) < 2 ^ 31
    → At r (encode p ++ front) tail
    → to_item r.mem (record itm { size = length (encode p); body = r.ptr }) ≡ record {
      timetag = itm.timetag;
      size = length (encode p);
      body = encode p ++ (front ++ tail);
    }
to_item-At r itm p front tail h at =
    ap (λ n. record { timetag = itm.timetag; size = n; body = here r })
      (to_size-small (length (encode p)) h)
    ∙ ap (λ b. record { timetag = itm.timetag; size = length (encode p); body = b })
        (here-At_append r (encode p) front tail (length (encode p)) at refl)

items_from_lem :
    (items : OscItems) (fuel : ℕ) (r : Reader) (itm : RawItem) (tail : List ℕ)
    → ItemsFit items
    → length (encode_items items) < fuel
    → itm.end ≡ r.end
    → r.end + 4 ≤ 2 ^ 64 - 1
    → At r (encode_items items) tail
    → (raws : List RawItem) × (items_from fuel (item_raw r itm) ≡ ok raws)
      × AreItems itm.timetag tail items (to_items r.mem raws)
unfolding items_from item_next item_is_end
items_from_lem items zero r itm tail fits h stop room at = absurd (omega arith)
items_from_lem no_items (suc fuel) r itm tail fits h stop room at =
    ([], rw (item_raw-end r itm at room) refl, refl)
items_from_lem (item p items) (suc fuel) r itm tail fits h stop room at =
    let n : ℕ = length (encode p) in
    let now : RawItem = record itm { size = n; body = (moved r 4).ptr } in
    let (raw, at_body) = item_raw-At r itm p items tail fits.0 at in
    let behind : At (moved (moved r 4) n) (encode_items items) tail =
      moved-At (moved r 4) (encode p) (encode_items items) tail n at_body refl in
    let (more, returns, are) =
      items_from_lem items fuel (moved (moved r 4) n) now tail fits.2
        (omega (arith, length-append (encode p) (encode_items items))) stop room behind in
    let goes_on : ltb itm.end (moved r 4).ptr ≡ false = ground (arith, at_body.last, stop) in
    (
      now ∷ more,
      rw (raw, goes_on, to_size-small n fits.0, returns) refl,
      (
        to_items r.mem more,
        ap (λ i. i ∷ to_items r.mem more)
            (to_item-At (moved r 4) itm p (encode_items items) tail fits.0 at_body),
        are,
      ),
    )

-- Let the reader stand at the bytes of a bundle whose numbers fit, with addresses that do not wrap. Then
-- the loop of `OSC_READER_BUNDLE_FOREACH` ends within as many turns as the items have bytes and one more,
-- and it goes through the items in order: each with its size, the bytes from its begin on, and the time tag
-- of the bundle.
pub items_from-bundle :
    (timetag : ℕ) (items : OscItems) (fuel : ℕ) (r : Reader) (tail : List ℕ)
    → timetag < 2 ^ 64
    → ItemsFit items
    → length (encode_items items) < fuel
    → r.end + 4 ≤ 2 ^ 64 - 1
    → At r (encode (bundle timetag items)) tail
    → (raws : List RawItem) × (items_from fuel
          (item_begin r (length (encode (bundle timetag items))))
        ≡ ok raws)
      × AreItems timetag tail items (to_items r.mem raws)
unfolding item_begin item_header get_timetag strncmp_eq
items_from-bundle timetag items fuel r tail fits_tag fits h room at =
    let len : ℕ = length (encode (bundle timetag items)) in
    let stop : (r.ptr + len) % 2 ^ 64 ≡ r.end = omega (arith, at.last, at.fits) in
    let marked : At (moved r 8) (word64 timetag ++ encode_items items) tail =
      moved-At r bundle_mark (word64 timetag ++ encode_items items) tail 8 at refl in
    let begun : At (moved (moved r 8) 8) (encode_items items) tail =
      moved-At (moved r 8) (word64 timetag) (encode_items items) tail 8 marked refl in
    let itm : RawItem = record {
      size = 0;
      body = 0;
      timetag = timetag;
      end = (r.ptr + len) % 2 ^ 64;
    } in
    let (raws, returns, are) =
      items_from_lem items fuel (moved (moved r 8) 8) itm tail fits h stop room begun in
    (
      raws,
      rw
          (
            overflow-At r (encode (bundle timetag items)) [] tail len
                (subst (λ xs. At r xs tail) (sym (append-nil (encode (bundle timetag items)))) at)
                refl,
            overflow-At r (bundle_mark ++ word64 timetag) (encode_items items) tail 16 at refl,
            here-At_append r bundle_mark (word64 timetag ++ encode_items items) tail 8 at refl,
            get_be64-At (moved r 8) timetag (encode_items items) tail marked fits_tag,
            returns,
          )
          refl,
      are,
    )
