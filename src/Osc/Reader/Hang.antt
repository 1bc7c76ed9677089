-- ===== src/Osc/Reader/Hang.antt =====
-- A bundle whose first item has the size -4: the pointer goes back over the size that was just read.
use osc2ftdidmx.Base.{
  ℕ, zero, suc, ◌+◌, ◌-◌, ◌%◌, ◌^◌, ◌<◌, ◌≡◌, sym, ap, refl, subst, false, some, List, ◌++◌, arith,
  length, ok, no_fuel, ltb,
}
use osc2ftdidmx.Osc.Memory.{strncmp_eq, to_size}
use osc2ftdidmx.Osc.Reader.{Reader, moved, overflow, get_int32, get_timetag}
use osc2ftdidmx.Osc.Reader.Items.{
  RawItem, item_raw, item_header, item_begin, item_is_end, item_next, items_from,
}
use osc2ftdidmx.Osc.Reader.Gets.{
  At, moved-At, overflow-At, here-At_append, get_be32-At, get_be64-At,
}
use osc2ftdidmx.Osc.Wire.{word32, word64}
use osc2ftdidmx.Osc.Wire.Bundle.{bundle_mark}

-- The bits of -4.
abbrev pub minus_four : ℕ
minus_four = 2 ^ 32 - 4

abbrev stuck : Reader → RawItem → RawItem
stuck r itm = record itm { size = minus_four; body = (moved r 4).ptr }

item_raw-stuck :
    (r : Reader) (itm : RawItem) (front tail : List ℕ)
    → At r (word32 minus_four ++ front) tail
    → item_raw r itm ≡ ok (moved r 4, some (stuck r itm))
unfolding item_raw get_int32 overflow to_size
item_raw-stuck r itm front tail at =
    let back : ltb r.end (((r.ptr + 4) % 2 ^ 64 + (2 ^ 64 - 4)) % 2 ^ 64) ≡ false =
      ground (arith, at.last, at.fits) in
    rw (get_be32-At r minus_four front tail at (omega arith), back) refl

items_from-stuck :
    (fuel : ℕ) (r : Reader) (itm : RawItem) (front tail : List ℕ)
    → itm.end ≡ r.end
    → At r (word32 minus_four ++ front) tail
    → items_from fuel (item_raw r itm) ≡ no_fuel
unfolding items_from item_next item_is_end to_size
items_from-stuck zero r itm front tail stop at = refl
items_from-stuck (suc fuel) r itm front tail stop at =
    let next : Reader = moved r 4 in
    let goes_on : ltb itm.end next.ptr ≡ false = ground (arith, at.last, at.fits, stop) in
    let same_ptr : ((r.ptr + 4) % 2 ^ 64 + (2 ^ 64 - 4)) % 2 ^ 64 ≡ r.ptr =
      omega (arith, at.last, at.fits) in
    let back : moved next (2 ^ 64 - 4) ≡ r = ap (λ p. record r { ptr = p }) same_ptr in
    let again : items_from fuel (item_next next (stuck r itm)) ≡ no_fuel =
      subst (λ q. items_from fuel (item_raw q (stuck r itm)) ≡ no_fuel) (sym back)
        (items_from-stuck fuel r (stuck r itm) front tail stop at) in
    rw (item_raw-stuck r itm front tail at, goes_on, again) refl

-- Let the reader stand at the bytes of a bundle whose first item has the size -4, with anything behind
-- that. Then the loop of `OSC_READER_BUNDLE_FOREACH` does not end within any number of turns.
pub items_from-minus_four :
    (timetag fuel : ℕ) (r : Reader) (front tail : List ℕ)
    → timetag < 2 ^ 64
    → At r (bundle_mark ++ (word64 timetag ++ (word32 minus_four ++ front))) tail
    → items_from fuel (item_begin r (20 + length front)) ≡ no_fuel
unfolding item_begin item_header get_timetag strncmp_eq overflow
items_from-minus_four timetag fuel r front tail fits at =
    let rest : List ℕ = word32 minus_four ++ front in
    let stop : (r.ptr + (20 + length front)) % 2 ^ 64 ≡ r.end = omega (arith, at.last, at.fits) in
    let marked : At (moved r 8) (word64 timetag ++ rest) tail =
      moved-At r bundle_mark (word64 timetag ++ rest) tail 8 at refl in
    let begun : At (moved (moved r 8) 8) rest tail =
      moved-At (moved r 8) (word64 timetag) rest tail 8 marked refl in
    let itm : RawItem = record { size = 0; body = 0; timetag = timetag; end = r.end } in
    let inside : ltb r.end r.end ≡ false = ground arith in
    rw
      (
        stop,
        inside,
        overflow-At r (bundle_mark ++ word64 timetag) rest tail 16 at refl,
        here-At_append r bundle_mark (word64 timetag ++ rest) tail 8 at refl,
        get_be64-At (moved r 8) timetag rest tail marked fits,
      )
      (items_from-stuck fuel (moved (moved r 8) 8) itm front tail refl begun)
