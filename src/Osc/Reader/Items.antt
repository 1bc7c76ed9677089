-- ===== src/Osc/Reader/Items.antt =====
-- The items of a bundle: `LV2_OSC_Item` and the loop of `OSC_READER_BUNDLE_FOREACH`.
use osc2ftdidmx.Base.{
  ℕ, zero, suc, ◌+◌, ◌%◌, ◌^◌, Bool, none, some, List, [], ◌∷◌, ◌++◌, ltb, if◌then◌else◌, codes,
  Outcome, ok, fault, no_fuel, ◌>>=◌,
}
use osc2ftdidmx.Osc.Memory.{strncmp_eq, to_size}
use osc2ftdidmx.Osc.Reader.{Reader, Got, and_get, here, moved, overflow, get_int32, get_timetag}

-- `LV2_OSC_Item`; `size` has the bits of an `int32_t`, and `body` is an address.
pub record RawItem : Type 0 where
  pub size : ℕ
  pub body : ℕ
  pub timetag : ℕ
  pub end : ℕ

-- `lv2_osc_reader_item_raw`
unfoldable pub item_raw : Reader → RawItem → Got RawItem
unfolding overflow
item_raw r itm = and_get (get_int32 r) (λ s size.
    if overflow s (to_size size)
    then ok (s, none)
    else ok (s, some (record itm { size = size; body = s.ptr })))

-- `lv2_osc_reader_item_begin` from the comparison on.
unfoldable pub item_header : Reader → ℕ → Got RawItem
unfolding item_raw
item_header r end = strncmp_eq (here r) (codes "#bundle" ++ (0 ∷ [])) >>= λ same.
    if same
    then and_get (get_timetag (moved r 8))
        (λ s timetag. item_raw s (record { size = 0; body = 0; timetag = timetag; end = end }))
    else ok (r, none)

-- `lv2_osc_reader_item_begin`
unfoldable pub item_begin : Reader → ℕ → Got RawItem
unfolding item_header overflow
item_begin r len =
    let header = item_header r ((r.ptr + len) % 2 ^ 64) in
    if overflow r len then ok (r, none) else (if overflow r 16 then ok (r, none) else header)

-- `lv2_osc_reader_item_is_end`
unfoldable pub item_is_end : Reader → RawItem → Bool
item_is_end r itm = ltb itm.end r.ptr

-- `lv2_osc_reader_item_next`
unfoldable pub item_next : Reader → RawItem → Got RawItem
unfolding item_raw
item_next r itm = item_raw (moved r (to_size itm.size)) itm

-- The items that the loop goes through, from the one that was begun on; each turn takes fuel.
unfoldable pub items_from : ℕ → Got RawItem → Outcome (List RawItem)
unfolding item_next item_is_end
items_from zero got = no_fuel
items_from (suc fuel) (ok (r, none)) = ok []
items_from (suc fuel) (ok (r, some itm)) =
    let rest = items_from fuel (item_next r itm) >>= λ more. ok (itm ∷ more) in
    if item_is_end r itm then ok [] else rest
items_from (suc fuel) fault = fault
items_from (suc fuel) no_fuel = no_fuel
