-- ===== src/Osc/Reader/Ops.antt =====
-- The reader as the interfaces of the program: its functions with a fault read as a null pointer, as
-- false, or as no item.
use osc2ftdidmx.Base.{
  ℕ, ◌+◌, Bool, true, false, Option, none, List, [], ◌∷◌, length, take, Outcome, ok, fault, no_fuel,
  ◌>>=◌,
}
use osc2ftdidmx.Osc.Args.{ArgOps}
use osc2ftdidmx.Osc.Memory.{Memory, bytes_from, to_size, strlen}
use osc2ftdidmx.Osc.Reader.{Reader, Got, reader_initialize, reader_is_bundle, reader_is_message}
use osc2ftdidmx.Osc.Reader.Args.{
  Arg, Stored, as_int, type_at, arg_begin, reader_arg_is_end, reader_arg_next,
}
use osc2ftdidmx.Osc.Reader.Items.{RawItem, item_begin, items_from}
use osc2ftdidmx.Packet.{Item, PacketOps}

abbrev pub got_or_null {ℓ} : {A : Type ℓ} → Reader → Got A → Reader × Option A
got_or_null r (ok got) = got
got_or_null r fault = (r, none)
got_or_null r no_fuel = (r, none)

abbrev pub or_else {ℓ} : {A : Type ℓ} → A → Outcome A → A
or_else d (ok a) = a
or_else d fault = d
or_else d no_fuel = d

-- The member `i` of the union, which is read for the type 'i' alone.
abbrev pub int_of : Stored → ℕ
int_of (as_int bits) = bits
int_of _ = 0

-- The characters of a string.
abbrev pub text_at : Memory → ℕ → List ℕ
text_at m address =
    or_else [] (strlen (bytes_from m address) >>= λ n. ok (take n (bytes_from m address)))

abbrev pub reader_args : ArgOps Reader Arg
reader_args = record {
  arg_is_end = λ r a. or_else true (reader_arg_is_end r a);
  arg_type = λ a. or_else 0 (type_at a);
  arg_int = λ a. int_of a.stored;
  arg_path = λ a. text_at a.mem a.path;
  arg_next = λ r a. got_or_null r (reader_arg_next r a);
  message_begin = λ r len. got_or_null r (arg_begin r len);
}

-- An item as `_handle_osc_bundle` passes it on.
abbrev pub to_item : Memory → RawItem → Item
to_item m itm = record {
  timetag = itm.timetag;
  size = to_size itm.size;
  body = bytes_from m itm.body;
}

abbrev pub to_items : Memory → List RawItem → List Item
to_items m [] = []
to_items m (itm ∷ items) = to_item m itm ∷ to_items m items

-- The reader of packets that lie at the address `base`; each item takes four bytes at least, so that
-- there are fewer of them than bytes.
abbrev pub reader_ops : ℕ → (List ℕ → List ℕ → Bool) → (ℕ → ℕ → Bool) → PacketOps Reader Arg
reader_ops base pattern_match malloc_ok = record {
  args = reader_args;
  initialize = λ buf len. reader_initialize (record { base = base; bytes = buf }) len;
  is_bundle = λ r. or_else false (reader_is_bundle r);
  is_message = λ r. or_else false (reader_is_message r);
  bundle_items =
      λ r len. to_items r.mem (or_else [] (items_from (length r.mem.bytes + 1) (item_begin r len)));
  pattern_match = pattern_match;
  malloc_ok = malloc_ok;
}
