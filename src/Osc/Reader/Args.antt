-- ===== src/Osc/Reader/Args.antt =====
-- `LV2_OSC_Arg` and the functions that go through the arguments of a message.
use osc2ftdidmx.Base.{
  ℕ, ◌+◌, ◌%◌, ◌^◌, Bool, ◌||◌, none, some, ◌==◌, ltb, if◌then◌else◌, Outcome, ok, ◌>>=◌,
}
use osc2ftdidmx.Osc.Memory.{Memory, bytes_from, load8, strlen}
use osc2ftdidmx.Osc.Reader.{
  Reader, Got, and_get, overflow, get_int32, get_float, get_string, get_blob, get_int64, get_double,
  get_timetag, get_midi, get_symbol, get_char, get_rgba,
}

-- The union of `LV2_OSC_Arg`, by the member that was stored last.
pub data Stored : Type 0 where
  nothing : Stored
  as_int as_float as_string as_blob as_int64 as_double as_timetag as_midi as_symbol as_char :
      ℕ → Stored
  as_rgba : ℕ × ℕ × ℕ × ℕ → Stored

-- `LV2_OSC_Arg`, with the memory that its pointers point to; `size` has the bits of an `int32_t`.
pub record Arg : Type 0 where
  pub mem : Memory
  pub type : ℕ
  pub size : ℕ
  pub stored : Stored
  pub path : ℕ
  pub end : ℕ

-- `*arg->type`
abbrev pub type_at : Arg → Outcome ℕ
type_at a = load8 (bytes_from a.mem a.type)

-- The cases of the `switch` that read a value of a fixed size.
abbrev pub sized : Arg → ℕ → (ℕ → Stored) → Got ℕ → Got Arg
sized a n store got = and_get got (λ r v. ok (r, some (record a { size = n; stored = store v })))

-- Those for strings, whose size is `strlen(...) + 1`.
abbrev pub string_case : Arg → (ℕ → Stored) → Got ℕ → Got Arg
string_case a store got = and_get got (λ r p. strlen (bytes_from a.mem p) >>= λ n.
    ok (r, some (record a { size = (n + 1) % 2 ^ 32; stored = store p })))

-- The `switch` of `lv2_osc_reader_arg_raw`; the types T, F, N and I, and all others, read nothing.
unfoldable pub raw_case : ℕ → Reader → Arg → Got Arg
raw_case kind r a =
    if kind == b'i'
    then sized a 4 as_int (get_int32 r)
    else if kind == b'f'
    then sized a 4 as_float (get_float r)
    else if kind == b's'
    then string_case a as_string (get_string r)
    else if kind == b'b'
    then and_get (get_blob r) (λ q v. ok (q, some (record a { size = v.0; stored = as_blob v.1 })))
    else if kind == b'h'
    then sized a 8 as_int64 (get_int64 r)
    else if kind == b'd'
    then sized a 8 as_double (get_double r)
    else if kind == b't'
    then sized a 8 as_timetag (get_timetag r)
    else if kind == b'm'
    then sized a 4 as_midi (get_midi r)
    else if kind == b'S'
    then string_case a as_symbol (get_symbol r)
    else if kind == b'c'
    then sized a 4 as_char (get_char r)
    else if kind == b'r'
    then and_get (get_rgba r) (λ q v. ok (q, some (record a { size = 4; stored = as_rgba v })))
    else ok (r, some a)

-- `lv2_osc_reader_arg_raw`
unfoldable pub arg_raw : Reader → Arg → Got Arg
unfolding raw_case
arg_raw r a = type_at a >>= λ kind. raw_case kind r a

-- The end of `lv2_osc_reader_arg_begin`: the type string must begin with ','.
unfoldable pub with_types : Reader → Arg → Got Arg
unfolding arg_raw
with_types r a = type_at a >>= λ kind.
    if kind == b',' then arg_raw r (record a { type = a.type + 1 }) else ok (r, none)

-- `lv2_osc_reader_arg_begin`
unfoldable pub arg_begin : Reader → ℕ → Got Arg
unfolding with_types overflow
arg_begin r len =
    let begun = and_get (get_string r) (λ q path. and_get (get_string q) (λ p type.
      with_types p (record {
        mem = r.mem;
        type = type;
        size = 0;
        stored = nothing;
        path = path;
        end = (r.ptr + len) % 2 ^ 64;
      }))) in
    if overflow r len then ok (r, none) else begun

-- `lv2_osc_reader_arg_is_end`
unfoldable pub reader_arg_is_end : Reader → Arg → Outcome Bool
reader_arg_is_end r a = type_at a >>= λ kind. ok (kind == 0 || ltb a.end r.ptr)

-- `lv2_osc_reader_arg_next`
unfoldable pub reader_arg_next : Reader → Arg → Got Arg
unfolding arg_raw
reader_arg_next r a = arg_raw r (record a { type = a.type + 1 })
