-- ===== src/Osc/Reader.antt =====
-- The reader of osc.lv2/osc.lv2/reader.h: `LV2_OSC_Reader` and the functions that take values off it.
-- Pointers are addresses of 64 bits, and their arithmetic wraps.
pub mod Args
pub mod Items
pub mod Ops
pub mod Gets
pub mod Cases
pub mod Message
pub mod Bundle
pub mod Hang
use osc2ftdidmx.Base.{
  ℕ, ◌+◌, ◌-◌, ◌%◌, ◌^◌, Bool, true, false, Option, none, some, List, ◌==◌, ltb, if◌then◌else◌,
  codes, Outcome, ok, fault, no_fuel, ◌>>=◌, [], ◌∷◌, ◌++◌,
}
use osc2ftdidmx.Osc.Memory.{
  Memory, bytes_from, load8, load32, load64, strlen, strncmp_eq, padded_size, to_size,
}

-- `LV2_OSC_Reader`, with the memory that it reads; `buf` is never read.
pub record Reader : Type 0 where
  pub mem : Memory
  pub ptr : ℕ
  pub end : ℕ

-- What a function with a boolean or a pointer as its result returns: the reader after it, and the value
-- that it stores, or `none` for false and for a null pointer.
abbrev pub Got {ℓ} : Type ℓ → Type ℓ
Got A = Outcome (Reader × Option A)

-- `if(!m) return false;`, and `k` else.
abbrev pub and_get {ℓ κ} : {A : Type ℓ} {B : Type κ} → Got A → (Reader → A → Got B) → Got B
and_get (ok (r, none)) k = ok (r, none)
and_get (ok (r, some a)) k = k r a
and_get fault k = fault
and_get no_fuel k = no_fuel

abbrev pub here : Reader → List ℕ
here r = bytes_from r.mem r.ptr

-- `reader->ptr += n`
abbrev pub moved : Reader → ℕ → Reader
moved r n = record r { ptr = (r.ptr + n) % 2 ^ 64 }

-- `lv2_osc_reader_initialize`
unfoldable pub reader_initialize : Memory → ℕ → Reader
reader_initialize m size = record { mem = m; ptr = m.base; end = (m.base + size) % 2 ^ 64 }

-- `lv2_osc_reader_overflow`
unfoldable pub overflow : Reader → ℕ → Bool
overflow r size = ltb r.end ((r.ptr + size) % 2 ^ 64)

-- `lv2_osc_reader_be32toh` and `lv2_osc_reader_be64toh`
unfoldable pub get_be32 : Reader → Got ℕ
unfolding overflow
get_be32 r =
    let got = load32 (here r) >>= λ u. ok (moved r 4, some u) in
    if overflow r 4 then ok (r, none) else got

unfoldable pub get_be64 : Reader → Got ℕ
unfolding overflow
get_be64 r =
    let got = load64 (here r) >>= λ u. ok (moved r 8, some u) in
    if overflow r 8 then ok (r, none) else got

-- The bits of an `int32_t`, a `float`, an `int64_t`, a time tag and a `double`.
unfoldable pub get_int32 : Reader → Got ℕ
get_int32 r = and_get (get_be32 r) (λ s u. ok (s, some u))

unfoldable pub get_float : Reader → Got ℕ
get_float r = and_get (get_be32 r) (λ s u. ok (s, some u))

unfoldable pub get_int64 : Reader → Got ℕ
get_int64 r = and_get (get_be64 r) (λ s u. ok (s, some u))

unfoldable pub get_timetag : Reader → Got ℕ
get_timetag r = and_get (get_be64 r) (λ s u. ok (s, some u))

unfoldable pub get_double : Reader → Got ℕ
get_double r = and_get (get_be64 r) (λ s u. ok (s, some u))

-- `lv2_osc_reader_get_string`: the address of the string.
unfoldable pub get_string : Reader → Got ℕ
unfolding overflow
get_string r = strlen (here r) >>= λ n.
    if overflow r (padded_size (n + 1))
    then ok (r, none)
    else ok (moved r (padded_size (n + 1)), some r.ptr)

unfoldable pub get_symbol : Reader → Got ℕ
get_symbol r = get_string r

unfoldable pub get_midi : Reader → Got ℕ
unfolding overflow
get_midi r = if overflow r 4 then ok (r, none) else ok (moved r 4, some r.ptr)

-- The bits of the length, and the address of the body.
unfoldable pub get_blob : Reader → Got (ℕ × ℕ)
unfolding get_int32 overflow
get_blob r = and_get (get_int32 r) (λ s len.
    if overflow s (padded_size (to_size len))
    then ok (s, none)
    else ok (moved s (padded_size (to_size len)), some (len, s.ptr)))

-- The four bytes are read one by one.
unfoldable pub get_rgba : Reader → Got (ℕ × ℕ × ℕ × ℕ)
unfolding overflow
get_rgba r =
    let got =
      (load8 (here r) >>= λ red. load8 (bytes_from r.mem (r.ptr + 1)) >>= λ green.
      load8 (bytes_from r.mem (r.ptr + 2)) >>= λ blue.
      load8 (bytes_from r.mem (r.ptr + 3)) >>= λ alpha.
      ok (moved r 4, some (red, green, blue, alpha))) in
    if overflow r 4 then ok (r, none) else got

unfoldable pub get_char : Reader → Got ℕ
unfolding get_int32
get_char r = and_get (get_int32 r) (λ s i. ok (s, some (i % 2 ^ 8)))

-- `lv2_osc_reader_is_bundle` and `lv2_osc_reader_is_message`
unfoldable pub reader_is_bundle : Reader → Outcome Bool
reader_is_bundle r = strncmp_eq (here r) (codes "#bundle" ++ (0 ∷ []))

unfoldable pub reader_is_message : Reader → Outcome Bool
reader_is_message r = load8 (here r) >>= λ c. ok (c == b'/')
