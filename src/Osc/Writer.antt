-- ===== src/Osc/Writer.antt =====
-- The writer of osc.lv2/osc.lv2/writer.h: `LV2_OSC_Writer` and the functions that put values into its array.
-- Pointers are addresses of 64 bits. A store outside the memory that is given is a fault, and so is a read of
-- an argument that was not passed or has another type.
pub mod Space
pub mod Adds
pub mod Strings
pub mod Format
pub mod Bodies
pub mod Args
pub mod Cases
pub mod Message
pub mod RoundTrip
use osc2ftdidmx.Base.{
  ℕ, zero, suc, ◌+◌, ◌-◌, ◌*◌, ◌/◌, ◌%◌, ◌^◌, Bool, true, false, ◌||◌, ◌&&◌, Option, none, some,
  List, [], ◌∷◌, ◌++◌, ◌==◌, ltb, leb, take, drop, length, replicate, if◌then◌else◌, codes, Outcome,
  ok, fault, no_fuel, ◌>>=◌,
}
use osc2ftdidmx.Osc.Memory.{Memory, strlen, padded_size, to_size}

-- `LV2_OSC_Writer`, with the memory that it writes to.
pub record Writer : Type 0 where
  pub mem : Memory
  pub buf : ℕ
  pub ptr : ℕ
  pub end : ℕ

-- The writer after a function, and its boolean result.
abbrev pub Put : Type 0
Put = Outcome (Writer × Bool)

-- `if(!o) return false;`, and `k` else.
abbrev pub and_put : Put → (Writer → Put) → Put
and_put (ok (w, false)) k = ok (w, false)
and_put (ok (w, true)) k = k w
and_put fault k = fault
and_put no_fuel k = no_fuel

-- `memcpy` of these bytes to an offset of a list.
abbrev pub splice : ℕ → List ℕ → List ℕ → List ℕ
splice k new xs = take k xs ++ (new ++ drop (k + length new) xs)

-- The bytes are stored at an address.
unfoldable pub store_at : Memory → ℕ → List ℕ → Outcome Memory
store_at m address new =
    if leb m.base address
    then if leb (address - m.base + length new) (length m.bytes)
      then ok (record m { bytes = splice (address - m.base) new m.bytes })
      else fault
    else fault

-- `memcpy` and `strncpy` to a place in the memory of the writer, whose pointer then moves on by `n`.
abbrev pub copy_to : Writer → ℕ → List ℕ → Outcome Writer
copy_to w address new = store_at w.mem address new >>= λ m. ok (record w { mem = m })

abbrev pub advanced : Writer → ℕ → Writer
advanced w n = record w { ptr = (w.ptr + n) % 2 ^ 64 }

-- `lv2_osc_writer_initialize`
unfoldable pub writer_initialize : Memory → ℕ → ℕ → Writer
writer_initialize m buf size = record { mem = m; buf = buf; ptr = buf; end = (buf + size) % 2 ^ 64 }

-- `lv2_osc_writer_get_size`
unfoldable pub writer_get_size : Writer → ℕ
writer_get_size w = if ltb w.buf w.ptr then w.ptr - w.buf else 0

-- `lv2_osc_writer_finalize`: the size, and the begin of the array unless it is zero.
unfoldable pub writer_finalize : Writer → ℕ × Option ℕ
unfolding writer_get_size
writer_finalize w = let size = writer_get_size w in (size, if size == 0 then none else some w.buf)

-- `lv2_osc_writer_overflow`
unfoldable pub writer_overflow : Writer → ℕ → Bool
writer_overflow w size = leb w.end ((w.ptr + size) % 2 ^ 64)

-- The bytes of a number with its highest byte first: what `htobe32` and `htobe64` leave in memory.
abbrev pub be32 : ℕ → List ℕ
be32 u = u / 2 ^ 24 % 256 ∷ u / 2 ^ 16 % 256 ∷ u / 2 ^ 8 % 256 ∷ u % 256 ∷ []

abbrev pub be64 : ℕ → List ℕ
be64 u = be32 (u / 2 ^ 32) ++ be32 u

-- `lv2_osc_writer_htobe32` and `lv2_osc_writer_htobe64`
unfoldable pub put_be32 : Writer → ℕ → Put
unfolding writer_overflow store_at
put_be32 w u =
    let stored = copy_to w w.ptr (be32 u) >>= λ v. ok (advanced v 4, true) in
    if writer_overflow w 4 then ok (w, false) else stored

unfoldable pub put_be64 : Writer → ℕ → Put
unfolding writer_overflow store_at
put_be64 w u =
    let stored = copy_to w w.ptr (be64 u) >>= λ v. ok (advanced v 8, true) in
    if writer_overflow w 8 then ok (w, false) else stored

abbrev pub add_int32 : Writer → ℕ → Put
add_int32 w i = put_be32 w i

abbrev pub add_float : Writer → ℕ → Put
add_float w f = put_be32 w f

abbrev pub add_int64 : Writer → ℕ → Put
add_int64 w h = put_be64 w h

abbrev pub add_double : Writer → ℕ → Put
add_double w d = put_be64 w d

abbrev pub add_timetag : Writer → ℕ → Put
add_timetag w u = put_be64 w u

-- `lv2_osc_writer_add_string`, where `s` are the bytes from the pointer on.
unfoldable pub add_string : Writer → List ℕ → Put
unfolding writer_overflow store_at padded_size strlen
add_string w s = strlen s >>= λ n.
    let padded = padded_size (n + 1) in
    let stored = copy_to w ((w.ptr + padded - 4) % 2 ^ 64) (replicate 4 0) >>= λ v.
    copy_to v v.ptr (take (n + 1) s) >>= λ u. ok (advanced u padded, true) in
    if writer_overflow w padded then ok (w, false) else stored

abbrev pub add_symbol : Writer → List ℕ → Put
add_symbol w s = add_string w s

-- `lv2_osc_writer_add_path`
abbrev pub add_path : Writer → List ℕ → Put
add_path w path = add_string w path

-- `lv2_osc_writer_add_format`
unfoldable pub add_format : Writer → List ℕ → Put
unfolding writer_overflow store_at padded_size strlen
add_format w fmt = strlen fmt >>= λ n.
    let padded = padded_size (n + 2) in
    let stored = copy_to w ((w.ptr + padded - 4) % 2 ^ 64) (replicate 4 0) >>= λ v.
    copy_to v v.ptr (b',' ∷ []) >>= λ u.
    copy_to (advanced u 1) (advanced u 1).ptr (take (n + 1) fmt) >>= λ t.
    ok (advanced t (padded - 1), true) in
    if writer_overflow w padded then ok (w, false) else stored

-- `memcpy(dst, body, len)`, where `body` are the bytes from the pointer on and `len` is an `int32_t`.
abbrev pub copy_body : Writer → ℕ → List ℕ → ℕ → Put
copy_body w dst body len =
    if leb (to_size len) (length body)
    then (copy_to w dst (take (to_size len) body) >>= λ v. ok (v, true))
    else fault

-- A function with the address of the space in the array as its result.
abbrev pub Inline : Type 0
Inline = Outcome (Writer × Option ℕ)

-- `lv2_osc_writer_add_blob_inline` and `lv2_osc_writer_add_midi_inline`: the space keeps the bytes it has.
abbrev pub body_behind : ℕ → Writer × Bool → Inline
body_behind len_padded (w, false) = ok (w, none)
body_behind len_padded (w, true) = ok (advanced w len_padded, some w.ptr)

unfoldable pub add_blob_inline : Writer → ℕ → Inline
unfolding writer_overflow padded_size to_size put_be32
add_blob_inline w len =
    let len_padded = padded_size (to_size len) in
    let behind = add_int32 w len >>= body_behind len_padded in
    if writer_overflow w ((4 + len_padded) % 2 ^ 64) then ok (w, none) else behind

unfoldable pub add_midi_inline : Writer → ℕ → Inline
unfolding writer_overflow
add_midi_inline w len =
    let long = ltb len (2 ^ 31) && ltb 4 len in
    if long || writer_overflow w 4 then ok (w, none) else ok (advanced w 4, some w.ptr)

-- `if(!..._inline(writer, len, &dst)) return false; memcpy(dst, body, len);`
abbrev pub with_body : List ℕ → ℕ → Writer × Option ℕ → Put
with_body body len (w, none) = ok (w, false)
with_body body len (w, some dst) = copy_body w dst body len

abbrev pub add_blob : Writer → ℕ → List ℕ → Put
add_blob w len body = add_blob_inline w len >>= with_body body len

abbrev pub add_midi : Writer → ℕ → List ℕ → Put
add_midi w len m = add_midi_inline w len >>= with_body m len

-- `lv2_osc_writer_add_rgba`
unfoldable pub add_rgba : Writer → ℕ → ℕ → ℕ → ℕ → Put
unfolding writer_overflow store_at
add_rgba w r g b a =
    let stored = copy_to w w.ptr (r ∷ g ∷ b ∷ a ∷ []) >>= λ v. ok (advanced v 4, true) in
    if writer_overflow w 4 then ok (w, false) else stored

-- `lv2_osc_writer_add_char`: a `char` is signed, and its sign is extended.
abbrev pub add_char : Writer → ℕ → Put
add_char w c = add_int32 w (if ltb c 128 then c else 2 ^ 32 - 256 + c)
