-- ===== src/Varchunk.antt =====
-- The ring buffer of varchunk/varchunk.h: chunks of bytes with a header of eight bytes, in an array
-- that one thread writes at `head` and another reads at `tail`. The memory orders are left out.
pub mod Buffer
pub mod Laid
pub mod Valid
pub mod Write
pub mod Commit
pub mod Read
pub mod Sharing
pub mod Fifo
pub mod New
use mathlib.Core.Option.{map}
use osc2ftdidmx.Base.{
  ℕ, ◌+◌, ◌-◌, ◌*◌, ◌/◌, ◌%◌, ◌^◌, Option, none, some, List, [], ◌∷◌, ◌++◌, ◌==◌, ltb, leb,
  if◌then◌else◌, length, bit_and, Outcome, ok, fault, no_fuel, ◌>>=◌, zero, suc,
}

-- `varchunk_t`; `buf` gives the byte at each index below `size`.
pub record Ring : Type 0 where
  pub size : ℕ
  pub mask : ℕ
  pub rsvd : ℕ
  pub gapd : ℕ
  pub head : ℕ
  pub tail : ℕ
  pub buf : ℕ → ℕ

-- `sizeof(varchunk_elmnt_t)`
abbrev pub header_size : ℕ
header_size = 8

-- `VARCHUNK_PAD`: its mask `~7U` has 32 bits, and takes the bits above off a `size_t`.
unfoldable pub pad : ℕ → ℕ
pad size = (size + 7) % 2 ^ 64 % 2 ^ 32 / 8 * 8

-- `a - b` in `size_t`.
unfoldable pub sub_size : ℕ → ℕ → ℕ
sub_size a b = (a + 2 ^ 64 - b) % 2 ^ 64

-- Stores from an index on.
abbrev pub patch : ℕ → List ℕ → (ℕ → ℕ) → ℕ → ℕ
patch i [] buf j = buf j
patch i (b ∷ bytes) buf j = if j == i then b else patch (suc i) bytes buf j

-- An `uint32_t` in memory, on a machine with the lowest byte first.
abbrev pub load_word : (ℕ → ℕ) → ℕ → ℕ
load_word buf i = buf i + buf (i + 1) * 2 ^ 8 + buf (i + 2) * 2 ^ 16 + buf (i + 3) * 2 ^ 24

abbrev pub word_bytes : ℕ → List ℕ
word_bytes u = u % 256 ∷ u / 2 ^ 8 % 256 ∷ u / 2 ^ 16 % 256 ∷ u / 2 ^ 24 % 256 ∷ []

-- `varchunk_elmnt_t`
pub record Header : Type 0 where
  pub chunk_size : ℕ
  pub gap : ℕ

-- A header at an index, read and written; out of the array is a fault.
unfoldable pub read_header : Ring → ℕ → Outcome Header
read_header r i =
    if leb (i + header_size) r.size
    then ok (record { chunk_size = load_word r.buf i; gap = load_word r.buf (i + 4) })
    else fault

unfoldable pub write_header : Ring → ℕ → ℕ → ℕ → Outcome Ring
write_header r i size gap =
    if leb (i + header_size) r.size
    then ok (record r { buf = patch i (word_bytes (size % 2 ^ 32) ++ word_bytes gap) r.buf })
    else fault

-- What the writer stores at the index that it was given.
unfoldable pub store : Ring → ℕ → List ℕ → Outcome Ring
store r i bytes =
    if leb (i + length bytes) r.size then ok (record r { buf = patch i bytes r.buf }) else fault

-- `varchunk_body_size`; each turn of the loop takes fuel.
unfoldable pub grow : ℕ → ℕ → ℕ → Outcome ℕ
grow zero size minimum = no_fuel
grow (suc fuel) size minimum =
    let rest = grow fuel (size * 2 % 2 ^ 64) minimum in if ltb size minimum then rest else ok size

unfoldable pub body_size : ℕ → ℕ → Outcome ℕ
unfolding grow
body_size fuel minimum = grow fuel 1 minimum

-- `varchunk_init`; what the memory, `rsvd` and `gapd` hold before is left as it is.
unfoldable pub varchunk_init : Ring → ℕ → Ring
unfolding sub_size
varchunk_init r size = record r { head = 0; tail = 0; size = size; mask = sub_size size 1 }

-- `_varchunk_write_advance_raw`
unfoldable pub write_advance_raw : Ring → ℕ → ℕ → Ring
write_advance_raw r head written = record r { head = bit_and ((head + written) % 2 ^ 64) r.mask }

-- The writable space of `varchunk_write_request_max`.
unfoldable pub writable : Ring → ℕ
unfolding sub_size
writable r =
    if ltb r.tail r.head
    then sub_size (bit_and ((sub_size r.tail r.head + r.size) % 2 ^ 64) r.mask) 1
    else if ltb r.head r.tail
    then sub_size (sub_size r.tail r.head) 1
    else sub_size r.size 1

abbrev pub reserve : Ring → ℕ → ℕ → Ring
reserve r rsvd gapd = record r { rsvd = rsvd; gapd = gapd }

-- `varchunk_write_request_max`: the index of the chunk's body, or `none` for a null pointer. What it stores
-- in `*maximum` is `rsvd`.
unfoldable pub write_request_max : Ring → ℕ → Ring × Option ℕ
unfolding pad sub_size writable
write_request_max r minimum =
    let padded = 2 * header_size + pad minimum in
    let space = writable r in
    let end = (r.head + space) % 2 ^ 64 in
    let len1 = sub_size r.size r.head in
    let len2 = bit_and end r.mask in
    let contiguous =
      (if ltb space padded
        then (reserve r 0 0, none)
        else (reserve r space 0, some (r.head + header_size))) in
    let second =
      (if ltb len2 padded
        then (reserve r 0 0, none)
        else (reserve r len2 len1, some header_size)) in
    let first =
      (if ltb len1 padded then second else (reserve r len1 0, some (r.head + header_size))) in
    if ltb r.size end then first else contiguous

-- `varchunk_write_advance`; the assertion that fails is a fault.
unfoldable pub write_advance : Ring → ℕ → Outcome Ring
unfolding pad write_header write_advance_raw
write_advance r written =
    let new_head = r.gapd + header_size + pad written in
    let with_gap =
      (write_header r r.head (r.gapd - header_size) 1 >>= λ s.
      write_header s 0 written 0 >>= λ t. ok (write_advance_raw t r.head new_head)) in
    let without =
      write_header r r.head written 0 >>= λ s. ok (write_advance_raw s r.head new_head) in
    if leb written r.rsvd then (if ltb 0 r.gapd then with_gap else without) else fault

-- `_varchunk_read_advance_raw`
unfoldable pub read_advance_raw : Ring → ℕ → ℕ → Ring
read_advance_raw r tail read = record r { tail = bit_and ((tail + read) % 2 ^ 64) r.mask }

-- The readable space of `varchunk_read_request`.
unfoldable pub readable : Ring → ℕ
unfolding sub_size
readable r =
    if ltb r.tail r.head
    then sub_size r.head r.tail
    else bit_and ((sub_size r.head r.tail + r.size) % 2 ^ 64) r.mask

-- The chunk at the tail is used.
abbrev pub use_chunk : Ring → Header → Outcome (Ring × Option (ℕ × ℕ))
use_chunk r e = ok (r, some (e.chunk_size, r.tail + header_size))

-- `varchunk_read_request`: the size of the chunk and the index of its body, or `none` for a null pointer.
unfoldable pub read_request : Ring → Outcome (Ring × Option (ℕ × ℕ))
unfolding readable read_header read_advance_raw sub_size
read_request r =
    let space = readable r in
    let behind_gap = read_header r 0 >>= λ e.
    ok (read_advance_raw r r.tail (sub_size r.size r.tail), some (e.chunk_size, header_size)) in
    let wrapping = read_header r r.tail >>= λ e. if e.gap == 0 then use_chunk r e else behind_gap in
    let contiguous = read_header r r.tail >>= use_chunk r in
    if ltb 0 space
    then (if ltb r.size ((r.tail + space) % 2 ^ 64) then wrapping else contiguous)
    else ok (r, none)

-- `varchunk_read_advance`
unfoldable pub read_advance : Ring → Outcome Ring
unfolding pad read_header read_advance_raw
read_advance r =
    read_header r r.tail >>= λ e. ok (read_advance_raw r r.tail (header_size + pad e.chunk_size))

-- `varchunk_new`, with the memory that `posix_memalign` gives, if it does.
unfoldable pub varchunk_new : ℕ → Option Ring → ℕ → Outcome (Option Ring)
varchunk_new fuel memory minimum =
    body_size fuel minimum >>= λ size. ok (map (λ r. varchunk_init r size) memory)
