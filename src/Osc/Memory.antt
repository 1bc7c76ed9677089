-- ===== src/Osc/Memory.antt =====
-- The memory that a packet lies in, as the reader of osc.lv2/osc.lv2/reader.h sees it: the bytes that
-- can be read from the address `base` on. A read anywhere else is a fault.
use osc2ftdidmx.Base.{
  ℕ, ◌+◌, ◌-◌, ◌*◌, ◌/◌, ◌%◌, ◌^◌, Bool, true, false, List, [], ◌∷◌, ◌==◌, ltb, leb, drop,
  if◌then◌else◌, Outcome, ok, fault, ◌>>=◌,
}

pub record Memory : Type 0 where
  pub base : ℕ
  pub bytes : List ℕ

-- The bytes that can be read from an address on.
abbrev pub bytes_from : Memory → ℕ → List ℕ
bytes_from m address = if leb m.base address then drop (address - m.base) m.bytes else []

unfoldable pub load8 : List ℕ → Outcome ℕ
load8 [] = fault
load8 (a ∷ rest) = ok a

-- `be32toh` of the four bytes at a pointer, on either byte order.
abbrev pub big_endian32 : ℕ → ℕ → ℕ → ℕ → ℕ
big_endian32 a b c d = a * 2 ^ 24 + b * 2 ^ 16 + c * 2 ^ 8 + d

unfoldable pub load32 : List ℕ → Outcome ℕ
load32 (a ∷ b ∷ c ∷ d ∷ rest) = ok (big_endian32 a b c d)
load32 _ = fault

-- `be64toh` of the eight bytes at a pointer.
unfoldable pub load64 : List ℕ → Outcome ℕ
load64 (a ∷ b ∷ c ∷ d ∷ e ∷ f ∷ g ∷ h ∷ rest) =
    ok (big_endian32 a b c d * 2 ^ 32 + big_endian32 e f g h)
load64 _ = fault

-- `strlen` of the bytes at a pointer.
unfoldable pub strlen : List ℕ → Outcome ℕ
strlen [] = fault
strlen (c ∷ cs) = let rest = strlen cs >>= λ n. ok (n + 1) in if c == 0 then ok 0 else rest

-- `strncmp(s, t, n) == 0` for the bytes at a pointer and the bytes of `t`, of which no more than `n` are
-- given: the comparison ends at the first difference and behind a null byte.
unfoldable pub strncmp_eq : List ℕ → List ℕ → Outcome Bool
strncmp_eq s [] = ok true
strncmp_eq [] (c ∷ cs) = fault
strncmp_eq (b ∷ bs) (c ∷ cs) =
    let rest = strncmp_eq bs cs in if b == c then (if c == 0 then ok true else rest) else ok false

-- `LV2_OSC_PADDED_SIZE`, in `size_t` of 64 bits.
unfoldable pub padded_size : ℕ → ℕ
padded_size size = (size + 3) % 2 ^ 64 / 4 * 4

-- The cast of the bits of an `int32_t` to `size_t`.
unfoldable pub to_size : ℕ → ℕ
to_size bits = if ltb bits (2 ^ 31) then bits else 2 ^ 64 - 2 ^ 32 + bits
