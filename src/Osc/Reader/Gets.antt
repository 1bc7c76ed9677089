-- ===== src/Osc/Reader/Gets.antt =====
-- The functions that take a value off the reader, on bytes that encode it.
use mathlib.Core.List.{append_assoc}
use osc2ftdidmx.Base.{
  ℕ, zero, suc, ◌+◌, ◌-◌, ◌%◌, ◌^◌, ◌<◌, ◌≤◌, ◌≡◌, ◌∙◌, sym, ap, refl, false, some, List, [], ◌∷◌,
  ◌++◌, arith, length, length-append, length-replicate, replicate, drop, ok,
}
use osc2ftdidmx.Osc.Memory.{Memory, bytes_from, load32, load64, strlen, padded_size}
use osc2ftdidmx.Osc.Reader.{
  Reader, here, moved, overflow, get_be32, get_be64, get_string, reader_initialize,
}
use osc2ftdidmx.Osc.Wire.{word32, word64, padded, NoZero}

-- `front` lies between the pointer and the end of the packet, `tail` behind it, and no address wraps.
pub record At (r : Reader) (front tail : List ℕ) : Type 0 where
  pub low : r.mem.base ≤ r.ptr
  pub bytes : drop (r.ptr - r.mem.base) r.mem.bytes ≡ front ++ tail
  pub last : r.end ≡ r.ptr + length front
  pub fits : r.end < 2 ^ 64

drop-nil : (k : ℕ) → drop {A = ℕ} k [] ≡ []
drop-nil zero = refl
drop-nil (suc k) = refl

pub drop-drop : (m n : ℕ) (xs : List ℕ) → drop (m + n) xs ≡ drop n (drop m xs)
drop-drop zero n xs = let none_yet : zero + n ≡ n = omega arith in ap (λ k. drop k xs) none_yet
drop-drop (suc m) n [] = drop-nil (suc m + n) ∙ sym (drop-nil n)
drop-drop (suc m) n (x ∷ xs) =
    let next : suc m + n ≡ suc (m + n) = omega arith in
    ap (λ k. drop k (x ∷ xs)) next ∙ drop-drop m n xs

pub drop-append : (xs ys : List ℕ) → drop (length xs) (xs ++ ys) ≡ ys
drop-append [] ys = refl
drop-append (x ∷ xs) ys = drop-append xs ys

pub bytes_from-low : (m : Memory) (p : ℕ) → m.base ≤ p → bytes_from m p ≡ drop (p - m.base) m.bytes
bytes_from-low m p h = ground arith

-- The bytes from a later address on.
pub bytes_from-later :
    (m : Memory) (p : ℕ) (xs ys : List ℕ)
    → m.base ≤ p
    → drop (p - m.base) m.bytes ≡ xs ++ ys
    → drop (p + length xs - m.base) m.bytes ≡ ys
bytes_from-later m p xs ys h e =
    let split : p + length xs - m.base ≡ p - m.base + length xs = omega arith in
    ap (λ k. drop k m.bytes) split
    ∙ drop-drop (p - m.base) (length xs) m.bytes
    ∙ ap (drop (length xs)) e
    ∙ drop-append xs ys

pub bytes_from-ahead :
    (m : Memory) (p : ℕ) (xs ys : List ℕ)
    → m.base ≤ p
    → drop (p - m.base) m.bytes ≡ xs ++ ys
    → bytes_from m (p + length xs) ≡ ys
bytes_from-ahead m p xs ys h e =
    bytes_from-low m (p + length xs) (omega arith) ∙ bytes_from-later m p xs ys h e

pub here-At : (r : Reader) {front tail : List ℕ} → At r front tail → here r ≡ front ++ tail
here-At r a = bytes_from-low r.mem r.ptr a.low ∙ a.bytes

module _ (r : Reader) (xs front tail : List ℕ) (n : ℕ) (a : At r (xs ++ front) tail)
    (size : length xs ≡ n) where
  bound : r.ptr + n < 2 ^ 64
  bound = omega (arith, a.last, a.fits, length-append xs front)

  moved-ptr : (moved r n).ptr ≡ r.ptr + n
  moved-ptr = let b = bound in omega arith

  pub moved-At : At (moved r n) front tail
  moved-At = record {
    low = omega (arith, moved-ptr, a.low);
    bytes =
        ap (λ p. drop (p - r.mem.base) r.mem.bytes) (moved-ptr ∙ ap (λ k. r.ptr + k) (sym size))
        ∙ bytes_from-later r.mem r.ptr xs (front ++ tail) a.low
            (a.bytes ∙ append_assoc xs front tail);
    last = omega (arith, moved-ptr, a.last, length-append xs front);
    fits = a.fits;
  }

  pub overflow-At : overflow r n ≡ false
  unfolding overflow
  overflow-At = let b = bound in ground (arith, a.last, length-append xs front)

  pub here-At_append : here r ≡ xs ++ (front ++ tail)
  here-At_append = here-At r a ∙ append_assoc xs front tail

-- A number of four bytes, and of eight.
load32-word32 : (u : ℕ) (rest : List ℕ) → u < 2 ^ 32 → load32 (word32 u ++ rest) ≡ ok u
unfolding load32
load32-word32 u rest h = ap ok (omega arith)

load64-word64 : (u : ℕ) (rest : List ℕ) → u < 2 ^ 64 → load64 (word64 u ++ rest) ≡ ok u
unfolding load64
load64-word64 u rest h = ap ok (omega arith)

module _ (r : Reader) (u : ℕ) (front tail : List ℕ) where
  pub get_be32-At : At r (word32 u ++ front) tail → u < 2 ^ 32 → get_be32 r ≡ ok (moved r 4, some u)
  unfolding get_be32
  get_be32-At a h =
      rw
        (
          overflow-At r (word32 u) front tail 4 a refl,
          here-At_append r (word32 u) front tail 4 a refl,
          load32-word32 u (front ++ tail) h,
        )
        refl

  pub get_be64-At : At r (word64 u ++ front) tail → u < 2 ^ 64 → get_be64 r ≡ ok (moved r 8, some u)
  unfolding get_be64
  get_be64-At a h =
      rw
        (
          overflow-At r (word64 u) front tail 8 a refl,
          here-At_append r (word64 u) front tail 8 a refl,
          load64-word64 u (front ++ tail) h,
        )
        refl

-- A string.
pub strlen-append : (s rest : List ℕ) → NoZero s → strlen (s ++ (0 ∷ rest)) ≡ ok (length s)
unfolding strlen
strlen-append [] rest h = refl
strlen-append (c ∷ cs) rest h = ground (arith, strlen-append cs rest h.1)

pub length-padded : (s : List ℕ) → length (padded s) ≡ length s + (4 - length s % 4)
length-padded s = omega (
  arith,
  length-append s (replicate (4 - length s % 4) 0),
  length-replicate {A = ℕ} (4 - length s % 4) 0,
)

-- The padding begins with a null byte.
pub padded-null : (s : List ℕ) → padded s ≡ s ++ (0 ∷ replicate (3 - length s % 4) 0)
padded-null s =
    let more : 4 - length s % 4 ≡ suc (3 - length s % 4) = omega arith in
    ap (λ k. s ++ replicate k 0) more

module _ (r : Reader) (s front tail : List ℕ) (a : At r (padded s ++ front) tail) where
  pub padded_size-length : padded_size (length s + 1) ≡ length (padded s)
  unfolding padded_size
  padded_size-length =
      omega (arith, length-padded s, a.last, a.fits, length-append (padded s) front)

  pub strlen-At : NoZero s → strlen (here r) ≡ ok (length s)
  strlen-At h =
      ap strlen (
        here-At_append r (padded s) front tail (length (padded s)) a refl
        ∙ ap (λ p. p ++ (front ++ tail)) (padded-null s)
        ∙ append_assoc s _ _)
      ∙ strlen-append s _ h

  pub get_string-At : NoZero s → get_string r ≡ ok (moved r (length (padded s)), some r.ptr)
  unfolding get_string
  get_string-At h =
      rw
        (
          strlen-At h,
          padded_size-length,
          overflow-At r (padded s) front tail (length (padded s)) a refl,
        )
        refl

-- The packet lies at `base`, and no address that is computed wraps.
pub initialize-At :
    (base : ℕ) (front tail : List ℕ)
    → base + length front < 2 ^ 64
    → At
        (reader_initialize (record { base = base; bytes = front ++ tail }) (length front))
        front
        tail
unfolding reader_initialize
initialize-At base front tail h = record {
  low = omega arith;
  bytes = let none_yet : base - base ≡ 0 = omega arith in ap (λ k. drop k (front ++ tail)) none_yet;
  last = omega arith;
  fits = omega arith;
}
