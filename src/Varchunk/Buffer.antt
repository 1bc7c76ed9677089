-- ===== src/Varchunk/Buffer.antt =====
-- What is stored in an array, and what stays as it is.
use osc2ftdidmx.Base.{
  ℕ, zero, suc, ◌+◌, ◌%◌, ◌^◌, ◌<◌, ◌≤◌, ◌≡◌, ◌⊎◌, refl, List, [], ◌∷◌, ◌++◌, arith, length, ◌==◌,
  true, false,
}
use osc2ftdidmx.Varchunk.{patch, load_word, word_bytes}

-- The bytes from an index on.
abbrev pub bytes_at : (ℕ → ℕ) → ℕ → ℕ → List ℕ
bytes_at buf i zero = []
bytes_at buf i (suc n) = buf i ∷ bytes_at buf (suc i) n

pub bytes_at-same :
    (buf cur : ℕ → ℕ) (i n : ℕ)
    → ((j : ℕ) → i ≤ j → j < i + n → cur j ≡ buf j)
    → bytes_at cur i n ≡ bytes_at buf i n
bytes_at-same buf cur i zero same = refl
bytes_at-same buf cur i (suc n) same = rw (
  same i (omega arith) (omega arith),
  bytes_at-same buf cur (suc i) n (λ j h q. same j (omega arith) (omega arith)),
)

pub load_word-same :
    (buf cur : ℕ → ℕ) (i : ℕ)
    → ((j : ℕ) → i ≤ j → j < i + 4 → cur j ≡ buf j)
    → load_word cur i ≡ load_word buf i
load_word-same buf cur i same = rw (
  same i (omega arith) (omega arith),
  same (i + 1) (omega arith) (omega arith),
  same (i + 2) (omega arith) (omega arith),
  same (i + 3) (omega arith) (omega arith),
)

pub patch-other :
    (i : ℕ) (bytes : List ℕ) (buf : ℕ → ℕ) (j : ℕ)
    → (j < i) ⊎ (i + length bytes ≤ j)
    → patch i bytes buf j ≡ buf j
patch-other i [] buf j out = refl
patch-other i (b ∷ bytes) buf j out =
    let rest : (j < suc i) ⊎ (suc i + length bytes ≤ j) = ground arith in
    let other : (j == i) ≡ false = ground arith in rw other (patch-other (suc i) bytes buf j rest)

pub bytes_at-patch :
    (i : ℕ) (bytes : List ℕ) (buf : ℕ → ℕ) → bytes_at (patch i bytes buf) i (length bytes) ≡ bytes
bytes_at-patch i [] buf = refl
bytes_at-patch i (b ∷ bytes) buf =
    let first : (i == i) ≡ true = ground arith in
    let later =
      bytes_at-same (patch (suc i) bytes buf) (patch i (b ∷ bytes) buf) (suc i) (length bytes)
        (λ j h q. let other : (j == i) ≡ false = ground arith in rw other refl) in
    rw (first, later, bytes_at-patch (suc i) bytes buf) refl

-- A header that was stored is what is read.
module _ (i size gap : ℕ) (buf : ℕ → ℕ) where
  abbrev pub header_bytes : List ℕ
  header_bytes = word_bytes (size % 2 ^ 32) ++ word_bytes gap

  pub load_word-size : load_word (patch i header_bytes buf) i ≡ size % 2 ^ 32
  load_word-size = ground arith

  pub load_word-gap : gap < 2 ^ 32 → load_word (patch i header_bytes buf) (i + 4) ≡ gap
  load_word-gap h = ground arith
