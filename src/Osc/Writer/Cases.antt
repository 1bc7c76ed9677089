-- ===== src/Osc/Writer/Cases.antt =====
-- The arguments of a message: each case of the `switch` puts the bytes that the format of OSC 1.0 asks for.
use mathlib.Core.List.{append-nil}
use osc2ftdidmx.Base.{
  ℕ, ◌+◌, ◌-◌, ◌/◌, ◌%◌, ◌^◌, ◌<◌, ◌≡◌, ◌∙◌, sym, ap, subst, refl, List, [], ◌∷◌, ◌++◌, arith, ltb,
  length, if◌then◌else◌,
}
use osc2ftdidmx.Osc.Wire.{
  int, float, char, midi, rgba, long, double, timetag, string, symbol, yes_flag, no_flag, nil,
  impulse, Argument, four, eight, text, blob, flag, tag_of, word32, word64, padded, encode_arg,
  NoZero,
}
use osc2ftdidmx.Osc.Writer.{
  Writer, Put, be32, be64, add_blob, add_midi, put_be32, put_be64, add_rgba, add_char,
}
use osc2ftdidmx.Osc.Writer.Space.{Space, Wrote, and_put-Wrote}
use osc2ftdidmx.Osc.Writer.Adds.{be32-word32, put_be32-Wrote, put_be64-Wrote, add_rgba-Wrote}
use osc2ftdidmx.Osc.Writer.Strings.{add_string-Wrote}
use osc2ftdidmx.Osc.Writer.Bodies.{blob_bytes, filling, gap, add_midi-Wrote, add_blob-Wrote}
use osc2ftdidmx.Osc.Writer.Args.{Passed, word, wide, real, pointer, put_case}

-- How a caller passes an argument, where `widen` gives the `double` for a `float`.
abbrev pub passed : (ℕ → ℕ) → Argument → List Passed
passed widen (four int u) = word u ∷ []
passed widen (four float u) = real (widen u) ∷ []
passed widen (four char u) = word u ∷ []
passed widen (four midi u) = word 4 ∷ pointer (word32 u) ∷ []
passed widen (four rgba u) =
    word (u / 2 ^ 24) ∷ word (u / 2 ^ 16 % 256) ∷ word (u / 2 ^ 8 % 256) ∷ word (u % 256) ∷ []
passed widen (eight long u) = wide u ∷ []
passed widen (eight double u) = real u ∷ []
passed widen (eight timetag u) = wide u ∷ []
passed widen (text k s) = pointer (s ++ (0 ∷ [])) ∷ []
passed widen (blob bytes) = word (length bytes) ∷ pointer bytes ∷ []
passed widen (flag k) = []

-- Numbers fit their size, a `float` that is passed as a `double` is cast back to itself, characters are ASCII,
-- strings have no null byte inside, and four divides the size of a blob.
abbrev pub Writable : (ℕ → ℕ) → (ℕ → ℕ) → Argument → Type 0
Writable narrow widen (four float u) = (u < 2 ^ 32) × (narrow (widen u) ≡ u)
Writable narrow widen (four char u) = u < 128
Writable narrow widen (four k u) = u < 2 ^ 32
Writable narrow widen (eight k u) = u < 2 ^ 64
Writable narrow widen (text k s) = NoZero s × (length s < 2 ^ 62)
Writable narrow widen (blob bytes) = (length bytes < 2 ^ 31) × (gap bytes ≡ 0)
Writable narrow widen (flag k) = Unit

four_same :
    {a b c d x y z t : ℕ}
    → a ≡ x
    → b ≡ y
    → c ≡ z
    → d ≡ t
    → (a ∷ b ∷ c ∷ d ∷ []) ≡ (x ∷ y ∷ z ∷ t ∷ [])
four_same p q r s = cc

be64-word64 : (u : ℕ) → u < 2 ^ 64 → be64 u ≡ word64 u
be64-word64 u h =
    let high : be32 (u / 2 ^ 32) ≡ word32 (u / 2 ^ 32) =
      be32-word32 (u / 2 ^ 32) (omega (arith, h)) in
    let low : be32 (u % 2 ^ 32) ≡ word32 (u % 2 ^ 32) = be32-word32 (u % 2 ^ 32) (omega arith) in
    let a : u / 2 ^ 24 % 256 ≡ (u % 2 ^ 32) / 2 ^ 24 % 256 = omega arith in
    let b : u / 2 ^ 16 % 256 ≡ (u % 2 ^ 32) / 2 ^ 16 % 256 = omega arith in
    let c : u / 2 ^ 8 % 256 ≡ (u % 2 ^ 32) / 2 ^ 8 % 256 = omega arith in
    let d : u % 256 ≡ u % 2 ^ 32 % 256 = omega arith in
    ap (λ t. t ++ be32 u) high ∙ ap (λ t. word32 (u / 2 ^ 32) ++ t) (four_same a b c d ∙ low)

module _ (narrow widen : ℕ → ℕ) (w : Writer) (done free beyond : List ℕ)
    (space : Space w done free beyond) where
  word32-Wrote : (u : ℕ) → u < 2 ^ 32 → Wrote done free beyond (word32 u) (put_be32 w u)
  word32-Wrote u h =
      subst (λ bs. Wrote done free beyond bs (put_be32 w u)) (be32-word32 u h)
        (put_be32-Wrote w done free beyond space u)

  word64-Wrote : (u : ℕ) → u < 2 ^ 64 → Wrote done free beyond (word64 u) (put_be64 w u)
  word64-Wrote u h =
      subst (λ bs. Wrote done free beyond bs (put_be64 w u)) (be64-word64 u h)
        (put_be64-Wrote w done free beyond space u)

  char-Wrote : (u : ℕ) → u < 128 → Wrote done free beyond (word32 u) (add_char w (u % 256))
  char-Wrote u h =
      let plain : (if ltb (u % 256) 128 then u % 256 else 2 ^ 32 - 256 + u % 256) ≡ u =
        ground (arith, h) in
      subst (λ c. Wrote done free beyond (word32 u) (put_be32 w c)) (sym plain)
        (word32-Wrote u (omega (arith, h)))

  rgba-Wrote :
      (u : ℕ)
      → u < 2 ^ 32
      → Wrote done free beyond (word32 u) (
          add_rgba w
            (u / 2 ^ 24 % 256)
            (u / 2 ^ 16 % 256 % 256)
            (u / 2 ^ 8 % 256 % 256)
            (u % 256 % 256))
  rgba-Wrote u h =
      let top : u / 2 ^ 24 % 256 ≡ u / 2 ^ 24 = omega (arith, h) in
      let byte : (n : ℕ) → n % 256 % 256 ≡ n % 256 = λ n. omega arith in
      rw (top, byte (u / 2 ^ 16), byte (u / 2 ^ 8), byte u)
        (add_rgba-Wrote w done free beyond space (u / 2 ^ 24) (u / 2 ^ 16 % 256) (u / 2 ^ 8 % 256)
          (u % 256))

  midi-Wrote : (u : ℕ) → Wrote done free beyond (word32 u) (add_midi w 4 (word32 u))
  midi-Wrote u =
      subst (λ bs. Wrote done free beyond bs (add_midi w 4 (word32 u))) (append-nil (word32 u))
        (subst (λ m. Wrote done free beyond (word32 u ++ []) (add_midi w 4 m))
          (append-nil (word32 u))
          (add_midi-Wrote w done free beyond space (word32 u) [] (omega arith)))

  blob-Wrote :
      (bytes : List ℕ)
      → length bytes < 2 ^ 31
      → gap bytes ≡ 0
      → Wrote done free beyond (encode_arg (blob bytes)) (add_blob w (length bytes) bytes)
  blob-Wrote bytes small none_left =
      let same : blob_bytes bytes free ≡ encode_arg (blob bytes) =
        ap (λ t. t ++ (bytes ++ filling (gap bytes) (4 + length bytes) free))
          (be32-word32 (length bytes) (omega (arith, small)))
        ∙ rw none_left refl in
      subst (λ bs. Wrote done free beyond bs (add_blob w (length bytes) bytes)) same
        (subst (λ m. Wrote done free beyond (blob_bytes bytes free) (add_blob w (length bytes) m))
          (append-nil bytes) (add_blob-Wrote w done free beyond space bytes [] small))

  module _ (args : List Passed) (ys : List ℕ) (next : List Passed → Writer → Put)
      (some_left : 0 < length free) where
    abbrev After : Argument → Type 0
    After a =
        (v : Writer) (left : List ℕ)
        → Space v (done ++ encode_arg a) left beyond
        → 0 < length left
        → Wrote (done ++ encode_arg a) left beyond ys (next args v)

    flag-Wrote :
        (Space w (done ++ []) free beyond
          → 0 < length free
          → Wrote (done ++ []) free beyond ys (next args w))
        → Wrote done free beyond ys (next args w)
    flag-Wrote go =
        subst (λ d. Wrote d free beyond ys (next args w)) (append-nil done)
          (go (subst (λ d. Space w d free beyond) (sym (append-nil done)) space) some_left)

    pub put_case-Wrote :
        (a : Argument)
        → Writable narrow widen a
        → After a
        → Wrote done free beyond
            (encode_arg a ++ ys)
            (put_case narrow (tag_of a) (passed widen a ++ args) w next)
    unfolding put_case
    put_case-Wrote (four int u) fits go =
        and_put-Wrote done free beyond (word32 u) ys (put_be32 w u) (next args)
          (word32-Wrote u fits) go
    put_case-Wrote (four float u) fits go = rw fits.1 (
        and_put-Wrote done free beyond (word32 u) ys (put_be32 w u) (next args)
          (word32-Wrote u fits.0) go)
    put_case-Wrote (four char u) fits go =
        and_put-Wrote done free beyond (word32 u) ys (add_char w (u % 256)) (next args)
          (char-Wrote u fits) go
    put_case-Wrote (four midi u) fits go =
        and_put-Wrote done free beyond (word32 u) ys (add_midi w 4 (word32 u)) (next args)
          (midi-Wrote u) go
    put_case-Wrote (four rgba u) fits go =
        and_put-Wrote done free beyond (word32 u) ys _ (next args) (rgba-Wrote u fits) go
    put_case-Wrote (eight long u) fits go =
        and_put-Wrote done free beyond (word64 u) ys (put_be64 w u) (next args)
          (word64-Wrote u fits) go
    put_case-Wrote (eight double u) fits go =
        and_put-Wrote done free beyond (word64 u) ys (put_be64 w u) (next args)
          (word64-Wrote u fits) go
    put_case-Wrote (eight timetag u) fits go =
        and_put-Wrote done free beyond (word64 u) ys (put_be64 w u) (next args)
          (word64-Wrote u fits) go
    put_case-Wrote (text string s) fits go =
        and_put-Wrote done free beyond (padded s) ys _ (next args)
          (add_string-Wrote w done free beyond space s [] fits.1 fits.0) go
    put_case-Wrote (text symbol s) fits go =
        and_put-Wrote done free beyond (padded s) ys _ (next args)
          (add_string-Wrote w done free beyond space s [] fits.1 fits.0) go
    put_case-Wrote (blob bytes) fits go =
        and_put-Wrote done free beyond (encode_arg (blob bytes)) ys _ (next args)
          (blob-Wrote bytes fits.0 fits.1) go
    put_case-Wrote (flag yes_flag) fits go = flag-Wrote (go w free)
    put_case-Wrote (flag no_flag) fits go = flag-Wrote (go w free)
    put_case-Wrote (flag nil) fits go = flag-Wrote (go w free)
    put_case-Wrote (flag impulse) fits go = flag-Wrote (go w free)
