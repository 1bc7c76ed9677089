-- ===== src/Osc/Writer/Strings.antt =====
-- A string is put behind four null bytes that are stored first, where the string and its padding will end.
use mathlib.Core.List.{append_assoc}
use osc2ftdidmx.Base.{
  ℕ, zero, suc, ◌+◌, ◌-◌, ◌%◌, ◌^◌, ◌<◌, ◌≤◌, ◌≡◌, ◌∙◌, sym, ap, refl, List, [], ◌∷◌, ◌++◌, arith,
  take, drop, replicate, length, length-append, take-append-drop, length-take, length-drop, ok,
}
use osc2ftdidmx.Osc.Memory.{Memory, padded_size}
use osc2ftdidmx.Osc.Wire.{padded, NoZero}
use osc2ftdidmx.Osc.Reader.Gets.{drop-drop, strlen-append, length-padded, padded-null}
use osc2ftdidmx.Osc.Writer.{Writer, add_string, store_at}
use osc2ftdidmx.Osc.Writer.Space.{
  Space, Wrote, checked-Wrote, store_at_lem, lies-split, room, take_at,
}

drop-zeros :
    (n : ℕ) (a : List ℕ) (k : ℕ)
    → length a ≤ n
    → drop n (a ++ replicate k 0) ≡ replicate (length a + k - n) 0
drop-zeros zero [] k h = ap (λ j. replicate j 0) (omega arith)
drop-zeros zero (x ∷ a) k h = absurd (omega arith)
drop-zeros (suc n) [] zero h =
    let none_left : 0 ≡ 0 - suc n = omega arith in ap (λ j. replicate {A = ℕ} j 0) none_left
drop-zeros (suc n) [] (suc k) h =
    drop-zeros n [] k (omega arith) ∙ ap (λ j. replicate j 0) (omega arith)
drop-zeros (suc n) (x ∷ a) k h =
    drop-zeros n a k (omega arith) ∙ ap (λ j. replicate j 0) (omega arith)

-- The characters of a string with the first null byte behind them, and what the padding adds.
padded-split :
    (s : List ℕ) → padded s ≡ (s ++ (0 ∷ [])) ++ replicate (length (padded s) - (length s + 1)) 0
padded-split s =
    let more : length (padded s) - (length s + 1) ≡ 3 - length s % 4 =
      omega (arith, length-padded s) in
    padded-null s
    ∙ sym (append_assoc s (0 ∷ []) (replicate (3 - length s % 4) 0))
    ∙ ap (λ k. (s ++ (0 ∷ [])) ++ replicate k 0) (sym more)

pub padded_size_lem :
    (s : List ℕ) → length s < 2 ^ 62 → padded_size (length s + 1) ≡ length (padded s)
unfolding padded_size
padded_size_lem s h = omega (arith, length-padded s, h)

module _ (w : Writer) (done free beyond : List ℕ) (space : Space w done free beyond) (s : List ℕ)
    (small : length s < 2 ^ 62) (less : length (padded s) < length free) where
  abbrev size : ℕ
  size = length (padded s)

  abbrev front : List ℕ
  front = take (size - 4) free

  abbrev rest : List ℕ
  rest = drop size free ++ beyond

  -- The memory after the four null bytes were stored.
  abbrev pub marked : Memory
  marked = record w.mem { bytes = (done ++ front) ++ (replicate 4 0 ++ rest) }

  long_front : length front ≡ size - 4
  long_front = ground (arith, length-take (size - 4) free)

  pub store_at-zeros : store_at w.mem ((w.ptr + size - 4) % 2 ^ 64) (replicate 4 0) ≡ ok marked
  store_at-zeros =
      let r = room w done free beyond space in
      let some_size : 4 ≤ size = omega (arith, length-padded s) in
      let back = drop (size - 4) free in
      let others : drop 4 back ≡ drop size free =
        sym (drop-drop (size - 4) 4 free) ∙ ap (λ n. drop n free) (omega (arith, some_size)) in
      let lies : w.mem.bytes ≡ (done ++ front) ++ (take 4 back ++ rest) =
        lies-split w done free beyond space (size - 4)
        ∙ sym (append_assoc done front (back ++ beyond))
        ∙ ap (λ b. (done ++ front) ++ (b ++ beyond)) (sym (take-append-drop 4 back))
        ∙ ap (λ t. (done ++ front) ++ t) (append_assoc (take 4 back) (drop 4 back) beyond)
        ∙ ap (λ b. (done ++ front) ++ (take 4 back ++ (b ++ beyond))) others in
      store_at_lem w.mem ((w.ptr + size - 4) % 2 ^ 64) (done ++ front) (take 4 back) (replicate 4 0)
        rest lies
        (omega (arith, r, less, some_size, space.at, long_front, length-append done front))
        (ground (arith, some_size, less, length-take 4 back, length-drop (size - 4) free))

  -- Where the string will lie, with what then stands behind it.
  pub marked_bytes :
      marked.bytes
      ≡ done
        ++ (take (length s + 1) (front ++ replicate 4 0)
            ++ (replicate (size - (length s + 1)) 0 ++ rest))
  marked_bytes =
      let zeros : List ℕ = replicate 4 0 in
      let n = length s + 1 in
      let behind : drop n (front ++ zeros) ≡ replicate (size - n) 0 =
        drop-zeros n front 4 (omega (arith, long_front, length-padded s))
        ∙ ap (λ j. replicate j 0) (omega (arith, long_front, length-padded s)) in
      append_assoc done front (zeros ++ rest)
      ∙ ap (λ t. done ++ t)
          (sym (append_assoc front zeros rest)
            ∙ ap (λ t. t ++ rest) (sym (take-append-drop n (front ++ zeros)))
            ∙ append_assoc (take n (front ++ zeros)) (drop n (front ++ zeros)) rest
            ∙ ap (λ t. take n (front ++ zeros) ++ (t ++ rest)) behind)

  pub place : length (take (length s + 1) (front ++ replicate 4 0)) ≡ length s + 1
  place = ground (
    arith,
    length-take (length s + 1) (front ++ replicate 4 0),
    length-append front (replicate 4 0),
    long_front,
    length-padded s,
  )

  pub string_over :
      done ++ ((s ++ (0 ∷ [])) ++ (replicate (size - (length s + 1)) 0 ++ rest))
      ≡ done ++ (padded s ++ rest)
  string_over =
      ap (λ t. done ++ t)
        (sym (append_assoc (s ++ (0 ∷ [])) (replicate (size - (length s + 1)) 0) rest)
          ∙ ap (λ t. t ++ rest) (sym (padded-split s)))

  pub store_at-string :
      store_at marked w.ptr (s ++ (0 ∷ []))
      ≡ ok (record w.mem { bytes = done ++ (padded s ++ rest) })
  store_at-string =
      store_at_lem marked w.ptr done (take (length s + 1) (front ++ replicate 4 0)) (s ++ (0 ∷ []))
        (replicate (size - (length s + 1)) 0 ++ rest) marked_bytes space.at
        (omega (arith, place, length-append s (0 ∷ [])))
      ∙ ap (λ b. ok (record w.mem { bytes = b })) string_over

module _ (w : Writer) (done free beyond : List ℕ) (space : Space w done free beyond)
    (s more : List ℕ) (small : length s < 2 ^ 62) (no_zero : NoZero s) where
  pub take_string : take (length s + 1) (s ++ (0 ∷ more)) ≡ s ++ (0 ∷ [])
  take_string =
      ap (take (length s + 1)) (sym (append_assoc s (0 ∷ []) more))
      ∙ take_at (length s + 1) (s ++ (0 ∷ [])) more (omega (arith, length-append s (0 ∷ [])))

  pub add_string-Wrote : Wrote done free beyond (padded s) (add_string w (s ++ (0 ∷ more)))
  unfolding add_string
  add_string-Wrote =
      rw (strlen-append s more no_zero, padded_size_lem s small)
        (checked-Wrote w done free beyond space (length (padded s)) (padded s) _ refl
          (omega (arith, length-padded s, small))
          (λ less.
            rw
              (
                store_at-zeros w done free beyond space s small less,
                take_string,
                store_at-string w done free beyond space s small less,
              )
              refl))
