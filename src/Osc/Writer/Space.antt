-- ===== src/Osc/Writer/Space.antt =====
-- The array of a writer: what is written, the space that is free, and what a function does with it.
use mathlib.Core.List.{append_assoc, append-nil}
use osc2ftdidmx.Base.{
  ℕ, zero, suc, ◌+◌, ◌-◌, ◌%◌, ◌^◌, ◌<◌, ◌≤◌, ◌≡◌, ◌⊎◌, inl, inr, ◌∙◌, sym, ap, subst, refl, Bool,
  true, false, List, [], ◌∷◌, ◌++◌, arith, leb, take, drop, length, length-append, take-append-drop,
  length-take, length-drop, Bool-cases, tests, if◌then◌else◌, ok,
}
use osc2ftdidmx.Osc.Memory.{Memory}
use osc2ftdidmx.Osc.Writer.{Writer, Put, and_put, splice, store_at, writer_overflow}

-- The bytes `done` are written, the pointer stands behind them, and the bytes `free` reach to the end of the
-- array; `beyond` is memory of others.
pub record Space (w : Writer) (done free beyond : List ℕ) : Type 0 where
  pub lies : w.mem.bytes ≡ done ++ (free ++ beyond)
  pub start : w.buf ≡ w.mem.base
  pub at : w.ptr ≡ w.mem.base + length done
  pub stop : w.end ≡ w.ptr + length free
  pub fits : w.mem.base + length w.mem.bytes < 2 ^ 63

module _ {ℓ} {A : Type ℓ} where
  pub drop_at : (n : ℕ) (xs ys : List A) → n ≡ length xs → drop n (xs ++ ys) ≡ ys
  drop_at zero [] ys e = refl
  drop_at zero (x ∷ xs) ys e = absurd (omega (arith, e))
  drop_at (suc n) [] ys e = absurd (omega (arith, e))
  drop_at (suc n) (x ∷ xs) ys e = drop_at n xs ys (omega (arith, e))

  pub take_at : (n : ℕ) (xs ys : List A) → n ≡ length xs → take n (xs ++ ys) ≡ xs
  take_at zero [] ys e = refl
  take_at zero (x ∷ xs) ys e = absurd (omega (arith, e))
  take_at (suc n) [] ys e = absurd (omega (arith, e))
  take_at (suc n) (x ∷ xs) ys e = ap (λ t. x ∷ t) (take_at n xs ys (omega (arith, e)))

pub splice_lem :
    (pre old new rest : List ℕ)
    → length new ≡ length old
    → splice (length pre) new (pre ++ (old ++ rest)) ≡ pre ++ (new ++ rest)
splice_lem pre old new rest e =
    let dropped : drop (length pre + length new) (pre ++ (old ++ rest)) ≡ rest =
      ap (drop (length pre + length new)) (sym (append_assoc pre old rest))
      ∙ drop_at (length pre + length new) (pre ++ old) rest
          (omega (arith, e, length-append pre old)) in
    rw (take_at (length pre) pre (old ++ rest) refl, dropped) refl

-- Bytes are stored over as many others.
pub store_at_lem :
    (m : Memory) (address : ℕ) (pre old new rest : List ℕ)
    → m.bytes ≡ pre ++ (old ++ rest)
    → address ≡ m.base + length pre
    → length new ≡ length old
    → store_at m address new ≡ ok (record m { bytes = pre ++ (new ++ rest) })
unfolding store_at
store_at_lem m address pre old new rest lies at same =
    let sized =
      ap length lies
      ∙ length-append pre (old ++ rest)
      ∙ ap (λ k. length pre + k) (length-append old rest) in
    let above : leb m.base address ≡ true = ground arith in
    let offset : address - m.base ≡ length pre = omega (arith, at) in
    let inside : leb (length pre + length new) (length m.bytes) ≡ true = ground arith in
    rw (above, offset, inside, lies, splice_lem pre old new rest same) refl

-- Whether all bytes fit is whether fewer bytes than are free are to be written; what is written is a part of the
-- bytes else.
abbrev pub Wrote : List ℕ → List ℕ → List ℕ → List ℕ → Put → Type 0
Wrote done free beyond bytes o =
    (v : Writer) × (b : Bool) × (part : List ℕ) × (rest : List ℕ) × (o ≡ ok (v, b))
    × Space v (done ++ part) rest beyond
    × (length part + length rest ≡ length free)
    × (((b ≡ true) × (part ≡ bytes) × (length bytes < length free))
        ⊎ ((b ≡ false) × (length free ≤ length bytes)))

module _ (w : Writer) (done free beyond : List ℕ) (space : Space w done free beyond) where
  -- The pointer and the bytes behind it, in the numbers of 64 bits.
  pub room : w.ptr + length free + length beyond < 2 ^ 63
  room =
      let sized =
        ap length space.lies
        ∙ length-append done (free ++ beyond)
        ∙ ap (λ k. length done + k) (length-append free beyond) in
      omega (arith, space.at, space.fits)

  pub writer_overflow_lem : (n : ℕ) → n < 2 ^ 63 → writer_overflow w n ≡ leb (length free) n
  unfolding writer_overflow
  writer_overflow_lem n small =
      let r = room in
      let wraps : (w.ptr + n) % 2 ^ 64 ≡ w.ptr + n = omega (arith, r, small) in
      let stop = space.stop in rw wraps (ground arith)

  -- Nothing is written where the space is too small.
  pub full-Wrote :
      (bytes : List ℕ) → length free ≤ length bytes → Wrote done free beyond bytes (ok (w, false))
  full-Wrote bytes short = (
    w,
    false,
    [],
    free,
    refl,
    subst (λ d. Space w d free beyond) (sym (append-nil done)) space,
    omega arith,
    inr (refl, short),
  )

  -- The writer after bytes were stored at the pointer.
  abbrev pub after : List ℕ → Writer
  after new = record w {
    mem = record w.mem { bytes = done ++ (new ++ (drop (length new) free ++ beyond)) };
    ptr = (w.ptr + length new) % 2 ^ 64;
  }

  pub after-Wrote :
      (new : List ℕ) → length new < length free → Wrote done free beyond new (ok (after new, true))
  after-Wrote new less =
      let rest = drop (length new) free in
      let dropped = length-drop (length new) free in
      let sized =
        ap length space.lies
        ∙ length-append done (free ++ beyond)
        ∙ ap (λ k. length done + k) (length-append free beyond) in
      let resized =
        length-append done (new ++ (rest ++ beyond))
        ∙ ap (λ k. length done + k)
            (length-append new (rest ++ beyond)
              ∙ ap (λ k. length new + k) (length-append rest beyond)) in
      let r = room in
      let moves : (w.ptr + length new) % 2 ^ 64 ≡ w.ptr + length new = omega (arith, r, less) in
      (
        after new,
        true,
        new,
        rest,
        refl,
        record {
          lies = sym (append_assoc done new (rest ++ beyond));
          start = space.start;
          at = omega (arith, moves, space.at, length-append done new);
          stop = omega (arith, moves, space.stop, dropped);
          fits = omega (arith, resized, sized, space.fits, dropped);
        },
        omega (arith, dropped),
        inl (refl, refl, less),
      )

  -- The test for the space, and a store with the pointer moved on behind it.
  pub checked-Wrote :
      (n : ℕ) (new : List ℕ) (stored : Put)
      → n ≡ length new
      → n < 2 ^ 63
      → (length new < length free → stored ≡ ok (after new, true))
      → Wrote done free beyond new (if writer_overflow w n then ok (w, false) else stored)
  checked-Wrote n new stored e small does = elim (Bool-cases (leb (length free) n)) [
    | inl full ↦ rw (writer_overflow_lem n small, full) (full-Wrote new (omega (tests, full, e)))
    | inr free_left ↦
        let less : length new < length free = ground arith in
        rw (writer_overflow_lem n small, free_left, does less) (after-Wrote new less)
  ]

  -- The memory in front of the free bytes, some of them, and the others.
  pub lies-split : (n : ℕ) → w.mem.bytes ≡ done ++ (take n free ++ (drop n free ++ beyond))
  lies-split n =
      space.lies
      ∙ ap (λ f. done ++ (f ++ beyond)) (sym (take-append-drop n free))
      ∙ ap (λ t. done ++ t) (append_assoc (take n free) (drop n free) beyond)

  -- A store at the pointer.
  pub store_at-ptr :
      (new : List ℕ)
      → length new < length free
      → store_at w.mem w.ptr new
        ≡ ok (record w.mem { bytes = done ++ (new ++ (drop (length new) free ++ beyond)) })
  store_at-ptr new less =
      store_at_lem w.mem w.ptr done (take (length new) free) new (drop (length new) free ++ beyond)
        (lies-split (length new)) space.at (ground (arith, length-take (length new) free))

-- One function after another.
pub and_put-Wrote :
    (done free beyond xs ys : List ℕ) (o : Put) (k : Writer → Put)
    → Wrote done free beyond xs o
    → ((v : Writer) (rest : List ℕ)
        → Space v (done ++ xs) rest beyond
        → 0 < length rest
        → Wrote (done ++ xs) rest beyond ys (k v))
    → Wrote done free beyond (xs ++ ys) (and_put o k)
and_put-Wrote done free beyond xs ys o k (v, b, part, rest, returns, space, sizes, inr (bad, short))
      next =
    (
      v,
      false,
      part,
      rest,
      rw (returns, bad) refl,
      space,
      sizes,
      inr (refl, omega (arith, short, length-append xs ys)),
    )
and_put-Wrote done free beyond xs ys o k
      (v, b, part, rest, returns, space, sizes, inl (good, all, less)) next =
    let grown = ap length all in
    let (u, c, more, left, went, there, sums, ends) =
      next v rest (subst (λ p. Space v (done ++ p) rest beyond) all space)
        (omega (arith, sizes, grown, less)) in
    let total = length-append xs ys in
    (
      u,
      c,
      xs ++ more,
      left,
      rw (returns, good) went,
      subst (λ d. Space u d left beyond) (append_assoc done xs more) there,
      omega (arith, sums, sizes, grown, length-append xs more),
      elim ends [
        | inl (ok_too, same, fewer) ↦
            inl (ok_too, ap (λ t. xs ++ t) same, omega (arith, total, fewer, sizes, grown))
        | inr (fails, short) ↦ inr (fails, omega (arith, total, short, sizes, grown))
      ],
    )
