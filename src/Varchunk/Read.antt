-- ===== src/Varchunk/Read.antt =====
-- What the reader is given, and what it leaves behind.
use osc2ftdidmx.Base.{
  ℕ, ◌+◌, ◌-◌, ◌%◌, ◌^◌, ◌≤◌, ◌≡◌, inl, inr, ◌∙◌, refl, subst, List, [], ◌∷◌, arith, length, ltb,
  leb, true, bit_and, ok, none, some, Bool-cases,
}
use osc2ftdidmx.Varchunk.{
  Ring, pad, readable, read_request, read_header, read_advance, read_advance_raw, load_word,
}
use osc2ftdidmx.Varchunk.Laid.{wrap, extent, Chunk, Laid}
use osc2ftdidmx.Varchunk.Valid.{Valid, pad_lem, sub_size_lem, masked, readable_lem}

abbrev at_tail : Ring → ℕ → Ring
at_tail r t = record r { tail = t }

-- The buffer holds the queue, and the first chunk lies at the tail with no gap before it.
pub record Front (r : Ring) (c : List ℕ) (queue : List (List ℕ)) : Type 0 where
  pub valid : Valid r (c ∷ queue)
  pub chunk : Chunk r.size r.buf r.tail c
  pub room : extent c ≤ valid.used
  pub rest : Laid r.size r.buf (wrap r.size (r.tail + extent c)) (valid.used - extent c) queue

pub read_request_empty : (r : Ring) → Valid r [] → read_request r ≡ ok (r, none)
unfolding read_request
read_request_empty r v =
    let none_used : readable r ≡ 0 = readable_lem r [] v ∙ v.laid in rw none_used refl

module _ (r : Ring) (c : List ℕ) (queue : List (List ℕ)) where
  read_header-Chunk :
      (i : ℕ)
      → Chunk r.size r.buf i c
      → read_header r i ≡ ok (record { chunk_size = length c; gap = 0 })
  unfolding read_header
  read_header-Chunk i chunk =
      let inside : leb (i + 8) r.size ≡ true = ground (arith, chunk.inside) in
      rw (inside, chunk.chunk_size, chunk.gap) refl

  -- The chunk that is read, with the buffer after that.
  abbrev pub Given : Type 0
  Given =
      (t : ℕ) × (read_request r ≡ ok (at_tail r t, some (length c, t + 8)))
      × Front (at_tail r t) c queue
      × (readable (at_tail r t) ≤ readable r)

  module _ (v : Valid r (c ∷ queue)) where
    small_sum : (r.tail + readable r) % 2 ^ 64 ≡ r.tail + v.used
    small_sum = omega (arith, readable_lem r (c ∷ queue) v, v.small, v.tail_inside, v.not_full)

    read_header-gap :
        r.tail + 8 ≤ r.size
        → read_header r r.tail
          ≡ ok (record { chunk_size = load_word r.buf r.tail; gap = load_word r.buf (r.tail + 4) })
    unfolding read_header
    read_header-gap inside =
        let within : leb (r.tail + 8) r.size ≡ true = ground arith in rw within refl

    here-Given :
        Chunk r.size r.buf r.tail c
        → extent c ≤ v.used
        → Laid r.size r.buf (wrap r.size (r.tail + extent c)) (v.used - extent c) queue
        → Given
    unfolding read_request
    here-Given chunk room rest =
        let some_used : ltb 0 v.used ≡ true = ground arith in
        let sum = small_sum in
        let free = readable_lem r (c ∷ queue) v in
        (
          r.tail,
          rw (sum, free, some_used, read_header-Chunk r.tail chunk)
              (elim (Bool-cases (ltb r.size (r.tail + v.used))) [
                | inl over ↦ rw over refl
                | inr inner ↦ rw inner refl
              ]),
          record { valid = v; chunk = chunk; room = room; rest = rest },
          omega arith,
        )

    gap-Given :
        r.tail + 8 ≤ r.size
        → load_word r.buf (r.tail + 4) ≡ 1
        → Chunk r.size r.buf 0 c
        → r.size - r.tail + extent c ≤ v.used
        → Laid r.size r.buf
            (wrap r.size (0 + extent c))
            (v.used - (r.size - r.tail + extent c))
            queue
        → Given
    unfolding read_request read_advance_raw
    gap-Given inside marked chunk room rest =
        let some_used : ltb 0 v.used ≡ true = ground arith in
        let over : ltb r.size (r.tail + v.used) ≡ true = ground (arith, v.tail_inside) in
        let sum = small_sum in
        let free = readable_lem r (c ∷ queue) v in
        let to_end =
          sub_size_lem r.size r.tail (omega (arith, v.small)) (omega (arith, v.tail_inside)) in
        let behind : r.tail + (r.size - r.tail) ≡ r.size = omega (arith, v.tail_inside) in
        let back : bit_and ((r.tail + (r.size - r.tail)) % 2 ^ 64) r.mask ≡ 0 =
          masked r (c ∷ queue) v (r.tail + (r.size - r.tail)) (omega (arith, v.tail_inside))
          ∙ ground (arith, behind) in
        let left : ℕ = v.used - (r.size - r.tail) in
        let next = λ (m : ℕ) (e : m ≡ extent c).
          let same_left : v.used - (r.size - r.tail + extent c) ≡ left - m = omega arith in
          subst (λ n. Laid r.size r.buf (wrap r.size (0 + extent c)) n queue) same_left rest in
        let none_skipped : 0 + extent c ≡ extent c = omega arith in
        let after : Valid (at_tail r 0) (c ∷ queue) = record {
          log = v.log;
          power = v.power;
          eight = v.eight;
          small = v.small;
          mask = v.mask;
          used = left;
          not_full = omega (arith, v.not_full);
          aligned = (omega arith, omega (arith, v.aligned, v.eight));
          tail_inside = omega (arith, v.tail_inside);
          head_at = ground (arith, v.head_at, v.tail_inside, v.not_full);
          laid = (0, 0, inl (refl, refl), chunk, omega arith, next (0 + extent c) none_skipped);
        } in
        (
          0,
          rw
              (
                sum,
                free,
                some_used,
                over,
                read_header-gap inside,
                marked,
                to_end,
                back,
                read_header-Chunk 0 chunk,
              )
              refl,
          record { valid = after; chunk = chunk; room = omega arith; rest = next (extent c) refl },
          omega (arith, free, readable_lem (at_tail r 0) (c ∷ queue) after),
        )

  -- `varchunk_read_request` gives the first chunk of the queue, and skips the gap before it.
  pub read_request_lem : Valid r (c ∷ queue) → Given
  read_request_lem v =
      let (start, skip, begins, chunk, room, rest) = v.laid in
      elim begins [
        | inl (at, none_skipped) ↦
            let all : skip + extent c ≡ extent c = omega arith in
            here-Given v (subst (λ k. Chunk r.size r.buf k c) at chunk) (omega arith) (
              subst (λ k. Laid r.size r.buf (wrap r.size (k + extent c)) (v.used - extent c) queue)
                at
                (subst (λ n. Laid r.size r.buf (wrap r.size (start + extent c)) (v.used - n) queue)
                  all rest))
        | inr (at, gap, inside, marked) ↦
            gap-Given v inside marked (subst (λ k. Chunk r.size r.buf k c) at chunk) (omega arith) (
              subst
                (λ k.
                  Laid r.size r.buf (wrap r.size (k + extent c))
                    (v.used - (r.size - r.tail + extent c)) queue)
                at
                (subst
                  (λ n.
                    Laid r.size r.buf (wrap r.size (start + extent c)) (v.used - (n + extent c))
                      queue)
                  gap rest))
      ]

  -- `varchunk_read_advance` takes it off.
  pub read_advance_lem :
      (f : Front r c queue)
      → (s : Ring) × (read_advance r ≡ ok s)
        × Valid s queue
        × (readable s ≤ readable r)
        × (s ≡ at_tail r s.tail)
  unfolding read_advance read_advance_raw
  read_advance_lem f =
      let v = f.valid in
      let small : extent c ≤ r.size = omega (arith, f.chunk.inside) in
      let next =
        masked r (c ∷ queue) v (r.tail + (8 + pad (length c))) (omega (arith, v.tail_inside)) in
      let after : Valid (at_tail r (wrap r.size (r.tail + extent c))) queue = record {
        log = v.log;
        power = v.power;
        eight = v.eight;
        small = v.small;
        mask = v.mask;
        used = v.used - extent c;
        not_full = omega (arith, v.not_full);
        aligned = ground (
          arith,
          v.aligned,
          v.eight,
          pad_lem (length c) (omega (arith, f.chunk.padded, v.small)),
        );
        tail_inside = ground (arith, f.chunk.inside);
        head_at = ground (arith, v.head_at, v.tail_inside, v.not_full, f.room, f.chunk.inside);
        laid = f.rest;
      } in
      (
        at_tail r (wrap r.size (r.tail + extent c)),
        rw (read_header-Chunk r.tail f.chunk, next) refl,
        after,
        omega (
          arith,
          readable_lem r (c ∷ queue) v,
          readable_lem (at_tail r (wrap r.size (r.tail + extent c))) queue after,
        ),
        refl,
      )

-- With no gap at the tail the first chunk lies there.
pub Front-no_gap :
    (r : Ring) (c : List ℕ) (queue : List (List ℕ))
    → Valid r (c ∷ queue)
    → load_word r.buf (r.tail + 4) ≡ 0
    → Front r c queue
Front-no_gap r c queue v no_gap =
    let (start, skip, begins, chunk, room, rest) = v.laid in
    elim begins [
      | inl (at, none_skipped) ↦
          let all : skip + extent c ≡ extent c = omega arith in
          record {
            valid = v;
            chunk = subst (λ k. Chunk r.size r.buf k c) at chunk;
            room = omega arith;
            rest =
                subst
                  (λ k. Laid r.size r.buf (wrap r.size (k + extent c)) (v.used - extent c) queue) at
                  (subst
                    (λ n. Laid r.size r.buf (wrap r.size (start + extent c)) (v.used - n) queue) all
                    rest);
          }
      | inr (at, gap, inside, marked) ↦ absurd (omega arith)
    ]
