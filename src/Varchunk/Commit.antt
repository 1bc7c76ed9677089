-- ===== src/Varchunk/Commit.antt =====
-- A chunk that is stored into the space that was found, and passed on to the reader.
use osc2ftdidmx.Base.{
  ℕ, ◌+◌, ◌-◌, ◌^◌, ◌<◌, ◌≤◌, ◌≡◌, ◌⊎◌, inl, inr, ◌∙◌, sym, ap, refl, subst, List, [], ◌∷◌, ◌++◌,
  arith, length, ltb, leb, true, false, ok,
}
use osc2ftdidmx.Varchunk.{Ring, pad, write_advance, write_advance_raw, write_header, store, patch}
use osc2ftdidmx.Varchunk.Buffer.{
  bytes_at, bytes_at-same, load_word-same, patch-other, bytes_at-patch, header_bytes,
  load_word-size, load_word-gap,
}
use osc2ftdidmx.Varchunk.Laid.{wrap, extent, Chunk, Begins, Same, Laid, Laid-Same, Laid-append}
use osc2ftdidmx.Varchunk.Valid.{Valid, pad_lem, masked, head_inside}
use osc2ftdidmx.Varchunk.Write.{Pending}

abbrev with_buf : Ring → (ℕ → ℕ) → Ring
with_buf r cur = record r { buf = cur }

-- The head moves behind a chunk that lies where it was.
append-Valid :
    (r : Ring) (queue : List (List ℕ)) (c : List ℕ) (cur : ℕ → ℕ) (start skip : ℕ)
    (v : Valid r queue)
    → length c ≤ 2 ^ 31
    → Begins r.size cur r.head start skip
    → Chunk r.size cur start c
    → v.used + skip + extent c < r.size
    → Same r.size r.buf cur r.tail v.used
    → Valid
        (record r { buf = cur; head = wrap r.size (r.head + (skip + extent c)) })
        (queue ++ (c ∷ []))
append-Valid r queue c cur start skip v short begins chunk room same = record {
  log = v.log;
  power = v.power;
  eight = v.eight;
  small = v.small;
  mask = v.mask;
  used = v.used + (skip + extent c);
  not_full = omega arith;
  aligned = (v.aligned.0, ground (arith, v.aligned, v.head_at, v.eight, pad_lem (length c) short));
  tail_inside = v.tail_inside;
  head_at = ground (arith, v.head_at, v.tail_inside, v.not_full);
  laid =
      let none_left : skip + extent c - (skip + extent c) ≡ 0 = omega arith in
      Laid-append queue (c ∷ []) r.size cur r.tail v.used (skip + extent c) v.tail_inside
        (omega arith)
        (Laid-Same queue r.size r.buf cur r.tail v.used v.tail_inside v.not_full same v.laid)
        (subst (λ p. Laid r.size cur p (skip + extent c) (c ∷ [])) v.head_at
          (start, skip, begins, chunk, omega arith, none_left));
}

-- A header before the bytes of a chunk.
Chunk-stored :
    (size : ℕ) (buf : ℕ → ℕ) (start : ℕ) (c : List ℕ)
    → length c ≤ 2 ^ 31
    → start + extent c ≤ size
    → bytes_at buf (start + 8) (length c) ≡ c
    → Chunk size (patch start (header_bytes start (length c) 0 buf) buf) start c
Chunk-stored size buf start c short inside body = record {
  inside = inside;
  padded = omega (arith, pad_lem (length c) short);
  chunk_size = load_word-size start (length c) 0 buf ∙ omega arith;
  gap = load_word-gap start (length c) 0 buf (omega arith);
  body =
      bytes_at-same buf (patch start (header_bytes start (length c) 0 buf) buf) (start + 8)
        (length c)
        (λ j low high.
          patch-other start (header_bytes start (length c) 0 buf) buf j (inr (omega arith)))
      ∙ body;
}

-- The two steps return, the queue has the chunk at its end, and the bytes in use are as they were.
abbrev pub Written : (r : Ring) (queue : List (List ℕ)) → Valid r queue → ℕ → List ℕ → Type 0
Written r queue v i c =
    (s : Ring) × (u : Ring) × (store r i c ≡ ok s)
    × (write_advance s (length c) ≡ ok u)
    × Valid u (queue ++ (c ∷ []))
    × ((u.tail ≡ r.tail) × (u.size ≡ r.size) × Same r.size r.buf u.buf r.tail v.used)

module _ (r : Ring) (queue : List (List ℕ)) (n i : ℕ) (c : List ℕ) (p : Pending r queue n i)
    (fits : length c ≤ n) where
  shorter : pad (length c) ≤ pad n
  shorter = omega (arith, pad_lem n p.short, pad_lem (length c) (omega (arith, p.short)))

  abbrev stored : ℕ → ℕ
  stored = patch i c r.buf

  abbrev at_head : ℕ → ℕ
  at_head = patch r.head (header_bytes r.head (length c) 0 stored) stored

  abbrev moved : (ℕ → ℕ) → ℕ → Ring
  moved cur skip = record r { buf = cur; head = wrap r.size (r.head + (skip + extent c)) }

  -- The bytes in use lie outside the space.
  apart :
      r.gapd ≡ 0
      → r.head + 8 + pad n ≤ r.size
      → (k : ℕ) → k < p.valid.used
      → (wrap r.size (r.tail + k) < r.head) ⊎ (r.head + 8 + pad n ≤ wrap r.size (r.tail + k))
  apart no_gap inside k below =
      ground (arith, p.room, p.valid.head_at, p.valid.tail_inside, p.valid.not_full)

  apart_gap :
      r.gapd ≡ r.size - r.head
      → (k : ℕ) → k < p.valid.used
      → (wrap r.size (r.tail + k) < r.head) × (8 + pad n ≤ wrap r.size (r.tail + k))
  apart_gap gap k below =
      ground (arith, p.room, p.valid.head_at, p.valid.tail_inside, p.valid.not_full)

  here-Written :
      r.gapd ≡ 0 → i ≡ r.head + 8 → r.head + 8 + pad n ≤ r.size → Written r queue p.valid i c
  unfolding store write_advance write_header write_advance_raw
  here-Written no_gap at inside =
      let len = pad_lem (length c) (omega (arith, p.short)) in
      let body_in : leb (i + length c) r.size ≡ true = ground (arith, len, shorter) in
      let header_in : leb (r.head + 8) r.size ≡ true = ground arith in
      let reserved : leb (length c) r.rsvd ≡ true = ground (arith, p.reserved) in
      let gapless : ltb 0 r.gapd ≡ false = ground arith in
      let far : r.head + (r.gapd + 8 + pad (length c)) ≡ r.head + (0 + extent c) = omega arith in
      let head =
        masked r queue p.valid (r.head + (r.gapd + 8 + pad (length c)))
          (omega (arith, shorter, head_inside r queue p.valid)) in
      let body : bytes_at stored (r.head + 8) (length c) ≡ c =
        ap (λ k. bytes_at stored k (length c)) (sym at) ∙ bytes_at-patch i c r.buf in
      let same : Same r.size r.buf at_head r.tail p.valid.used = λ k below.
        patch-other r.head (header_bytes r.head (length c) 0 stored) stored
          (wrap r.size (r.tail + k)) (let out = apart no_gap inside k below in ground arith)
        ∙ patch-other i c r.buf (wrap r.size (r.tail + k))
            (let out = apart no_gap inside k below in ground (arith, len, shorter)) in
      (
        with_buf r stored,
        moved at_head 0,
        rw body_in refl,
        rw (reserved, gapless, header_in)
            (ap (λ h. ok (record r { buf = at_head; head = h })) (head ∙ ap (wrap r.size) far)),
        append-Valid r queue c at_head r.head 0 p.valid (omega (arith, p.short)) (inl (refl, refl))
            (Chunk-stored r.size stored r.head c (omega (arith, p.short)) (omega (arith, shorter))
              body)
            (omega (arith, p.room, shorter)) same,
        (refl, refl, same),
      )

  abbrev gap_at_head : ℕ → ℕ
  gap_at_head = patch r.head (header_bytes r.head (r.gapd - 8) 1 stored) stored

  abbrev at_front : ℕ → ℕ
  at_front = patch 0 (header_bytes 0 (length c) 0 gap_at_head) gap_at_head

  gap-Written : r.gapd ≡ r.size - r.head → 0 < r.gapd → i ≡ 8 → Written r queue p.valid i c
  unfolding store write_advance write_header write_advance_raw
  gap-Written gap some_gap at =
      let len = pad_lem (length c) (omega (arith, p.short)) in
      let inside = head_inside r queue p.valid in
      let before : 8 + pad n < r.head = omega (arith, p.room) in
      let whole_gap : r.head + 8 ≤ r.size =
        ground (arith, p.valid.head_at, p.valid.eight, p.valid.aligned, inside) in
      let body_in : leb (i + length c) r.size ≡ true = ground (arith, len, shorter, p.room) in
      let gap_in : leb (r.head + 8) r.size ≡ true = ground arith in
      let header_in : leb 8 r.size ≡ true = ground arith in
      let reserved : leb (length c) r.rsvd ≡ true = ground (arith, p.reserved) in
      let gapful : ltb 0 r.gapd ≡ true = ground arith in
      let far : r.head + (r.gapd + 8 + pad (length c)) ≡ r.head + (r.gapd + extent c) =
        omega arith in
      let head =
        masked r queue p.valid (r.head + (r.gapd + 8 + pad (length c)))
          (omega (arith, shorter, inside, p.room)) in
      let body : bytes_at gap_at_head 8 (length c) ≡ c =
        ap (λ k. bytes_at gap_at_head k (length c)) (sym at)
        ∙ bytes_at-same stored gap_at_head i (length c) (λ j low high.
          patch-other r.head (header_bytes r.head (r.gapd - 8) 1 stored) stored j
            (inl (omega (arith, len, shorter, before))))
        ∙ bytes_at-patch i c r.buf in
      let same : Same r.size r.buf at_front r.tail p.valid.used = λ k below.
        patch-other 0 (header_bytes 0 (length c) 0 gap_at_head) gap_at_head
          (wrap r.size (r.tail + k)) (let out = apart_gap gap k below in ground arith)
        ∙ patch-other r.head (header_bytes r.head (r.gapd - 8) 1 stored) stored
            (wrap r.size (r.tail + k)) (let out = apart_gap gap k below in ground arith)
        ∙ patch-other i c r.buf (wrap r.size (r.tail + k))
            (let out = apart_gap gap k below in ground (arith, len, shorter)) in
      (
        with_buf r stored,
        moved at_front r.gapd,
        rw body_in refl,
        rw (reserved, gapful, gap_in, header_in)
            (ap (λ h. ok (record r { buf = at_front; head = h })) (head ∙ ap (wrap r.size) far)),
        append-Valid r queue c at_front 0 r.gapd p.valid (omega (arith, p.short))
            (inr (
              refl,
              gap,
              whole_gap,
              load_word-same gap_at_head at_front (r.head + 4) (λ j low high.
                    patch-other 0 (header_bytes 0 (length c) 0 gap_at_head) gap_at_head j
                      (inr (omega arith)))
                  ∙ load_word-gap r.head (r.gapd - 8) 1 stored (omega arith),
            ))
            (Chunk-stored r.size gap_at_head 0 c (omega (arith, p.short))
              (omega (arith, shorter, p.room)) body)
            (omega (arith, p.room, shorter)) same,
        (refl, refl, same),
      )

  -- The chunk is stored inside the array, the assertion holds, and the queue has it at its end.
  pub write_advance_lem : Written r queue p.valid i c
  write_advance_lem = elim p.place [
    | inl (no_gap, at, inside) ↦ here-Written no_gap at inside
    | inr (gap, some_gap, at) ↦ gap-Written gap some_gap at
  ]
