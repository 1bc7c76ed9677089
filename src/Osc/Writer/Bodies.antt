-- ===== src/Osc/Writer/Bodies.antt =====
-- Blobs and MIDI messages are stored behind the test for their space, and what pads them is left as it was.
use Prim.Native.Nat.{min}
use mathlib.Core.List.{append_assoc}
use osc2ftdidmx.Base.{
  ℕ, ◌+◌, ◌-◌, ◌%◌, ◌^◌, ◌<◌, ◌≤◌, ◌≡◌, inl, inr, ◌∙◌, sym, ap, refl, true, false, ◌&&◌, List, [],
  ◌++◌, arith, leb, ltb, take, drop, length, length-append, take-append-drop, length-take,
  length-drop, ok, Bool-cases, tests,
}
use osc2ftdidmx.Osc.Memory.{Memory, padded_size, to_size}
use osc2ftdidmx.Osc.Writer.{
  Writer, be32, put_be32, add_blob, add_blob_inline, add_midi, add_midi_inline, store_at,
}
use osc2ftdidmx.Osc.Writer.Space.{
  Space, Wrote, full-Wrote, after-Wrote, store_at_lem, store_at-ptr, writer_overflow_lem, room,
  take_at,
}
use osc2ftdidmx.Osc.Reader.Gets.{drop-drop}

-- What fills the space of a body up to a multiple of four bytes: the bytes that are there.
abbrev pub filling : ℕ → ℕ → List ℕ → List ℕ
filling k n free = take k (drop n free)

pub length-filling : (k n : ℕ) (free : List ℕ) → k + n ≤ length free → length (filling k n free) ≡ k
length-filling k n free h = ground (arith, length-take k (drop n free), length-drop n free)

-- The bytes that pad a blob.
abbrev pub gap : List ℕ → ℕ
gap bytes = (4 - length bytes % 4) % 4

abbrev pub blob_bytes : List ℕ → List ℕ → List ℕ
blob_bytes bytes free =
    be32 (length bytes) ++ (bytes ++ filling (gap bytes) (4 + length bytes) free)

blob_size :
    (bytes : List ℕ)
    → length bytes < 2 ^ 31
    → padded_size (to_size (length bytes)) ≡ length bytes + gap bytes
unfolding padded_size to_size
blob_size bytes h =
    let positive : ltb (length bytes) (2 ^ 31) ≡ true = ground (arith, h) in
    rw positive (omega (arith, h))

module _ (w : Writer) (done free beyond : List ℕ) (space : Space w done free beyond)
    (bytes more : List ℕ) where
  -- A body is stored behind the pointer, with the bytes of `front` in front of it.
  store_at-body :
      (front : List ℕ) (k n : ℕ) (m : Memory)
      → n ≡ length front + length bytes
      → n + k ≤ length free
      → m ≡ record w.mem { bytes = done ++ (front ++ (drop (length front) free ++ beyond)) }
      → store_at m ((w.ptr + length front) % 2 ^ 64) bytes
        ≡ ok (record w.mem {
          bytes = done ++ ((front ++ (bytes ++ filling k n free)) ++ (drop (n + k) free ++ beyond));
        })
  store_at-body front k n m whole fits e =
      let r = room w done free beyond space in
      let back = drop (length front) free in
      let left = drop n free in
      let after_body : drop (length bytes) back ≡ filling k n free ++ drop (n + k) free =
        sym (drop-drop (length front) (length bytes) free)
        ∙ ap (λ j. drop j free) (sym whole)
        ∙ sym (take-append-drop k left)
        ∙ ap (λ t. take k left ++ t) (sym (drop-drop n k free)) in
      let lies : m.bytes
          ≡ (done ++ front) ++ (take (length bytes) back ++ (drop (length bytes) back ++ beyond)) =
        ap (λ (o : Memory). o.bytes) e
        ∙ sym (append_assoc done front (back ++ beyond))
        ∙ ap (λ b. (done ++ front) ++ (b ++ beyond)) (sym (take-append-drop (length bytes) back))
        ∙ ap (λ t. (done ++ front) ++ t)
            (append_assoc (take (length bytes) back) (drop (length bytes) back) beyond) in
      let base : m.base ≡ w.mem.base = ap (λ (o : Memory). o.base) e in
      let pads = filling k n free in
      let others = drop (n + k) free in
      store_at_lem m ((w.ptr + length front) % 2 ^ 64) (done ++ front) (take (length bytes) back)
        bytes (drop (length bytes) back ++ beyond) lies
        (omega (arith, r, fits, whole, base, space.at, length-append done front))
        (ground
          (arith, fits, whole, length-take (length bytes) back, length-drop (length front) free))
      ∙ ap (λ o. ok o)
          (ap
              (λ (o : Memory). record o {
                bytes = (done ++ front) ++ (bytes ++ (drop (length bytes) back ++ beyond));
              })
              e
            ∙ ap (λ b. record w.mem { bytes = b })
                (append_assoc done front (bytes ++ (drop (length bytes) back ++ beyond))
                  ∙ ap (λ t. done ++ t)
                      (ap (λ t. front ++ (bytes ++ (t ++ beyond))) after_body
                        ∙ ap (λ t. front ++ (bytes ++ t)) (append_assoc pads others beyond)
                        ∙ ap (λ t. front ++ t) (sym (append_assoc bytes pads (others ++ beyond)))
                        ∙ sym (append_assoc front (bytes ++ pads) (others ++ beyond)))))

  length-body :
      (n : ℕ) (front : List ℕ) (k : ℕ)
      → n ≡ length front + length bytes
      → length (front ++ (bytes ++ filling k n free)) ≡ n + min k (length free - n)
  length-body n front k e = omega (
    arith,
    e,
    length-append front (bytes ++ filling k n free),
    length-append bytes (filling k n free),
    length-take k (drop n free),
    length-drop n free,
  )

  take_body : take (length bytes) (bytes ++ more) ≡ bytes
  take_body = take_at (length bytes) bytes more refl

  -- A body with `front` in front of it was stored, and the pointer stands behind its padding.
  stored-Wrote :
      (front : List ℕ) (k n p : ℕ)
      → n ≡ length front + length bytes
      → n + k < length free
      → p ≡ (w.ptr + (n + k)) % 2 ^ 64
      → Wrote done free beyond (front ++ (bytes ++ filling k n free)) (
          ok (
            record w {
              mem = record w.mem {
                bytes =
                    done
                    ++ ((front ++ (bytes ++ filling k n free)) ++ (drop (n + k) free ++ beyond));
              };
              ptr = p;
            },
            true,
          ))
  stored-Wrote front k n p e less at =
      let new = front ++ (bytes ++ filling k n free) in
      let long : length new ≡ n + k = omega (arith, length-body n front k e, less) in
      rw (at, sym long) (after-Wrote w done free beyond space new (omega (arith, long, less)))

  to_size_lem : length bytes < 2 ^ 31 → to_size (length bytes) ≡ length bytes
  unfolding to_size
  to_size_lem h = ground (arith, h)

  readable_body : leb (length bytes) (length (bytes ++ more)) ≡ true
  readable_body = ground (arith, length-append bytes more)

  pub add_midi-Wrote :
      length bytes ≤ 4
      → Wrote done free beyond
          (bytes ++ filling (4 - length bytes) (length bytes) free)
          (add_midi w (length bytes) (bytes ++ more))
  unfolding add_midi_inline
  add_midi-Wrote short =
      let k = 4 - length bytes in
      let r = room w done free beyond space in
      let positive : (ltb (length bytes) (2 ^ 31) && ltb 4 (length bytes)) ≡ false =
        ground (arith, short) in
      let size = length-body (length bytes) [] k (omega arith) in
      elim (Bool-cases (leb (length free) 4)) [
        | inl full ↦
            rw (positive, writer_overflow_lem w done free beyond space 4 (omega arith), full)
              (full-Wrote w done free beyond space _ (omega (tests, full, size, short)))
        | inr left ↦
            let less : 4 < length free = ground arith in
            let whole : (w.ptr + 0) % 2 ^ 64 ≡ w.ptr = omega (arith, r) in
            let stored =
              store_at-body [] k (length bytes) w.mem (omega arith) (omega (arith, less, short))
                (ap (λ b. record w.mem { bytes = b }) space.lies) in
            rw
              (
                positive,
                writer_overflow_lem w done free beyond space 4 (omega arith),
                left,
                to_size_lem (omega (arith, short)),
                readable_body,
                take_body,
                sym (ap (λ a. store_at w.mem a bytes) whole) ∙ stored,
              )
              (stored-Wrote [] k (length bytes) ((w.ptr + 4) % 2 ^ 64) (omega arith)
                (omega (arith, less, short))
                (ap (λ n. (w.ptr + n) % 2 ^ 64) (omega (arith, short))))
      ]

  -- Let a writer have some free space below the address 2^63, and a blob less than 2^31 bytes. Then
  -- `lv2_osc_writer_add_blob` returns. When more bytes are free than the blob takes with its length and its
  -- padding, it returns true and has written the length, the bytes, and up to a multiple of four the bytes
  -- that the array had there; it returns false else, and nothing behind the array is changed.
  pub add_blob-Wrote :
      length bytes < 2 ^ 31
      → Wrote done free beyond (blob_bytes bytes free) (add_blob w (length bytes) (bytes ++ more))
  unfolding add_blob_inline put_be32
  add_blob-Wrote small =
      let k = gap bytes in
      let n = 4 + length bytes in
      let u = length bytes in
      let r = room w done free beyond space in
      let pad_less : k < 4 = omega arith in
      let total : (4 + (u + k)) % 2 ^ 64 ≡ 4 + (u + k) = omega (arith, small, pad_less) in
      let size = length-body n (be32 u) k refl in
      elim (Bool-cases (leb (length free) (4 + (u + k)))) [
        | inl full ↦
            rw
              (
                blob_size bytes small,
                total,
                writer_overflow_lem w done free beyond space (4 + (u + k))
                    (omega (arith, small, pad_less)),
                full,
              )
              (full-Wrote w done free beyond space _ (omega (tests, full, size)))
        | inr left ↦
            let less : 4 + (u + k) < length free = ground arith in
            let four_less : length (be32 u) < length free = omega (arith, less) in
            let four_left : leb (length free) 4 ≡ false = ground (arith, less) in
            let stored =
              store_at-body (be32 u) k n
                (record w.mem { bytes = done ++ (be32 u ++ (drop 4 free ++ beyond)) }) refl
                (omega (arith, less)) refl in
            rw
              (
                blob_size bytes small,
                total,
                writer_overflow_lem w done free beyond space (4 + (u + k))
                    (omega (arith, small, pad_less)),
                left,
                writer_overflow_lem w done free beyond space 4 (omega arith),
                four_left,
                store_at-ptr w done free beyond space (be32 u) four_less,
                to_size_lem small,
                readable_body,
                take_body,
                stored,
              )
              (stored-Wrote (be32 u) k n (((w.ptr + 4) % 2 ^ 64 + (u + k)) % 2 ^ 64) refl
                (omega (arith, less)) (omega (arith, r, less)))
      ]
