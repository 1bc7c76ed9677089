-- ===== src/Osc/Writer/Format.antt =====
-- The types of a message are put like a string, with the comma in front stored apart.
use mathlib.Core.List.{append_assoc}
use osc2ftdidmx.Base.{
  ℕ, ◌+◌, ◌-◌, ◌%◌, ◌^◌, ◌<◌, ◌≡◌, ◌∙◌, sym, ap, refl, List, [], ◌∷◌, ◌++◌, arith, take, drop,
  replicate, length, length-append, take-append-drop, length-take, length-drop, ok,
}
use osc2ftdidmx.Osc.Memory.{Memory}
use osc2ftdidmx.Osc.Wire.{padded, NoZero}
use osc2ftdidmx.Osc.Reader.Gets.{strlen-append, length-padded}
use osc2ftdidmx.Osc.Writer.{Writer, add_format, store_at}
use osc2ftdidmx.Osc.Writer.Space.{Space, Wrote, checked-Wrote, store_at_lem, room}
use osc2ftdidmx.Osc.Writer.Strings.{
  store_at-zeros, marked, marked_bytes, place, string_over, take_string, padded_size_lem,
}

module _ (w : Writer) (done free beyond : List ℕ) (space : Space w done free beyond) (c : ℕ)
    (tags : List ℕ) (small : length (c ∷ tags) < 2 ^ 62)
    (less : length (padded (c ∷ tags)) < length free) where
  abbrev size : ℕ
  size = length (padded (c ∷ tags))

  abbrev old : List ℕ
  old = take (length (c ∷ tags) + 1) (take (size - 4) free ++ replicate 4 0)

  abbrev others : List ℕ
  others = replicate (size - (length (c ∷ tags) + 1)) 0 ++ (drop size free ++ beyond)

  -- The first character is stored, and the pointer moves on.
  abbrev begun : Memory
  begun = record w.mem { bytes = done ++ ((c ∷ []) ++ (drop 1 old ++ others)) }

  store_at-first :
      store_at (marked w done free beyond space (c ∷ tags) small less) w.ptr (c ∷ []) ≡ ok begun
  store_at-first =
      store_at_lem (marked w done free beyond space (c ∷ tags) small less) w.ptr done (take 1 old)
        (c ∷ []) (drop 1 old ++ others)
        (marked_bytes w done free beyond space (c ∷ tags) small less
          ∙ ap (λ o. done ++ (o ++ others)) (sym (take-append-drop 1 old))
          ∙ ap (λ t. done ++ t) (append_assoc (take 1 old) (drop 1 old) others))
        space.at
        (ground (arith, length-take 1 old, place w done free beyond space (c ∷ tags) small less))

  store_at-tags :
      store_at begun ((w.ptr + 1) % 2 ^ 64) (tags ++ (0 ∷ []))
      ≡ ok (record w.mem { bytes = done ++ (padded (c ∷ tags) ++ (drop size free ++ beyond)) })
  store_at-tags =
      let r = room w done free beyond space in
      store_at_lem begun ((w.ptr + 1) % 2 ^ 64) (done ++ (c ∷ [])) (drop 1 old) (tags ++ (0 ∷ []))
        others (sym (append_assoc done (c ∷ []) (drop 1 old ++ others)))
        (omega (arith, r, less, space.at, length-append done (c ∷ [])))
        (omega (
          arith,
          length-drop 1 old,
          place w done free beyond space (c ∷ tags) small less,
          length-append tags (0 ∷ []),
        ))
      ∙ ap (λ b. ok (record w.mem { bytes = b }))
          (append_assoc done (c ∷ []) ((tags ++ (0 ∷ [])) ++ others)
            ∙ string_over w done free beyond space (c ∷ tags) small less)

module _ (w : Writer) (done free beyond : List ℕ) (space : Space w done free beyond)
    (tags more : List ℕ) (small : length tags + 1 < 2 ^ 62) (no_zero : NoZero tags) where
  pub add_format-Wrote :
      Wrote done free beyond (padded (b',' ∷ tags)) (add_format w (tags ++ (0 ∷ more)))
  unfolding add_format
  add_format-Wrote =
      let longer : length tags + 2 ≡ length (b',' ∷ tags) + 1 = omega arith in
      let short : length (b',' ∷ tags) < 2 ^ 62 = omega (arith, small) in
      let r = room w done free beyond space in
      rw (strlen-append tags more no_zero, longer, padded_size_lem (b',' ∷ tags) short)
        (checked-Wrote w done free beyond space (length (padded (b',' ∷ tags)))
          (padded (b',' ∷ tags)) _ refl (omega (arith, length-padded (b',' ∷ tags), short))
          (λ less.
            let moves : ((w.ptr + 1) % 2 ^ 64 + (length (padded (b',' ∷ tags)) - 1)) % 2 ^ 64
                ≡ (w.ptr + length (padded (b',' ∷ tags))) % 2 ^ 64 =
              omega (arith, r, less, length-padded (b',' ∷ tags)) in
            rw
              (
                store_at-zeros w done free beyond space (b',' ∷ tags) short less,
                take_string w done free beyond space tags more (omega (arith, small)) no_zero,
                store_at-first w done free beyond space b',' tags short less,
                store_at-tags w done free beyond space b',' tags short less,
                moves,
              )
              refl))
