-- ===== src/Osc/Writer/RoundTrip.antt =====
-- A whole message from `lv2_osc_writer_initialize` to `lv2_osc_writer_finalize`, and what the reader reads.
use osc2ftdidmx.Base.{
  ℕ, ◌+◌, ◌-◌, ◌^◌, ◌<◌, ◌≤◌, ◌≡◌, ◌⊎◌, inl, inr, ◌∙◌, sym, ap, subst, refl, Bool, true, false,
  some, List, [], ◌∷◌, ◌++◌, arith, ltb, ◌==◌, map, length, length-append, ok,
}
use osc2ftdidmx.Osc.Memory.{Memory}
use osc2ftdidmx.Osc.Wire.{
  Argument, four, int, float, char, midi, rgba, eight, text, blob, flag, padded, tag_of,
  encode_args, encode_message, NoZero, seen, ArgFits, ArgsFit,
}
use osc2ftdidmx.Osc.Reader.{Reader, reader_initialize}
use osc2ftdidmx.Osc.Reader.Args.{Arg, arg_begin}
use osc2ftdidmx.Osc.Reader.Ops.{reader_args}
use osc2ftdidmx.Osc.Reader.Gets.{At, initialize-At, length-padded}
use osc2ftdidmx.Osc.Reader.Message.{arg_begin_lem}
use osc2ftdidmx.Dispatch.Refine.{Reads}
use osc2ftdidmx.Osc.Writer.{Writer, writer_initialize, writer_get_size, writer_finalize}
use osc2ftdidmx.Osc.Writer.Space.{Space}
use osc2ftdidmx.Osc.Writer.Args.{message_varlist}
use osc2ftdidmx.Osc.Writer.Cases.{Writable}
use osc2ftdidmx.Osc.Writer.Message.{passed_all, AllWritable, format, message_varlist-Wrote}

-- A new writer has all of its array free.
pub writer_initialize-Space :
    (m : Memory) (array beyond : List ℕ)
    → m.bytes ≡ array ++ beyond
    → m.base + length m.bytes < 2 ^ 63
    → Space (writer_initialize m m.base (length array)) [] array beyond
unfolding writer_initialize
writer_initialize-Space m array beyond lies fits =
    let sized = ap length lies ∙ length-append array beyond in
    record {
      lies = lies;
      start = refl;
      at = omega arith;
      stop = omega (arith, sized, fits);
      fits = fits;
    }

module _ (narrow widen : ℕ → ℕ) where
  Writable-ArgFits : (a : Argument) → Writable narrow widen a → ArgFits a
  Writable-ArgFits (four int u) h = h
  Writable-ArgFits (four float u) h = h.0
  Writable-ArgFits (four char u) h = omega (arith, h)
  Writable-ArgFits (four midi u) h = h
  Writable-ArgFits (four rgba u) h = h
  Writable-ArgFits (eight k u) h = h
  Writable-ArgFits (text k s) h = h.0
  Writable-ArgFits (blob bytes) h = h.0
  Writable-ArgFits (flag k) h = tt

  AllWritable-ArgsFit : (args : List Argument) → AllWritable narrow widen args → ArgsFit args
  AllWritable-ArgsFit [] h = tt
  AllWritable-ArgsFit (a ∷ args) h = (Writable-ArgFits a h.0, AllWritable-ArgsFit args h.1)

-- The size that a writer has is that of what was written.
pub writer_get_size_lem :
    (w : Writer) (done free beyond : List ℕ)
    → Space w done free beyond
    → writer_get_size w ≡ length done
unfolding writer_get_size
writer_get_size_lem w done free beyond space = ground (arith, space.at, space.start)

pub writer_finalize_lem :
    (w : Writer) (done free beyond : List ℕ)
    → Space w done free beyond
    → 0 < length done
    → writer_finalize w ≡ (length done, some w.mem.base)
unfolding writer_finalize writer_get_size
writer_finalize_lem w done free beyond space something =
    let above : ltb w.buf w.ptr ≡ true = ground (arith, something, space.at, space.start) in
    let size : w.ptr - w.buf ≡ length done = omega (arith, space.at, space.start) in
    let not_zero : (length done == 0) ≡ false = ground (arith, something) in
    rw (above, size, not_zero, space.start) refl

module _ (narrow widen : ℕ → ℕ) (m : Memory) (array beyond path : List ℕ) (args : List Argument)
    (lies : m.bytes ≡ array ++ beyond) (fits : m.base + length m.bytes < 2 ^ 63)
    (clean : NoZero path) (short : length path < 2 ^ 62) (few : length args < 2 ^ 61)
    (writable : AllWritable narrow widen args) where
  -- Let a writer be initialized with an array below the address 2^63. Let the numbers of a message fit, its
  -- characters be ASCII, its path and strings be shorter than 2^62 and have no null byte inside, its
  -- arguments be fewer than 2^61, four divide the sizes of its blobs, and let the casts to `double` and back to
  -- `float` leave the floats of the message as they are. Then `lv2_osc_writer_message_varlist` returns without an access out of memory, and what lies
  -- behind the array stays. It returns true just if the array is longer than the message: then the bytes of
  -- the message, as the format of OSC 1.0 has them, stand at the begin of the array, and
  -- `lv2_osc_writer_finalize` returns it with their number.
  pub message_varlist_lem :
      (v : Writer) × (b : Bool) × (front : List ℕ) × (rest : List ℕ) × (message_varlist narrow
          (writer_initialize m m.base (length array))
          (path ++ (0 ∷ []))
          (format args)
          (passed_all widen args)
        ≡ ok (v, b))
      × (v.mem.bytes ≡ front ++ (rest ++ beyond))
      × (length front + length rest ≡ length array)
      × (((b ≡ true)
            × (length (encode_message path args) < length array)
            × (front ≡ encode_message path args)
            × (writer_finalize v ≡ (length (encode_message path args), some v.mem.base)))
          ⊎ ((b ≡ false) × (length array ≤ length (encode_message path args))))
  message_varlist_lem =
      let (v, b, front, rest, returns, space, sizes, ends) =
        message_varlist-Wrote narrow widen beyond path [] args
          (writer_initialize m m.base (length array)) [] array
          (writer_initialize-Space m array beyond lies fits) clean short few writable in
      let long : 0 < length (encode_message path args) = omega (
        arith,
        length-padded path,
        length-append (padded path) (padded (b',' ∷ map tag_of args) ++ encode_args args),
      ) in
      (
        v,
        b,
        front,
        rest,
        returns,
        space.lies,
        sizes,
        elim ends [
          | inl (good, all, less) ↦ inl (
            good,
            less,
            all,
            subst (λ (p : List ℕ). writer_finalize v ≡ (length p, some v.mem.base)) all
                (writer_finalize_lem v front rest beyond space
                  (subst (λ (p : List ℕ). 0 < length p) (sym all) long)),
          )
          | inr failed ↦ inr failed
        ],
      )

  -- Let a writer be initialized with an array below the address 2^63 that is longer than a message. Let the
  -- numbers of the message fit, its characters be ASCII, its path and strings be shorter than 2^62 and have
  -- no null byte inside, its arguments be fewer than 2^61, four divide the sizes of its blobs, and let the casts
  -- to `double` and back to `float` leave the floats of the message as they are. Then `lv2_osc_writer_message_varlist` returns true, and the reader
  -- reads the message off the memory of the writer: the path and the arguments are those that were written,
  -- in order, as the program sees them.
  pub arg_begin-message_varlist :
      length (encode_message path args) < length array
      → (v : Writer) × (q : Reader) × (next : Arg) × (message_varlist narrow
            (writer_initialize m m.base (length array))
            (path ++ (0 ∷ []))
            (format args)
            (passed_all widen args)
          ≡ ok (v, true))
        × (arg_begin (reader_initialize v.mem (writer_get_size v)) (writer_get_size v)
            ≡ ok (q, some next))
        × Reads reader_args q (some next) (map seen args)
        × (reader_args.arg_path next ≡ path)
  arg_begin-message_varlist room =
      let (v, b, front, rest, returns, space, sizes, ends) =
        message_varlist-Wrote narrow widen beyond path [] args
          (writer_initialize m m.base (length array)) [] array
          (writer_initialize-Space m array beyond lies fits) clean short few writable in
      elim ends [
        | inr (bad, small) ↦ absurd (omega (arith, small, room))
        | inl (good, all, less) ↦
            let there : Space v (encode_message path args) rest beyond =
              subst (λ (p : List ℕ). Space v p rest beyond) all space in
            let memory : v.mem ≡ record {
              base = v.mem.base;
              bytes = encode_message path args ++ (rest ++ beyond);
            } =
              ap (λ b. record v.mem { bytes = b }) there.lies in
            let size : writer_get_size v ≡ length (encode_message path args) =
              writer_get_size_lem v (encode_message path args) rest beyond there in
            let sized =
              ap length there.lies ∙ length-append (encode_message path args) (rest ++ beyond) in
            let at : At (reader_initialize v.mem (length (encode_message path args)))
                (encode_message path args) (rest ++ beyond) =
              subst
                (λ (n : Memory).
                  At (reader_initialize n (length (encode_message path args)))
                    (encode_message path args) (rest ++ beyond))
                (sym memory)
                (initialize-At v.mem.base (encode_message path args) (rest ++ beyond)
                  (omega (arith, there.fits, sized))) in
            let (q, next, begun, reads, same) =
              arg_begin_lem (reader_initialize v.mem (length (encode_message path args))) path args
                (rest ++ beyond) clean (AllWritable-ArgsFit narrow widen args writable) at in
            (
              v,
              q,
              next,
              returns ∙ ap (λ c. ok (v, c)) good,
              ap (λ n. arg_begin (reader_initialize v.mem n) n) size ∙ begun,
              reads,
              same,
            )
      ]
