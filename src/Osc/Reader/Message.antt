-- ===== src/Osc/Reader/Message.antt =====
-- A message in its bytes: the reader finds its path and its arguments.
use mathlib.Core.List.{append_assoc, append-nil}
use osc2ftdidmx.Base.{
  ℕ, ◌+◌, ◌-◌, ◌%◌, ◌^◌, ◌≤◌, ◌≡◌, ◌≢◌, ◌∙◌, sym, ap, refl, subst, true, false, some, List, [], ◌∷◌,
  ◌++◌, arith, length, drop, take, map, ok, ◌==◌, ltb,
}
use osc2ftdidmx.Dispatch.Refine.{Reads}
use osc2ftdidmx.Osc.Memory.{Memory, bytes_from, load8}
use osc2ftdidmx.Osc.Reader.{Reader, here, moved}
use osc2ftdidmx.Osc.Reader.Args.{
  Arg, nothing, type_at, raw_case, arg_raw, with_types, arg_begin, reader_arg_is_end,
  reader_arg_next,
}
use osc2ftdidmx.Osc.Reader.Ops.{int_of, text_at, reader_args, got_or_null, or_else}
use osc2ftdidmx.Osc.Reader.Gets.{
  At, moved-At, overflow-At, here-At_append, bytes_from-low, bytes_from-later, get_string-At,
  strlen-At, padded-null,
}
use osc2ftdidmx.Osc.Reader.Cases.{ReadArg, value_from, raw_case_lem}
use osc2ftdidmx.Osc.Wire.{
  Argument, four, eight, text, blob, flag, tag_of, padded, encode_args, encode_message, seen,
  NoZero, ArgsFit,
}

-- At the address lie these bytes, and others behind them.
pub record Lies (m : Memory) (address : ℕ) (xs : List ℕ) : Type 0 where
  pub low : m.base ≤ address
  pub behind : List ℕ
  pub bytes : drop (address - m.base) m.bytes ≡ xs ++ behind

-- The next byte of bytes that lie in memory.
Lies-head : (m : Memory) (p x : ℕ) (xs : List ℕ) → Lies m p (x ∷ xs) → load8 (bytes_from m p) ≡ ok x
unfolding load8
Lies-head m p x xs lies = rw (bytes_from-low m p lies.low, lies.bytes) refl

Lies-tail : (m : Memory) (p x : ℕ) (xs : List ℕ) → Lies m p (x ∷ xs) → Lies m (p + 1) xs
Lies-tail m p x xs lies = record {
  low = omega (arith, lies.low);
  behind = lies.behind;
  bytes = bytes_from-later m p (x ∷ []) (xs ++ lies.behind) lies.low lies.bytes;
}

pub tag_of-ne_zero : (w : Argument) → tag_of w ≢ 0
tag_of-ne_zero (four _ u) e = ground arith
tag_of-ne_zero (eight _ u) e = ground arith
tag_of-ne_zero (text _ xs) e = ground arith
tag_of-ne_zero (blob xs) e = ground arith
tag_of-ne_zero (flag _) e = ground arith

goes_on :
    (w : Argument) (r : Reader) (a : Arg) {front tail : List ℕ}
    → type_at a ≡ ok (tag_of w)
    → a.end ≡ r.end
    → At r front tail
    → or_else true (reader_arg_is_end r a) ≡ false
unfolding reader_arg_is_end
goes_on w r a kind stop at =
    let more : ltb a.end r.ptr ≡ false = ground (arith, at.last, stop) in
    let some_tag : (tag_of w == 0) ≡ false = ground (arith, tag_of-ne_zero w) in
    rw (kind, some_tag, more) refl

-- From the bytes of the arguments and their types on.
module _ (m : Memory) where
  pub Reads-encode_args :
      (args : List Argument) (r : Reader) (a : Arg) (tail : List ℕ)
      → ArgsFit args
      → r.mem ≡ m
      → a.mem ≡ m
      → a.end ≡ r.end
      → Lies m a.type (map tag_of args ++ (0 ∷ []))
      → At r (encode_args args) tail
      → (q : Reader) × (next : Arg) × (arg_raw r a ≡ ok (q, some next))
        × (next.path ≡ a.path)
        × (next.mem ≡ a.mem)
        × Reads reader_args q (some next) (map seen args)
  unfolding arg_raw reader_arg_is_end reader_arg_next raw_case
  Reads-encode_args [] r a tail fits same mem end lies at =
      let null : type_at a ≡ ok 0 =
        ap (λ n. load8 (bytes_from n a.type)) mem ∙ Lies-head m a.type 0 [] lies in
      (r, a, rw null refl, refl, refl, rw null refl)
  Reads-encode_args (w ∷ args) r a tail fits same mem end lies at =
      let kind : type_at a ≡ ok (tag_of w) =
        ap (λ n. load8 (bytes_from n a.type)) mem
        ∙ Lies-head m a.type (tag_of w) (map tag_of args ++ (0 ∷ [])) lies in
      let read : ReadArg w r a (encode_args args) tail =
        raw_case_lem r a (encode_args args) tail w fits.0 (mem ∙ sym same) at in
      let kind' : type_at read.next ≡ ok (tag_of w) =
        ap (λ n. load8 (bytes_from n read.next.type)) read.mem
        ∙ ap (λ t. load8 (bytes_from a.mem t)) read.type
        ∙ kind in
      let stop : read.next.end ≡ read.after.end = read.end ∙ end ∙ sym read.same_end in
      let later : Lies m (read.next.type + 1) (map tag_of args ++ (0 ∷ [])) =
        subst (λ t. Lies m (t + 1) (map tag_of args ++ (0 ∷ []))) (sym read.type)
          (Lies-tail m a.type (tag_of w) (map tag_of args ++ (0 ∷ [])) lies) in
      let (q, next, raws, path, mem', reads) =
        Reads-encode_args args read.after (record read.next { type = read.next.type + 1 }) tail
          fits.1 (read.same_memory ∙ same) (read.mem ∙ mem) stop later read.rest in
      (
        read.after,
        read.next,
        rw kind read.returns,
        read.path,
        read.mem,
        (
          read.next,
          refl,
          goes_on w read.after read.next kind' stop read.rest,
          ap (λ o. value_from (or_else 0 o) (int_of read.next.stored)) kind' ∙ read.sees,
          subst
              (λ got.
                Reads reader_args (got_or_null read.after got).0 (got_or_null read.after got).1
                  (map seen args))
              (sym raws) reads,
        ),
      )

pub tags-NoZero : (args : List Argument) → NoZero (map tag_of args)
tags-NoZero [] = tt
tags-NoZero (w ∷ args) = (tag_of-ne_zero w, tags-NoZero args)

take-append : (xs ys : List ℕ) → take (length xs) (xs ++ ys) ≡ xs
take-append [] ys = refl
take-append (x ∷ xs) ys = ap (λ zs. x ∷ zs) (take-append xs ys)

text_at-padded :
    (r : Reader) (s front tail : List ℕ)
    → NoZero s
    → At r (padded s ++ front) tail
    → text_at r.mem r.ptr ≡ s
text_at-padded r s front tail h at =
    let bytes : here r ≡ s ++ _ =
      here-At_append r (padded s) front tail (length (padded s)) at refl
      ∙ ap (λ p. p ++ (front ++ tail)) (padded-null s)
      ∙ append_assoc s _ _ in
    rw (strlen-At r s front tail at h) (ap (take (length s)) bytes ∙ take-append s _)

-- A null-terminated string in front of the pointer, as bytes that lie in memory.
Lies-padded :
    (r : Reader) (s front tail : List ℕ)
    → At r (padded s ++ front) tail
    → Lies r.mem r.ptr (s ++ (0 ∷ []))
Lies-padded r s front tail at = record {
  low = at.low;
  behind = _;
  bytes =
      at.bytes
      ∙ append_assoc (padded s) front tail
      ∙ ap (λ p. p ++ (front ++ tail)) (padded-null s)
      ∙ append_assoc s _ _
      ∙ sym (append_assoc s (0 ∷ []) _);
}

module _ (r : Reader) (path : List ℕ) (args : List Argument) (tail : List ℕ) (no_zero : NoZero path)
    (fits : ArgsFit args) (at : At r (encode_message path args) tail) where
  abbrev types : List ℕ
  types = b',' ∷ map tag_of args

  abbrev at_types : Reader
  at_types = moved r (length (padded path))

  abbrev at_args : Reader
  at_args = moved at_types (length (padded types))

  types-At : At at_types (padded types ++ encode_args args) tail
  types-At =
      moved-At r (padded path) (padded types ++ encode_args args) tail (length (padded path)) at
        refl

  args-At : At at_args (encode_args args) tail
  args-At =
      moved-At at_types (padded types) (encode_args args) tail (length (padded types)) types-At refl

  -- Let the reader stand at the bytes of a message whose path has no null byte and whose arguments fit.
  -- Then `lv2_osc_reader_arg_begin` returns an argument, its path is the path, and going on with
  -- `lv2_osc_reader_arg_next` until `lv2_osc_reader_arg_is_end` gives the arguments of the message in order,
  -- as the program sees them.
  pub arg_begin_lem :
      (q : Reader) × (next : Arg) × (arg_begin r (length (encode_message path args))
        ≡ ok (q, some next))
      × Reads reader_args q (some next) (map seen args)
      × (reader_args.arg_path next ≡ path)
  unfolding arg_begin with_types
  arg_begin_lem =
      let len : ℕ = length (encode_message path args) in
      let stop : (r.ptr + len) % 2 ^ 64 ≡ r.end = omega (arith, at.last, at.fits) in
      let begun : Arg = record {
        mem = r.mem;
        type = at_types.ptr;
        size = 0;
        stored = nothing;
        path = r.ptr;
        end = (r.ptr + len) % 2 ^ 64;
      } in
      let lies : Lies r.mem at_types.ptr (types ++ (0 ∷ [])) =
        Lies-padded at_types types (encode_args args) tail types-At in
      let comma : type_at begun ≡ ok b',' =
        Lies-head r.mem at_types.ptr b',' (map tag_of args ++ (0 ∷ [])) lies in
      let (q, next, raws, same_path, same_mem, reads) =
        Reads-encode_args r.mem args at_args (record begun { type = at_types.ptr + 1 }) tail fits
          refl refl stop (Lies-tail r.mem at_types.ptr b',' (map tag_of args ++ (0 ∷ [])) lies)
          args-At in
      (
        q,
        next,
        rw
            (
              overflow-At r (encode_message path args) [] tail len
                  (subst (λ xs. At r xs tail) (sym (append-nil (encode_message path args))) at)
                  refl,
              get_string-At r path (padded types ++ encode_args args) tail at no_zero,
              get_string-At at_types types (encode_args args) tail types-At
                  ((λ e. omega arith), tags-NoZero args),
              comma,
              raws,
            )
            refl,
        reads,
        ap (λ m. text_at m next.path) same_mem
            ∙ ap (text_at r.mem) same_path
            ∙ text_at-padded r path (padded types ++ encode_args args) tail no_zero at,
      )
