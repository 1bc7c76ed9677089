-- ===== src/Packet/NoTypes.antt =====
-- A message with no type string: what `lv2_osc_reader_match` does with the null pointer that it gets.
use mathlib.Core.List.{append-nil}
use mathlib.Core.Bool.{false≢true}
use osc2ftdidmx.Base.{
  ℕ, suc, ◌+◌, ◌%◌, ◌^◌, ◌≤◌, ◌≡◌, ◌≢◌, ◌⊎◌, inl, inr, ◌∙◌, sym, ap, refl, subst, Bool, Bool-cases,
  true, false, none, some, ok, fault, List, [], ◌∷◌, ◌++◌, arith, length, length-append, ◌==◌,
}
use osc2ftdidmx.Osc.Memory.{load8, strlen, strncmp_eq, padded_size}
use osc2ftdidmx.Osc.Reader.{
  Reader, reader_initialize, reader_is_bundle, reader_is_message, here, moved, overflow, get_string,
}
use osc2ftdidmx.Osc.Reader.Args.{Arg, nothing, type_at, arg_begin, with_types}
use osc2ftdidmx.Osc.Reader.Ops.{got_or_null, reader_args}
use osc2ftdidmx.Osc.Reader.Gets.{
  At, here-At, moved-At, overflow-At, get_string-At, initialize-At, strlen-append,
}
use osc2ftdidmx.Osc.Wire.{padded, NoZero}
use osc2ftdidmx.Dispatch.Refine.{handle_osc_message-null}
use osc2ftdidmx.Packet.{App, immediate, deliver, handle_message, handle_osc_packet}
use osc2ftdidmx.Packet.Bytes.{ops, start}

-- The first character of a string, or the null byte at its end.
abbrev pub first_of : List ℕ → ℕ
first_of [] = 0
first_of (c ∷ cs) = c

load8-first : (types others : List ℕ) → load8 (types ++ (0 ∷ others)) ≡ ok (first_of types)
unfolding load8
load8-first [] others = refl
load8-first (c ∷ cs) others = refl

-- A string that begins at the end of the packet does not fit.
overflow-end :
    (r : Reader) (n : ℕ) {tail : List ℕ}
    → At r [] tail
    → r.ptr + n + 8 ≤ 2 ^ 64
    → overflow r (padded_size (n + 1)) ≡ true
unfolding overflow padded_size
overflow-end r n at room = ground (arith, at.last)

module _ (r : Reader) (path front tail types others : List ℕ)
    (at : At r (padded path ++ front) tail) (no_zero : NoZero path)
    (behind : front ++ tail ≡ types ++ (0 ∷ others)) (clean : NoZero types)
    (room : r.ptr + length (padded path) + length types + 9 ≤ 2 ^ 64)
    (odd : (front ≡ []) ⊎ (first_of types ≢ b',')) where
  abbrev at_types : Reader
  at_types = moved r (length (padded path))

  types-At : At at_types front tail
  types-At = moved-At r (padded path) front tail (length (padded path)) at refl

  abbrev begun : Arg
  begun = record {
    mem = r.mem;
    type = at_types.ptr;
    size = 0;
    stored = nothing;
    path = r.ptr;
    end = (r.ptr + length (padded path ++ front)) % 2 ^ 64;
  }

  here-types : here at_types ≡ types ++ (0 ∷ others)
  here-types = here-At at_types types-At ∙ behind

  types_at : type_at begun ≡ ok (first_of types)
  types_at = ap load8 here-types ∙ load8-first types others

  -- The type string lies past the end of the packet, or it does not begin with a comma.
  types_lem :
      (get_string at_types ≡ ok (at_types, none))
      ⊎ ((first_of types ≢ b',')
          × (get_string at_types
              ≡ ok (moved at_types (padded_size (length types + 1)), some at_types.ptr)))
  unfolding get_string
  types_lem =
      let n = ap strlen here-types ∙ strlen-append types others clean in
      let place : at_types.ptr ≡ r.ptr + length (padded path) =
        omega (arith, at.last, at.fits, length-append (padded path) front) in
      elim (Bool-cases (overflow at_types (padded_size (length types + 1)))) [
        | inl past ↦ inl (rw (n, past) refl)
        | inr inside ↦ inr (
          elim odd [
            | inl ended ↦
                let end_at : At at_types [] tail =
                  subst (λ xs. At at_types xs tail) ended types-At in
                absurd (
                  false≢true (
                    sym inside
                    ∙ overflow-end at_types (length types) end_at (omega (arith, place, room))))
            | inr other ↦ other
          ],
          rw (n, inside) refl,
        )
      ]

  no_argument : (q : Reader) × (arg_begin r (length (padded path ++ front)) ≡ ok (q, none))
  unfolding arg_begin with_types
  no_argument =
      let len : ℕ = length (padded path ++ front) in
      let path_read = get_string-At r path front tail at no_zero in
      let fits : overflow r len ≡ false =
        overflow-At r (padded path ++ front) [] tail len
          (subst (λ xs. At r xs tail) (sym (append-nil (padded path ++ front))) at) refl in
      elim types_lem [
        | inl past ↦ (at_types, rw (fits, path_read, past) refl)
        | inr (other, read) ↦
            let no_comma : (first_of types == b',') ≡ false = ground (arith, other) in
            (
              moved at_types (padded_size (length types + 1)),
              rw (fits, path_read, read, types_at, no_comma) refl,
            )
      ]

initialize-ptr :
    (base : ℕ) (bytes : List ℕ) (n : ℕ)
    → (reader_initialize (record { base = base; bytes = bytes }) n).ptr ≡ base
unfolding reader_initialize
initialize-ptr base bytes n = refl

module _ (base : ℕ) (pattern_match : List ℕ → List ℕ → Bool) (malloc_ok : ℕ → ℕ → Bool) where
  -- Let a packet begin with a path, which begins with a slash and has no null byte inside, and let more bytes
  -- follow in the packet or none. Let there be a null byte somewhere behind, in the packet or past its end, at
  -- addresses that do not wrap. If the packet ends with the path, or what stands behind the path does not
  -- begin with a comma, as in messages of older implementations of OSC, which have no type string, then
  -- `OSC_READER_MESSAGE_BEGIN` gives a null pointer, and `lv2_osc_reader_match`, for a message that is
  -- immediate, follows it.
  pub handle_osc_packet-no_types :
      (fuel : ℕ) (app : App Reader Arg) (path rest front tail types others : List ℕ)
      → path ≡ b'/' ∷ rest
      → NoZero path
      → front ++ tail ≡ types ++ (0 ∷ others)
      → NoZero types
      → (front ≡ []) ⊎ (first_of types ≢ b',')
      → base + length (padded path) + length (front ++ tail) + 9 ≤ 2 ^ 64
      → handle_osc_packet
          (ops base pattern_match malloc_ok)
          (suc fuel)
          app
          immediate
          ((padded path ++ front) ++ tail)
          (length (padded path ++ front))
        ≡ fault
  unfolding handle_osc_packet handle_message deliver reader_is_bundle reader_is_message strncmp_eq
      load8
  handle_osc_packet-no_types fuel app path rest front tail types others slash no_zero behind clean
        odd room =
      let sizes = length-append (padded path) front in
      let both = ap length behind ∙ length-append types (0 ∷ others) in
      let memory = length-append front tail in
      let r : Reader = start base pattern_match malloc_ok (padded path ++ front) tail in
      let at : At r (padded path ++ front) tail =
        initialize-At base (padded path ++ front) tail (omega (arith, sizes, memory)) in
      let first : here r ≡ b'/' ∷ _ = here-At r at ∙ ap (λ p. (padded p ++ front) ++ tail) slash in
      let begins : r.ptr ≡ base =
        initialize-ptr base ((padded path ++ front) ++ tail) (length (padded path ++ front)) in
      let (q, none_read) =
        no_argument r path front tail types others at no_zero behind clean
          (omega (arith, both, begins)) odd in
      let no_state =
        handle_osc_message-null reader_args pattern_match app.state r q
          (length (padded path ++ front)) (ap (got_or_null r) none_read) in
      rw (first, no_state) refl
