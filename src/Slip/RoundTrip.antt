-- ===== src/Slip/RoundTrip.antt =====
-- What the SLIP encoder writes is what the decoder reads.
use osc2ftdidmx.Base.{
  ℕ, zero, suc, ◌+◌, ◌<◌, ◌≤◌, ◌≡◌, ◌∙◌, refl, ap, Bool, true, false, Option, some, List, [], ◌∷◌,
  ◌++◌, ◌==◌, arith, length, length-append, take, drop, ok, ◌>>=◌, Bool-cases, inl, inr,
}
use osc2ftdidmx.Osc.Reader.Gets.{drop-append}
use osc2ftdidmx.Slip.{
  slip_end, slip_esc, specials, escaped, escape_all, slip_encode, replaced, decode_from, Decoded,
  slip_decode, overwritten, dispatch,
}

escape_all-plain : (cs : List ℕ) → specials cs ≡ 0 → cs ++ (slip_end ∷ []) ≡ escape_all cs
unfolding escape_all specials escaped
escape_all-plain [] e = refl
escape_all-plain (c ∷ cs) e =
    let none_here : escaped c ≡ c ∷ [] = ground arith in
    rw (none_here, escape_all-plain cs (ground arith)) refl

-- On both tracks the frame is the same.
slip_encode_lem : (c : ℕ) (cs : List ℕ) → slip_encode (c ∷ cs) ≡ slip_end ∷ escape_all (c ∷ cs)
unfolding slip_encode
slip_encode_lem c cs =
    elim (Bool-cases (2 + length (c ∷ cs) + specials (c ∷ cs) == length (c ∷ cs) + 2)) [
      | inl fast ↦
          rw fast (ap (λ t. slip_end ∷ t) (escape_all-plain (c ∷ cs) (ground (arith, fast))))
      | inr slow ↦ rw slow refl
    ]

abbrev decoded : ℕ → List ℕ → Option ℕ × List ℕ
decoded n cs = (some n, cs)

some-eq : {n m a c : ℕ} (cs : List ℕ) → n ≡ m → a ≡ c → decoded n (a ∷ cs) ≡ decoded m (c ∷ cs)
some-eq cs e f = rw (e, f) refl

decode_from-escape_all :
    (cs rest : List ℕ)
    → decode_from false (escape_all cs ++ rest) ≡ (some (length (escape_all cs)), cs)
unfolding decode_from escape_all escaped replaced
decode_from-escape_all [] rest = refl
decode_from-escape_all (c ∷ cs) rest =
    let more = decode_from-escape_all cs rest in
    elim (Bool-cases (c == slip_end)) [
      | inl is_end ↦ rw (is_end, more) (some-eq cs (omega arith) (ground (arith, is_end)))
      | inr not_end ↦ rw not_end (elim (Bool-cases (c == slip_esc)) [
        | inl is_esc ↦ rw (is_esc, more) (some-eq cs (omega arith) (ground (arith, is_esc)))
        | inr not_esc ↦ rw (not_esc, more, not_esc, not_end) (some-eq cs (omega arith) refl)
      ])
    ]

-- Let a packet have at least one byte. Then `lv2_osc_slip_decode_inline` on what `lv2_osc_slip_encode_inline`
-- makes of it, with anything behind that, parses exactly the frame and has written the packet.
pub slip_decode-slip_encode :
    (packet rest : List ℕ)
    → 0 < length packet
    → slip_decode (slip_encode packet ++ rest)
      ≡ record { parsed = length (slip_encode packet); size = length packet; written = packet }
unfolding slip_decode
slip_decode-slip_encode [] rest some_byte = absurd (omega arith)
slip_decode-slip_encode (c ∷ cs) rest some_byte =
    rw (slip_encode_lem c cs, decode_from-escape_all (c ∷ cs) rest)
      (ap (λ n. record { parsed = n; size = length (c ∷ cs); written = c ∷ cs }) (omega arith))

abbrev pub frames : List (List ℕ) → List ℕ
frames [] = []
frames (packet ∷ packets) = slip_encode packet ++ frames packets

abbrev pub NotEmpty : List (List ℕ) → Type 0
NotEmpty [] = Unit
NotEmpty (packet ∷ packets) = (0 < length packet) × NotEmpty packets

pub take-append : (xs ys : List ℕ) → take (length xs) (xs ++ ys) ≡ xs
take-append [] ys = refl
take-append (x ∷ xs) ys = ap (λ t. x ∷ t) (take-append xs ys)

-- A frame is longer than its packet.
longer : (packet : List ℕ) → length packet ≤ length (escape_all packet)
unfolding escape_all escaped
longer [] = omega arith
longer (c ∷ cs) =
    let one_or_two : 1 ≤ length (escaped c) = ground arith in
    omega (arith, length-append (escaped c) (escape_all cs), longer cs)

pub fits : (packet : List ℕ) → length packet ≤ length (slip_encode packet)
fits [] = omega arith
fits (c ∷ cs) = omega (arith, longer (c ∷ cs), ap length (slip_encode_lem c cs))

-- What lies behind a frame is not overwritten.
pub behind :
    (frame rest written : List ℕ)
    → length written ≤ length frame
    → drop (length frame) (overwritten written (frame ++ rest)) ≡ rest
behind frame rest [] h = drop-append frame rest
behind [] rest (w ∷ written) h = absurd (omega arith)
behind (x ∷ frame) rest (w ∷ written) h = behind frame rest written (omega arith)

module _ (write_ok : ℕ → Bool) (space : (n : ℕ) → write_ok n ≡ true) where
  -- One turn that finds a packet.
  dispatch-step :
      (bytes packet : List ℕ) (parsed fuel : ℕ)
      → slip_decode bytes ≡ record { parsed = parsed; size = length packet; written = packet }
      → 0 < length packet
      → dispatch write_ok (suc fuel) bytes ≡ (
          dispatch write_ok fuel (drop parsed (overwritten packet bytes)) >>= λ more.
          ok (take (length packet) (overwritten packet bytes) ∷ more.0, more.1))
  unfolding dispatch slip_decode
  dispatch-step [] packet parsed fuel e some_byte =
      absurd (omega (arith, ap (λ (d : Decoded). d.size) e))
  dispatch-step (c ∷ cs) packet parsed fuel e some_byte =
      let not_none : (length packet == 0) ≡ false = ground arith in
      rw (e, not_none, space (length packet)) refl

  -- Let the driver give space for every packet, and let the bytes received be whole frames of packets that
  -- are not empty. Then the loop over them ends, passes on the packets in their order, and keeps no bytes.
  pub dispatch-frames :
      (packets : List (List ℕ)) (fuel : ℕ)
      → NotEmpty packets
      → length packets < fuel
      → dispatch write_ok fuel (frames packets) ≡ ok (packets, [])
  unfolding dispatch
  dispatch-frames packets zero some_bytes more = absurd (omega arith)
  dispatch-frames [] (suc fuel) some_bytes more = refl
  dispatch-frames (packet ∷ packets) (suc fuel) some_bytes more =
      let frame : List ℕ = slip_encode packet in
      let later : dispatch write_ok fuel
            (drop (length frame) (overwritten packet (frame ++ frames packets)))
          ≡ ok (packets, []) =
        ap (dispatch write_ok fuel) (behind frame (frames packets) packet (fits packet))
        ∙ dispatch-frames packets fuel some_bytes.1 (omega arith) in
      dispatch-step (frame ++ frames packets) packet (length frame) fuel
        (slip_decode-slip_encode packet (frames packets) some_bytes.0) some_bytes.0
      ∙ rw later (ap (λ p. ok (p ∷ packets, [])) (take-append packet _))
