-- ===== src/Osc/Pattern.antt =====
-- `lv2_osc_pattern_match` of osc.lv2/osc.lv2/util.h, where `fnmatch` knows extended patterns: braces
-- become groups of alternatives.
use mathlib.Core.List.{append_assoc}
use osc2ftdidmx.Base.{
  ℕ, ◌+◌, ◌-◌, ◌≤◌, ◌≡◌, ◌≢◌, ◌∙◌, refl, sym, ap, Bool, true, false, List, [], ◌∷◌, ◌++◌, ◌==◌, ltb,
  if◌then◌else◌, arith, length, length-append, Outcome, ok, fault, ◌>>=◌, Bool-cases, inl, inr,
}

-- The number of opening braces.
unfoldable pub braces : List ℕ → ℕ
braces [] = 0
braces (c ∷ cs) = if c == b'{' then braces cs + 1 else braces cs

-- What the `switch` writes for a character.
unfoldable pub rewritten : ℕ → List ℕ
rewritten c =
    if c == b'{'
    then b'@' ∷ b'(' ∷ []
    else if c == b','
    then b'|' ∷ []
    else if c == b'}'
    then b')' ∷ []
    else c ∷ []

-- The loop over the characters, with the space that is left of the buffer; past it is a fault.
unfoldable pub rewrite_braces : ℕ → List ℕ → Outcome (List ℕ)
unfolding rewritten
rewrite_braces space [] = ok []
rewrite_braces space (c ∷ cs) =
    let rest =
      rewrite_braces (space - length (rewritten c)) cs >>= λ more. ok (rewritten c ++ more) in
    if ltb space (length (rewritten c)) then fault else rest

-- The string in the buffer when its last byte is set to zero: every byte before that must be written.
unfoldable pub pattern_buffer : List ℕ → Outcome (List ℕ)
unfolding rewrite_braces braces
pattern_buffer from =
    let nbrace = braces from in
    let size = length from + nbrace in
    let converted = rewrite_braces size from >>= λ pattern.
    if length pattern == size then ok pattern else fault in
    if nbrace == 0 then ok from else converted

-- `lv2_osc_pattern_match` on the first `len` characters of `from`; `fnmatch` is true for a match.
unfoldable pub osc_pattern_match : (List ℕ → List ℕ → Bool) → List ℕ → List ℕ → Outcome Bool
unfolding pattern_buffer
osc_pattern_match fnmatch from name = pattern_buffer from >>= λ pattern. ok (fnmatch pattern name)

-- A pattern of OSC: characters, and lists of alternatives in braces.
pub data Piece : Type 0 where
  plain : ℕ → Piece
  choice : List ℕ → List (List ℕ) → Piece

abbrev alternatives : ℕ → List (List ℕ) → List ℕ
alternatives sep [] = []
alternatives sep (alt ∷ rest) = sep ∷ (alt ++ alternatives sep rest)

-- Its text in OSC, `{x,y}`, and as an extended pattern, `@(x|y)`.
abbrev pub osc_text : List Piece → List ℕ
osc_text [] = []
osc_text (plain c ∷ pieces) = c ∷ osc_text pieces
osc_text (choice alt rest ∷ pieces) =
    b'{' ∷ (alt ++ (alternatives b',' rest ++ (b'}' ∷ osc_text pieces)))

abbrev pub extended_text : List Piece → List ℕ
extended_text [] = []
extended_text (plain c ∷ pieces) = c ∷ extended_text pieces
extended_text (choice alt rest ∷ pieces) =
    b'@' ∷ b'(' ∷ (alt ++ (alternatives b'|' rest ++ (b')' ∷ extended_text pieces)))

-- No braces and no comma among the characters.
abbrev pub Plain : List ℕ → Type 0
Plain [] = Unit
Plain (c ∷ cs) = ((c ≢ b'{') × (c ≢ b',') × (c ≢ b'}')) × Plain cs

abbrev pub AllPlain : List (List ℕ) → Type 0
AllPlain [] = Unit
AllPlain (alt ∷ rest) = Plain alt × AllPlain rest

abbrev pub PiecesPlain : List Piece → Type 0
PiecesPlain [] = Unit
PiecesPlain (plain c ∷ pieces) = ((c ≢ b'{') × (c ≢ b',') × (c ≢ b'}')) × PiecesPlain pieces
PiecesPlain (choice alt rest ∷ pieces) = Plain alt × AllPlain rest × PiecesPlain pieces

abbrev all_rewritten : List ℕ → List ℕ
all_rewritten [] = []
all_rewritten (c ∷ cs) = rewritten c ++ all_rewritten cs

all_rewritten-length : (from : List ℕ) → length (all_rewritten from) ≡ length from + braces from
unfolding braces rewritten
all_rewritten-length [] = refl
all_rewritten-length (c ∷ cs) =
    let one_or_two : length (rewritten c) ≡ (if c == b'{' then 2 else 1) = ground arith in
    ground
      (arith, length-append (rewritten c) (all_rewritten cs), all_rewritten-length cs, one_or_two)

rewrite_braces_lem :
    (from : List ℕ) (space : ℕ)
    → length (all_rewritten from) ≤ space
    → rewrite_braces space from ≡ ok (all_rewritten from)
unfolding rewrite_braces
rewrite_braces_lem [] space h = refl
rewrite_braces_lem (c ∷ cs) space h =
    let sizes = length-append (rewritten c) (all_rewritten cs) in
    let fits : ltb space (length (rewritten c)) ≡ false = ground arith in
    rw (fits, rewrite_braces_lem cs (space - length (rewritten c)) (omega arith)) refl

rewritten-plain : (c : ℕ) → (c ≢ b'{') × (c ≢ b',') × (c ≢ b'}') → rewritten c ≡ c ∷ []
unfolding rewritten
rewritten-plain c p = ground arith

all_rewritten-Plain :
    (cs rest : List ℕ) → Plain cs → all_rewritten (cs ++ rest) ≡ cs ++ all_rewritten rest
all_rewritten-Plain [] rest p = refl
all_rewritten-Plain (c ∷ cs) rest p =
    rw (rewritten-plain c p.0, all_rewritten-Plain cs rest p.1) refl

all_rewritten-alternatives :
    (alts : List (List ℕ)) (rest : List ℕ)
    → AllPlain alts
    → all_rewritten (alternatives b',' alts ++ rest) ≡ alternatives b'|' alts ++ all_rewritten rest
unfolding rewritten
all_rewritten-alternatives [] rest p = refl
all_rewritten-alternatives (alt ∷ alts) rest p =
    ap (λ t. b'|' ∷ t)
      (ap all_rewritten (append_assoc alt (alternatives b',' alts) rest)
        ∙ all_rewritten-Plain alt (alternatives b',' alts ++ rest) p.0
        ∙ ap (λ t. alt ++ t) (all_rewritten-alternatives alts rest p.1)
        ∙ sym (append_assoc alt (alternatives b'|' alts) (all_rewritten rest)))

all_rewritten-osc_text :
    (pieces : List Piece)
    → PiecesPlain pieces
    → all_rewritten (osc_text pieces) ≡ extended_text pieces
unfolding rewritten
all_rewritten-osc_text [] p = refl
all_rewritten-osc_text (plain c ∷ pieces) p =
    rw (rewritten-plain c p.0, all_rewritten-osc_text pieces p.1) refl
all_rewritten-osc_text (choice alt rest ∷ pieces) p =
    ap (λ t. b'@' ∷ b'(' ∷ t)
      (all_rewritten-Plain alt (alternatives b',' rest ++ (b'}' ∷ osc_text pieces)) p.0
        ∙ ap (λ t. alt ++ t)
            (all_rewritten-alternatives rest (b'}' ∷ osc_text pieces) p.1
              ∙ ap (λ t. alternatives b'|' rest ++ (b')' ∷ t)) (all_rewritten-osc_text pieces p.2)))

no_choice :
    (pieces : List Piece)
    → PiecesPlain pieces
    → braces (osc_text pieces) ≡ 0
    → osc_text pieces ≡ extended_text pieces
unfolding braces
no_choice [] p e = refl
no_choice (plain c ∷ pieces) p e = ap (λ t. c ∷ t) (no_choice pieces p.1 (ground (arith, p)))
no_choice (choice alt rest ∷ pieces) p e = absurd (omega (arith, e))

module _ (fnmatch : List ℕ → List ℕ → Bool) where
  -- Let a pattern be made of characters and of lists of alternatives in braces, with no brace and no comma
  -- among the characters. Then `lv2_osc_pattern_match` stays inside its buffer, writes every byte of it, and
  -- asks `fnmatch` about the same pattern with the alternatives in the form `@(x|y)`.
  pub osc_pattern_match-osc_text :
      (pieces : List Piece) (name : List ℕ)
      → PiecesPlain pieces
      → osc_pattern_match fnmatch (osc_text pieces) name ≡ ok (fnmatch (extended_text pieces) name)
  unfolding osc_pattern_match pattern_buffer
  osc_pattern_match-osc_text pieces name p =
      let size : ℕ = length (osc_text pieces) + braces (osc_text pieces) in
      let converted = all_rewritten-osc_text pieces p in
      let sizes = all_rewritten-length (osc_text pieces) in
      elim (Bool-cases (braces (osc_text pieces) == 0)) [
        | inl none_found ↦
            rw none_found
              (ap (λ t. ok (fnmatch t name)) (no_choice pieces p (ground (arith, none_found))))
        | inr some_found ↦
            let whole : (length (all_rewritten (osc_text pieces)) == size) ≡ true =
              ground (arith, sizes) in
            rw (some_found, rewrite_braces_lem (osc_text pieces) size (omega (arith, sizes)), whole)
              (ap (λ t. ok (fnmatch t name)) converted)
      ]
