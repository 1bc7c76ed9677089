-- ===== src/Dispatch/Names.antt =====
-- The names in the tables are the decimal numerals of the indices, and a path that spells out a
-- channel and a priority reaches these two entries alone.
use Prim.Native.String.{String}
use osc2ftdidmx.Base.{
  ℕ, zero, suc, ◌+◌, ◌-◌, ◌*◌, ◌/◌, ◌%◌, ◌≤◌, ◌<◌, ◌≡◌, ◌↔◌, ◌∙◌, sym, ap, refl, Bool, true, none,
  some, List, [], ◌∷◌, ◌++◌, map, arith, ◌&&◌, ltb, leb, if◌then◌else◌, length, codes, Bool-cases,
  inl, inr, ℕ_discrete,
}
use mathlib.Core.List.{append-nil}
use osc2ftdidmx.Osc.Tree.{
  Trees, end, Branch, null, priority, channel, Visit, visit, call, matched, walk, segment,
  after_slash, get_path,
}
use osc2ftdidmx.Dispatch.Tables.{
  table, priority_names, channel_names, tree_priority, tree_channel, tree_root,
}

-- The decimal numeral of a number below 1000.
abbrev pub digit : ℕ → ℕ
digit d = b'0' + d

unfoldable pub decimal : ℕ → List ℕ
decimal n =
    if ltb n 10
    then digit n ∷ []
    else (if ltb n 100
        then digit (n / 10) ∷ digit (n % 10) ∷ []
        else digit (n / 100) ∷ digit (n / 10 % 10) ∷ digit (n % 10) ∷ [])

abbrev pub decimals_from : ℕ → ℕ → List (List ℕ)
decimals_from i zero = []
decimals_from i (suc n) = decimal i ∷ decimals_from (i + 1) n

-- Entry `i` of either table is named by the decimal numeral of `i`.
pub names-decimal :
    (map codes priority_names ≡ decimals_from 0 32)
    × (map codes channel_names ≡ decimals_from 0 512)
unfolding decimal
names-decimal = (refl, refl)

-- The number that a numeral stands for.
numeral : List ℕ → ℕ → ℕ
numeral [] acc = acc
numeral (d ∷ ds) acc = numeral ds (acc * 10 + (d - b'0'))

numeral-decimal : (n : ℕ) → n < 1000 → numeral (decimal n) 0 ≡ n
unfolding decimal numeral
numeral-decimal n h = ground arith

decimal_injective : (m n : ℕ) → m < 1000 → n < 1000 → decimal m ≡ decimal n → m ≡ n
decimal_injective m n h k e =
    sym (numeral-decimal m h) ∙ ap (λ ds. numeral ds 0) e ∙ numeral-decimal n k

segment-decimal :
    (n : ℕ) (rest : List ℕ) → n < 1000 → segment (decimal n ++ b'/' ∷ rest) ≡ decimal n
unfolding segment decimal
segment-decimal n rest h = ground arith

after_slash-decimal :
    (n : ℕ) (rest : List ℕ) → n < 1000 → after_slash (decimal n ++ b'/' ∷ rest) ≡ some rest
unfolding after_slash decimal
after_slash-decimal n rest h = ground arith

segment-decimal_last : (n : ℕ) → n < 1000 → segment (decimal n) ≡ decimal n
unfolding segment decimal
segment-decimal_last n h = ground arith

after_slash-decimal_last : (n : ℕ) → n < 1000 → after_slash (decimal n) ≡ none
unfolding after_slash decimal
after_slash-decimal_last n h = ground arith

pick :
    (test : Bool) (calls_at : ℕ → List Visit) (later : List Visit) (i n c : ℕ)
    → (test ≡ true) ↔ (c ≡ i)
    → later ≡ (if leb (i + 1) c && ltb c (i + 1 + n) then calls_at c else [])
    → (if test then calls_at i ++ later else later)
      ≡ (if leb i c && ltb c (i + suc n) then calls_at c else [])
pick test calls_at later i n c named rest = elim (ℕ_discrete c i) [
  | yes e ↦ ground (arith, append-nil (calls_at i), ap calls_at e, named.1 e)
  | no ne ↦ elim (Bool-cases test) [ inl t ↦ absurd (ne (named.0 t)) | inr t ↦ ground arith ]
]

-- A pattern matcher that takes plain decimal numerals literally, as `fnmatch` does with a pattern
-- that has no special character.
abbrev pub IsLiteral : (List ℕ → List ℕ → Bool) → Type 0
IsLiteral pattern_match =
    ((m n : ℕ)
      → m < 1000
      → n < 1000
      → (pattern_match (decimal m) (decimal n) ≡ true) ↔ (decimal m ≡ decimal n))
    × (pattern_match (codes "dmx") (codes "dmx") ≡ true)

-- The path of one channel and one priority, without the slash before it.
abbrev pub path_to : ℕ → ℕ → List ℕ
path_to c p = codes "dmx" ++ b'/' ∷ (decimal c ++ b'/' ∷ decimal p)

root_matched :
    (from : List ℕ) (below : List Visit) → matched null tree_channel 0 (some from) below ≡ below
unfolding matched tree_channel call
root_matched from below = refl

module _ (pattern_match : List ℕ → List ℕ → Bool) (literal : IsLiteral pattern_match) where
  -- What a table of consecutive numerals does with a path that begins with the numeral `c`.
  abbrev only_at : Branch → Trees → ℕ → ℕ → ℕ → List ℕ → List Visit
  only_at b kids i n c from =
      if leb i c && ltb c (i + n)
      then matched b kids c (after_slash from)
          (walk pattern_match kids 0 (get_path (after_slash from)))
      else []

  walk-table :
      (b : Branch) (kids : Trees) (names : List String) (i c : ℕ) (from : List ℕ)
      → map codes names ≡ decimals_from i (length names)
      → i + length names ≤ 1000
      → c < 1000
      → segment from ≡ decimal c
      → walk pattern_match (table b kids names) i from ≡ only_at b kids i (length names) c from
  unfolding walk
  walk-table b kids [] i c from e h k s = ground arith
  walk-table b kids (name ∷ names) i c from e h k s =
      pick (pattern_match (segment from) (codes name))
        (λ j.
          matched b kids j (after_slash from)
            (walk pattern_match kids 0 (get_path (after_slash from))))
        _ i (length names) c
        (rw (s, named)
          (
            λ t. decimal_injective c i k (omega arith) ((literal.0 c i k (omega arith)).0 t),
            λ q. (literal.0 c i k (omega arith)).1 (ap decimal q),
          ))
        (walk-table b kids names (i + 1) c from rest (omega arith) k s)
    where
      named : codes name ≡ decimal i
      named = cc

      rest : map codes names ≡ decimals_from (i + 1) (length names)
      rest = cc

  -- The entry that the numeral names, where the table has one.
  only_at-within :
      (b : Branch) (kids : Trees) (n c : ℕ) (from : List ℕ)
      → c < n
      → only_at b kids 0 n c from
        ≡ matched b kids c
            (after_slash from)
            (walk pattern_match kids 0 (get_path (after_slash from)))
  only_at-within b kids n c from h = ground arith

  tree_priority-only :
      (p : ℕ) → p < 32 → walk pattern_match tree_priority 0 (decimal p) ≡ visit priority p ∷ []
  unfolding tree_priority
  tree_priority-only p h =
      walk-table priority end priority_names 0 p (decimal p) names-decimal.0 (omega arith)
        (omega arith) (segment-decimal_last p (omega arith))
      ∙ only_at-within priority end 32 p (decimal p) h
      ∙ (λ i.
          matched priority end p (after_slash-decimal_last p (omega arith) i)
            (walk pattern_match end 0 (get_path (after_slash (decimal p)))))
      ∙ unfold matched call in refl

  tree_channel-only :
      (c : ℕ) (rest : List ℕ)
      → c < 512
      → walk pattern_match tree_channel 0 (decimal c ++ b'/' ∷ rest)
        ≡ visit channel c ∷ walk pattern_match tree_priority 0 rest
  unfolding tree_channel
  tree_channel-only c rest h =
      walk-table channel tree_priority channel_names 0 c _ names-decimal.1 (omega arith)
        (omega arith) (segment-decimal c rest (omega arith))
      ∙ only_at-within channel tree_priority 512 c _ h
      ∙ (λ i. matched channel tree_priority c (after_slash-decimal c rest (omega arith) i) (
          walk pattern_match tree_priority 0
            (get_path (after_slash-decimal c rest (omega arith) i))))
      ∙ unfold matched call tree_priority in refl

  -- With a pattern matcher that takes numerals literally, the path of a channel below 512 and a
  -- priority below 32 reaches that channel and then that priority, and no other entry.
  pub walk-path_to :
      (c p : ℕ)
      → c < 512
      → p < 32
      → walk pattern_match tree_root 0 (path_to c p) ≡ visit channel c ∷ visit priority p ∷ []
  unfolding tree_root walk segment after_slash
  walk-path_to c p h k =
      rw (literal.1, root_matched, append-nil)
        (tree_channel-only c (decimal p) h
          ∙ ap (λ vs. visit channel c ∷ vs) (tree_priority-only p k))
