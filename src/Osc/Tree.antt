-- ===== src/Osc/Tree.antt =====
-- The method tables of osc.lv2/osc.lv2/reader.h and the walk over them that
-- `lv2_osc_reader_match` makes. A table is the chain of its entries up to the one with a null
-- name, so a null `trees` and an empty table are one value, `end`.
use osc2ftdidmx.Base.{ℕ, ◌+◌, Bool, Option, none, some, List, [], ◌∷◌, ◌++◌, ◌==◌, if◌then◌else◌}

-- The callbacks that the tables of the program name; `null` is a null pointer.
pub data Branch : Type 0 where
  null priority channel : Branch

-- The fields `name`, `branch` and `trees` of `LV2_OSC_Tree`, and the rest of the array.
pub data Trees : Type 0 where
  end : Trees
  entry : List ℕ → Branch → Trees → Trees → Trees

-- A call of a callback: `tree - array`, the index of the entry in its array, is what the callbacks
-- of the program read of their arguments.
pub data Visit : Type 0 where
  visit : Branch → ℕ → Visit

-- `strchr(from, '/')`: the text up to the first slash, and what follows it (`&ptr[1]`) if there
-- is one.
unfoldable pub segment : List ℕ → List ℕ
segment [] = []
segment (c ∷ cs) = if c == b'/' then [] else c ∷ segment cs

unfoldable pub after_slash : List ℕ → Option (List ℕ)
after_slash [] = none
after_slash (c ∷ cs) = if c == b'/' then some cs else after_slash cs

-- A call through a null pointer is skipped by the tests of the code.
unfoldable pub call : Branch → ℕ → List Visit
call null i = []
call priority i = visit priority i ∷ []
call channel i = visit channel i ∷ []

-- What the entry at index `i` does when its name matches: `below` are the calls of the table
-- under it on the rest of the path.
unfoldable pub matched : Branch → Trees → ℕ → Option (List ℕ) → List Visit → List Visit
unfolding call
matched b end i (some from) below = []
matched b (entry n c k r) i (some from) below = call b i ++ below
matched b kids i none below = call b i

abbrev pub get_path : Option (List ℕ) → List ℕ
get_path none = []
get_path (some from) = from

-- `_lv2_osc_trees_internal`, from the entry at index `i` on, as the calls that it makes in order.
-- `pattern_match` is `lv2_osc_pattern_match` on the text up to the slash and a name.
module _ (pattern_match : List ℕ → List ℕ → Bool) where
  unfoldable pub walk : Trees → ℕ → List ℕ → List Visit
  unfolding segment after_slash matched
  walk end i from = []
  walk (entry name b kids rest) i from =
      let below = walk kids 0 (get_path (after_slash from)) in
      let here = matched b kids i (after_slash from) below in
      let later = walk rest (i + 1) from in
      if pattern_match (segment from) name then here ++ later else later
