-- ===== src/Dispatch/Targets.antt =====
-- Every walk over the tables of the program, whatever the path and the pattern matcher, reaches
-- channels below 512 and priorities below 32 only.
use osc2ftdidmx.Base.{
  ℕ, ◌+◌, ◌%◌, ◌^◌, ◌≤◌, ◌<◌, Bool, true, false, Option, none, some, List, [], ◌∷◌, ◌++◌, arith,
  if◌then◌else◌, length, codes,
}
use Prim.Native.String.{String}
use osc2ftdidmx.Osc.Args.{Value}
use osc2ftdidmx.Osc.Tree.{
  Trees, end, entry, Branch, null, priority, channel, Visit, visit, call, matched, walk, segment,
  after_slash,
}
use osc2ftdidmx.Dispatch.Tables.{
  table, priority_names, channel_names, tree_priority, tree_channel, tree_root,
}
use osc2ftdidmx.Dispatch.Spec.{Target, targets, spread}
use osc2ftdidmx.Dispatch.Grid.{InRange, AllInRange}

-- The index of a call is one of its table.
abbrev pub VisitInRange : Visit → Type 0
VisitInRange (visit null i) = Unit
VisitInRange (visit priority i) = i < 32
VisitInRange (visit channel i) = i < 512

abbrev pub VisitsInRange : List Visit → Type 0
VisitsInRange [] = Unit
VisitsInRange (v ∷ vs) = VisitInRange v × VisitsInRange vs

VisitsInRange-append :
    (us vs : List Visit) → VisitsInRange us → VisitsInRange vs → VisitsInRange (us ++ vs)
VisitsInRange-append [] vs p q = q
VisitsInRange-append (u ∷ us) vs p q = (p.0, VisitsInRange-append us vs p.1 q)

-- The callback may be called at every index below `n`.
abbrev Allows : Branch → ℕ → Type 0
Allows null n = Unit
Allows priority n = n ≤ 32
Allows channel n = n ≤ 512

call-InRange : (b : Branch) (i n : ℕ) → Allows b n → i < n → VisitsInRange (call b i)
unfolding call
call-InRange null i n a h = tt
call-InRange priority i n a h = (omega arith, tt)
call-InRange channel i n a h = (omega arith, tt)

matched-InRange :
    (b : Branch) (kids : Trees) (i n : ℕ) (path : Option (List ℕ)) (below : List Visit)
    → Allows b n
    → i < n
    → VisitsInRange below
    → VisitsInRange (matched b kids i path below)
unfolding matched
matched-InRange b end i n none below a h w = call-InRange b i n a h
matched-InRange b end i n (some from) below a h w = tt
matched-InRange b (entry x c k r) i n none below a h w = call-InRange b i n a h
matched-InRange b (entry x c k r) i n (some from) below a h w =
    VisitsInRange-append (call b i) below (call-InRange b i n a h) w

module _ (pattern_match : List ℕ → List ℕ → Bool) where
  step-InRange :
      (test : Bool) (here later : List Visit)
      → VisitsInRange here
      → VisitsInRange later
      → VisitsInRange (if test then here ++ later else later)
  step-InRange true here later h l = VisitsInRange-append here later h l
  step-InRange false here later h l = l

  table-InRange :
      (b : Branch) (kids : Trees) (names : List String) (i n : ℕ) (from : List ℕ)
      → Allows b n
      → i + length names ≤ n
      → ((path : List ℕ) → VisitsInRange (walk pattern_match kids 0 path))
      → VisitsInRange (walk pattern_match (table b kids names) i from)
  unfolding walk
  table-InRange b kids [] i n from a h below = tt
  table-InRange b kids (name ∷ names) i n from a h below =
      step-InRange (pattern_match (segment from) (codes name)) _ _
        (matched-InRange b kids i n (after_slash from) _ a (omega arith) (below _))
        (table-InRange b kids names (i + 1) n from a (omega arith) below)

  tree_priority-InRange : (from : List ℕ) → VisitsInRange (walk pattern_match tree_priority 0 from)
  unfolding tree_priority
  tree_priority-InRange from =
      table-InRange priority end priority_names 0 32 from (omega arith) (omega arith)
        (λ path. unfold walk in tt)

  tree_channel-InRange : (from : List ℕ) → VisitsInRange (walk pattern_match tree_channel 0 from)
  unfolding tree_channel
  tree_channel-InRange from =
      table-InRange channel tree_priority channel_names 0 512 from (omega arith) (omega arith)
        tree_priority-InRange

  -- The indices of all calls of a walk over `tree_root` lie in their tables.
  pub tree_root-InRange : (from : List ℕ) → VisitsInRange (walk pattern_match tree_root 0 from)
  unfolding tree_root walk
  tree_root-InRange from =
      step-InRange (pattern_match (segment from) (codes "dmx")) _ _
        (matched-InRange null tree_channel 0 1 (after_slash from) _ tt (omega arith)
          (tree_channel-InRange _))
        tt

abbrev TargetsInRange : List Target → Type 0
TargetsInRange [] = Unit
TargetsInRange (t ∷ ts) = InRange t × TargetsInRange ts

targets-InRange :
    (vs : List Visit) (c : ℕ) → VisitsInRange vs → c < 512 → TargetsInRange (targets vs c)
unfolding targets
targets-InRange [] c v h = tt
targets-InRange (visit null i ∷ vs) c v h = targets-InRange vs c v.1 h
targets-InRange (visit channel i ∷ vs) c v h = targets-InRange vs (i % 2 ^ 16) v.1 (omega arith)
targets-InRange (visit priority i ∷ vs) c v h = ((h, omega arith), targets-InRange vs c v.1 h)

spread-InRange :
    (vs : List Value) (cur : Option ℕ) (ts : List Target)
    → TargetsInRange ts
    → AllInRange (spread vs cur ts)
unfolding spread
spread-InRange vs cur [] h = tt
spread-InRange [] cur (t ∷ ts) h = (h.0, spread-InRange [] cur ts h.1)
spread-InRange (v ∷ vs) cur (t ∷ ts) h = (h.0, spread-InRange vs _ ts h.1)

-- All assignments of a message lie in the grid.
pub spread-targets-InRange :
    (pattern_match : List ℕ → List ℕ → Bool) (from : List ℕ) (vs : List Value) (cur : Option ℕ)
    → AllInRange (spread vs cur (targets (walk pattern_match tree_root 0 from) 0))
spread-targets-InRange pattern_match from vs cur =
    spread-InRange vs cur _
      (targets-InRange _ 0 (tree_root-InRange pattern_match from) (omega arith))
