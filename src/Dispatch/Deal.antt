-- ===== src/Dispatch/Deal.antt =====
-- How values are dealt out: the value of the k-th target in closed form.
use osc2ftdidmx.Base.{
  ℕ, zero, suc, ◌%◌, ◌≡◌, ◌∙◌, ap, refl, Option, some, List, [], ◌∷◌, length, get_elem?, map,
  get_or,
}
use Prim.Native.Nat.{min}
use native.Mathlib.Nat.{min-zero, suc-min-suc, zero-min}
use osc2ftdidmx.Osc.Args.{Value, int32}
use osc2ftdidmx.Dispatch.Spec.{Target, next_value, spread}

-- The value of the target `k` when the integers `ns` are dealt out, from the value `cur` on: the
-- low byte of the k-th integer, or of the last one when there are fewer.
abbrev pub dealt : List ℕ → Option ℕ → ℕ → Option ℕ
dealt [] cur k = cur
dealt (n ∷ ns) cur k = some (get_or (n ∷ ns) (min k (length ns)) 0 % 256)

dealt-suc :
    (n : ℕ) (ns : List ℕ) (cur : Option ℕ) (k : ℕ)
    → dealt ns (some (n % 256)) k ≡ dealt (n ∷ ns) cur (suc k)
dealt-suc n [] cur k = rw min-zero
dealt-suc n (m ∷ ns) cur k = rw suc-min-suc

-- The k-th target gets the low byte of the k-th integer argument, or of the last one when there are
-- fewer; without arguments every target gets the value from before.
pub spread-dealt :
    (ns : List ℕ) (cur : Option ℕ) (ts : List Target) (k : ℕ) (t : Target)
    → get_elem? ts k ≡ some t
    → get_elem? (spread (map int32 ns) cur ts) k
      ≡ some (record { target = t; value = dealt ns cur k })
unfolding spread next_value
spread-dealt ns cur [] k t e = cc
spread-dealt [] cur (u ∷ ts) zero t e = cc
spread-dealt [] cur (u ∷ ts) (suc k) t e = spread-dealt [] cur ts k t e
spread-dealt (n ∷ ns) cur (u ∷ ts) zero t e = rw zero-min (cc)
spread-dealt (n ∷ ns) cur (u ∷ ts) (suc k) t e =
    spread-dealt ns (some (n % 256)) ts k t e
    ∙ ap (λ v. some (record { target = t; value = v })) (dealt-suc n ns cur k)

pub length-spread :
    (vs : List Value) (cur : Option ℕ) (ts : List Target) → length (spread vs cur ts) ≡ length ts
unfolding spread
length-spread vs cur [] = refl
length-spread [] cur (t ∷ ts) = ap suc (length-spread [] cur ts)
length-spread (v ∷ vs) cur (t ∷ ts) = ap suc (length-spread vs (next_value v cur) ts)
