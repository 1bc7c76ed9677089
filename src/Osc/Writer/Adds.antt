-- ===== src/Osc/Writer/Adds.antt =====
-- Each function of the writer puts the bytes that the format asks for.
use osc2ftdidmx.Base.{ℕ, ◌/◌, ◌%◌, ◌^◌, ◌<◌, ◌≡◌, ap, refl, List, [], ◌∷◌, arith}
use osc2ftdidmx.Osc.Wire.{word32}
use osc2ftdidmx.Osc.Writer.{Writer, be32, be64, put_be32, put_be64, add_rgba}
use osc2ftdidmx.Osc.Writer.Space.{Space, Wrote, checked-Wrote, store_at-ptr}

pub be32-word32 : (u : ℕ) → u < 2 ^ 32 → be32 u ≡ word32 u
be32-word32 u h =
    let top : u / 2 ^ 24 % 256 ≡ u / 2 ^ 24 = omega (arith, h) in
    ap (λ t. t ∷ u / 2 ^ 16 % 256 ∷ u / 2 ^ 8 % 256 ∷ u % 256 ∷ []) top

module _ (w : Writer) (done free beyond : List ℕ) (space : Space w done free beyond) where
  pub put_be32-Wrote : (u : ℕ) → Wrote done free beyond (be32 u) (put_be32 w u)
  unfolding put_be32
  put_be32-Wrote u =
      checked-Wrote w done free beyond space 4 (be32 u) _ refl (omega arith)
        (λ less. rw (store_at-ptr w done free beyond space (be32 u) less) refl)

  pub put_be64-Wrote : (u : ℕ) → Wrote done free beyond (be64 u) (put_be64 w u)
  unfolding put_be64
  put_be64-Wrote u =
      checked-Wrote w done free beyond space 8 (be64 u) _ refl (omega arith)
        (λ less. rw (store_at-ptr w done free beyond space (be64 u) less) refl)

  pub add_rgba-Wrote :
      (r g b a : ℕ) → Wrote done free beyond (r ∷ g ∷ b ∷ a ∷ []) (add_rgba w r g b a)
  unfolding add_rgba
  add_rgba-Wrote r g b a =
      checked-Wrote w done free beyond space 4 (r ∷ g ∷ b ∷ a ∷ []) _ refl (omega arith)
        (λ less. rw (store_at-ptr w done free beyond space (r ∷ g ∷ b ∷ a ∷ []) less) refl)
