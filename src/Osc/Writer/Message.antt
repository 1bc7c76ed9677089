-- ===== src/Osc/Writer/Message.antt =====
-- Messages: the writer puts the bytes that the format of OSC 1.0 asks for.
use mathlib.Core.List.{append-nil}
use osc2ftdidmx.Base.{
  ℕ, ◌^◌, ◌<◌, ◌≡◌, inl, sym, subst, refl, true, false, List, [], ◌∷◌, ◌++◌, arith, map, length,
  length-map, ok, ◌==◌,
}
use osc2ftdidmx.Osc.Wire.{Argument, tag_of, padded, encode_arg, encode_args, encode_message, NoZero}
use osc2ftdidmx.Osc.Writer.{Writer}
use osc2ftdidmx.Osc.Writer.Space.{Space, Wrote, and_put-Wrote}
use osc2ftdidmx.Osc.Writer.Strings.{add_string-Wrote}
use osc2ftdidmx.Osc.Writer.Format.{add_format-Wrote}
use osc2ftdidmx.Osc.Writer.Args.{Passed, arg_varlist, message_varlist}
use osc2ftdidmx.Osc.Writer.Cases.{passed, Writable, put_case-Wrote}
use osc2ftdidmx.Osc.Reader.Message.{tags-NoZero, tag_of-ne_zero}

abbrev pub passed_all : (ℕ → ℕ) → List Argument → List Passed
passed_all widen [] = []
passed_all widen (a ∷ args) = passed widen a ++ passed_all widen args

abbrev pub AllWritable : (ℕ → ℕ) → (ℕ → ℕ) → List Argument → Type 0
AllWritable narrow widen [] = Unit
AllWritable narrow widen (a ∷ args) = Writable narrow widen a × AllWritable narrow widen args

-- The types of the arguments, with the null byte behind them.
abbrev pub format : List Argument → List ℕ
format args = map tag_of args ++ (0 ∷ [])

tag_of_some : (a : Argument) → (tag_of a == 0) ≡ false
tag_of_some a = ground (arith, tag_of-ne_zero a)

nothing-Wrote :
    (w : Writer) (done free beyond : List ℕ)
    → Space w done free beyond
    → 0 < length free
    → Wrote done free beyond [] (ok (w, true))
nothing-Wrote w done free beyond space some_left = (
  w,
  true,
  [],
  free,
  refl,
  subst (λ d. Space w d free beyond) (sym (append-nil done)) space,
  omega arith,
  inl (refl, refl, some_left),
)

module _ (narrow widen : ℕ → ℕ) (beyond : List ℕ) where
  pub arg_varlist-Wrote :
      (args : List Argument) (w : Writer) (done free : List ℕ)
      → Space w done free beyond
      → 0 < length free
      → AllWritable narrow widen args
      → Wrote done free beyond
          (encode_args args)
          (arg_varlist narrow (format args) (passed_all widen args) w)
  unfolding arg_varlist
  arg_varlist-Wrote [] w done free space some_left fits =
      nothing-Wrote w done free beyond space some_left
  arg_varlist-Wrote (a ∷ args) w done free space some_left fits = rw (tag_of_some a) (
      put_case-Wrote narrow widen w done free beyond space (passed_all widen args)
        (encode_args args) (arg_varlist narrow (format args)) some_left a fits.0
        (λ v left there more.
          arg_varlist-Wrote args v (done ++ encode_arg a) left there more fits.1))

  pub message_varlist-Wrote :
      (path more : List ℕ) (args : List Argument) (w : Writer) (done free : List ℕ)
      → Space w done free beyond
      → NoZero path
      → length path < 2 ^ 62
      → length args < 2 ^ 61
      → AllWritable narrow widen args
      → Wrote done free beyond
          (encode_message path args)
          (message_varlist narrow w (path ++ (0 ∷ more)) (format args) (passed_all widen args))
  unfolding message_varlist
  message_varlist-Wrote path more args w done free space clean short few fits =
      and_put-Wrote done free beyond (padded path)
        (padded (b',' ∷ map tag_of args) ++ encode_args args) _ _
        (add_string-Wrote w done free beyond space path more short clean)
        (λ v left there some.
          and_put-Wrote (done ++ padded path) left beyond (padded (b',' ∷ map tag_of args))
            (encode_args args) _ _
            (add_format-Wrote v (done ++ padded path) left beyond there (map tag_of args) []
              (omega (arith, few, length-map args tag_of)) (tags-NoZero args))
            (λ u rest here some_rest.
              arg_varlist-Wrote args u ((done ++ padded path) ++ padded (b',' ∷ map tag_of args))
                rest here some_rest fits))
