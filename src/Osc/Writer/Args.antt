-- ===== src/Osc/Writer/Args.antt =====
-- `lv2_osc_writer_arg_varlist` and `lv2_osc_writer_message_varlist`.
use osc2ftdidmx.Base.{ℕ, ◌%◌, true, List, [], ◌∷◌, ◌==◌, if◌then◌else◌, ok, fault}
use osc2ftdidmx.Osc.Writer.{
  Writer, Put, and_put, add_int32, add_float, add_string, add_blob, add_int64, add_double,
  add_timetag, add_midi, add_symbol, add_char, add_rgba, add_path, add_format,
}

-- What is passed for a `va_list`: an `int` or `unsigned`, an integer of 64 bits, a `double`, each by its bits,
-- or a pointer, by the bytes that it points to.
pub data Passed : Type 0 where
  word : ℕ → Passed
  wide : ℕ → Passed
  real : ℕ → Passed
  pointer : List ℕ → Passed

-- `va_arg`: it goes on with the value and with what is passed behind it.
abbrev pub va_word : List Passed → (ℕ → List Passed → Put) → Put
va_word (word u ∷ args) k = k u args
va_word _ k = fault

abbrev pub va_long : List Passed → (ℕ → List Passed → Put) → Put
va_long (wide u ∷ args) k = k u args
va_long _ k = fault

abbrev pub va_real : List Passed → (ℕ → List Passed → Put) → Put
va_real (real u ∷ args) k = k u args
va_real _ k = fault

abbrev pub va_pointer : List Passed → (List ℕ → List Passed → Put) → Put
va_pointer (pointer bytes ∷ args) k = k bytes args
va_pointer _ k = fault

abbrev pub va_rgba : List Passed → (ℕ → ℕ → ℕ → ℕ → List Passed → Put) → Put
va_rgba args k = va_word args (λ r bs. va_word bs (λ g cs.
    va_word cs (λ b ds. va_word ds (λ a es. k (r % 256) (g % 256) (b % 256) (a % 256) es))))

-- The `switch` for one type, where `narrow` casts the bits of a `double` to those of a `float` and `next` is the
-- rest of the loop.
unfoldable pub put_case : (ℕ → ℕ) → ℕ → List Passed → Writer → (List Passed → Writer → Put) → Put
put_case narrow type args w next =
    if type == b'i'
    then va_word args (λ i rest. and_put (add_int32 w i) (next rest))
    else if type == b'f'
    then va_real args (λ f rest. and_put (add_float w (narrow f)) (next rest))
    else if type == b's'
    then va_pointer args (λ s rest. and_put (add_string w s) (next rest))
    else if type == b'b'
    then va_word args
        (λ len more. va_pointer more (λ body rest. and_put (add_blob w len body) (next rest)))
    else if type == b'h'
    then va_long args (λ h rest. and_put (add_int64 w h) (next rest))
    else if type == b'd'
    then va_real args (λ d rest. and_put (add_double w d) (next rest))
    else if type == b't'
    then va_long args (λ t rest. and_put (add_timetag w t) (next rest))
    else if type == b'm'
    then va_word args
        (λ len more. va_pointer more (λ m rest. and_put (add_midi w len m) (next rest)))
    else if type == b'S'
    then va_pointer args (λ s rest. and_put (add_symbol w s) (next rest))
    else if type == b'c'
    then va_word args (λ c rest. and_put (add_char w (c % 256)) (next rest))
    else if type == b'r'
    then va_rgba args (λ r g b a rest. and_put (add_rgba w r g b a) (next rest))
    else next args w

unfoldable pub arg_varlist : (ℕ → ℕ) → List ℕ → List Passed → Writer → Put
unfolding put_case
arg_varlist narrow [] args w = fault
arg_varlist narrow (type ∷ fmt) args w =
    let rest = put_case narrow type args w (arg_varlist narrow fmt) in
    if type == 0 then ok (w, true) else rest

unfoldable pub message_varlist : (ℕ → ℕ) → Writer → List ℕ → List ℕ → List Passed → Put
unfolding add_string add_format arg_varlist
message_varlist narrow w path fmt args =
    and_put (add_path w path) (λ v. and_put (add_format v fmt) (arg_varlist narrow fmt args))
