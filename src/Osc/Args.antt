-- ===== src/Osc/Args.antt =====
-- What the program calls of the argument reader of osc.lv2/osc.lv2/reader.h, as an interface:
-- a reader `R`, an argument record `A`, and the functions on them.
use osc2ftdidmx.Base.{ℕ, Bool, true, false, Option, List, ◌==◌}

-- `lv2_osc_reader_arg_is_end`, the fields `type[0]`, `i` (the bits of the `int32_t`) and `path`
-- of an argument, `lv2_osc_reader_arg_next` and `OSC_READER_MESSAGE_BEGIN`. The last two move the
-- reader, and may return a null pointer (`none`).
pub record ArgOps (R A : Type 0) : Type 0 where
  pub arg_is_end : R → A → Bool
  pub arg_type : A → ℕ
  pub arg_int : A → ℕ
  pub arg_path : A → List ℕ
  pub arg_next : R → A → R × Option A
  pub message_begin : R → ℕ → R × Option A

-- An argument as the program sees it: the bits of an `int32_t`, or one of another type.
pub data Value : Type 0 where
  int32 : ℕ → Value
  other : Value

-- The value at the argument: an argument is an `int32_t` when its type is 'i'.
abbrev pub value_of : {R A : Type 0} → ArgOps R A → A → Value
value_of o a = elim (o.arg_type a == b'i') [ true ↦ int32 (o.arg_int a) | false ↦ other ]
