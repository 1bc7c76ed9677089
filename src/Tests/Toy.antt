-- ===== src/Tests/Toy.antt =====
-- A small packet format to run the program with: '/' begins a message, whose one argument is the
-- length of the packet, and '#' begins a bundle of one item, with the time tag 1. Patterns match
-- literally.
use osc2ftdidmx.Base.{
  ℕ, zero, suc, ◌<◌, ◌≡◌, refl, sym, ap, Bool, true, false, none, some, List, [], ◌∷◌, ◌∙◌, arith,
  ◌==◌, ◌&&◌, length, get_elem?, replicate,
}
use osc2ftdidmx.Slot.{Slot}
use osc2ftdidmx.Slot.Inv.{empty, empty-IsValid}
use osc2ftdidmx.Osc.Args.{ArgOps, Value, int32, other}
use osc2ftdidmx.Dispatch.{State}
use osc2ftdidmx.Dispatch.Refine.{Reads}
use osc2ftdidmx.Dispatch.Grid.{GridValid}
use osc2ftdidmx.Dispatch.Names.{IsLiteral, decimal}
use osc2ftdidmx.Packet.{Item, PacketOps}

pub record Toy : Type 0 where
  pub path : List ℕ
  pub values : List Value

abbrev pub same : List ℕ → List ℕ → Bool
same [] [] = true
same [] (y ∷ ys) = false
same (x ∷ xs) [] = false
same (x ∷ xs) (y ∷ ys) = (x == y) && same xs ys

abbrev pub is_nil : List Value → Bool
is_nil [] = true
is_nil (v ∷ vs) = false

abbrev pub type_of : List Value → ℕ
type_of [] = 0
type_of (int32 n ∷ vs) = b'i'
type_of (other ∷ vs) = b's'

abbrev pub int_of : List Value → ℕ
int_of [] = 0
int_of (int32 n ∷ vs) = n
int_of (other ∷ vs) = 0

abbrev pub tail : List Value → List Value
tail [] = []
tail (v ∷ vs) = vs

abbrev pub arg_ops : ArgOps Toy Toy
arg_ops = record {
  arg_is_end = λ r a. is_nil a.values;
  arg_type = λ a. type_of a.values;
  arg_int = λ a. int_of a.values;
  arg_path = λ a. a.path;
  arg_next = λ r a. (r, some (record a { values = tail a.values }));
  message_begin = λ r len. (r, some r);
}

abbrev pub starts_with : ℕ → List ℕ → Bool
starts_with c [] = false
starts_with c (b ∷ bs) = b == c

abbrev pub items : List ℕ → List Item
items [] = []
items (b ∷ bs) = record { timetag = 1; size = length bs; body = bs } ∷ []

abbrev pub packet_ops : PacketOps Toy Toy
packet_ops = record {
  args = arg_ops;
  initialize = λ buf len. record { path = buf; values = int32 len ∷ [] };
  is_bundle = λ r. starts_with b'#' r.path;
  is_message = λ r. starts_with b'/' r.path;
  bundle_items = λ r len. items r.path;
  pattern_match = same;
  malloc_ok = λ n size. true;
}

pub reads :
    (r : Toy) (path : List ℕ) (vs : List Value)
    → Reads arg_ops r (some (record { path = path; values = vs })) vs
reads r path [] = refl
reads r path (int32 n ∷ vs) =
    (record { path = path; values = int32 n ∷ vs }, refl, refl, refl, reads r path vs)
reads r path (other ∷ vs) =
    (record { path = path; values = other ∷ vs }, refl, refl, refl, reads r path vs)

same_refl : (xs : List ℕ) → same xs xs ≡ true
same_refl [] = refl
same_refl (x ∷ xs) = ground (arith, same_refl xs)

same-eq : (xs ys : List ℕ) → same xs ys ≡ true → xs ≡ ys
same-eq [] [] e = refl
same-eq [] (y ∷ ys) e = cc
same-eq (x ∷ xs) [] e = cc
same-eq (x ∷ xs) (y ∷ ys) e = ground (arith, same-eq xs ys)

pub same-IsLiteral : IsLiteral same
same-IsLiteral =
    (λ m n h k. (same-eq _ _, λ e. ap (same (decimal m)) (sym e) ∙ same_refl (decimal m)), refl)

abbrev pub no_slots : List Slot
no_slots = replicate 512 empty

get_elem?-replicate : (n c : ℕ) (s : Slot) → c < n → get_elem? (replicate n s) c ≡ some s
get_elem?-replicate zero c s h = absurd (omega arith)
get_elem?-replicate (suc n) zero s h = refl
get_elem?-replicate (suc n) (suc c) s h = get_elem?-replicate n c s (omega arith)

pub no_slots-GridValid : GridValid no_slots
no_slots-GridValid = record {
  sized = refl;
  each = λ c h. (empty, get_elem?-replicate 512 c empty h, empty-IsValid);
}

abbrev pub start : State Toy Toy
start = record {
  cur_channel = 0;
  cur_value = 0;
  cur_set = false;
  cur_reader = record { path = []; values = [] };
  cur_arg = none;
  slots = no_slots;
}
