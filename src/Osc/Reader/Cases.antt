-- ===== src/Osc/Reader/Cases.antt =====
-- `lv2_osc_reader_arg_raw` on the bytes of one argument, type by type.
use mathlib.Core.List.{append_assoc}
use osc2ftdidmx.Base.{
  ℕ, drop, ◌≤◌, ◌/◌, ◌+◌, ◌-◌, ◌%◌, ◌^◌, ◌<◌, ◌≡◌, ◌∙◌, sym, ap, refl, subst, true, false, some,
  List, [], ◌∷◌, ◌++◌, arith, length, length-append, length-replicate, replicate, ok, ◌==◌,
}
use osc2ftdidmx.Osc.Args.{Value, int32, other}
use osc2ftdidmx.Osc.Memory.{bytes_from, load8, strlen, padded_size, to_size}
use osc2ftdidmx.Osc.Reader.{
  Reader, moved, get_int32, get_float, get_blob, get_int64, get_double, get_timetag, get_midi,
  get_symbol, get_char, get_rgba,
}
use osc2ftdidmx.Osc.Reader.Args.{
  Arg, Stored, as_int, as_float, as_string, as_blob, as_int64, as_double, as_timetag, as_midi,
  as_symbol, as_char, as_rgba, raw_case,
}
use osc2ftdidmx.Osc.Reader.Ops.{int_of}
use osc2ftdidmx.Osc.Reader.Gets.{
  At, moved-At, overflow-At, here-At_append, get_be32-At, get_be64-At, get_string-At, strlen-At,
  bytes_from-ahead,
}
use osc2ftdidmx.Osc.Wire.{
  Four, int, float, char, midi, rgba, Eight, long, double, timetag, Text, string, symbol, Flag,
  yes_flag, no_flag, nil, impulse, Argument, four, eight, text, blob, flag, tag_of, word32, word64,
  padded, encode_arg, seen, ArgFits, NoZero,
}

-- An argument by its type and the bits of its member `i`.
abbrev pub value_from : ℕ → ℕ → Value
value_from kind bits = elim (kind == b'i') [ true ↦ int32 bits | false ↦ other ]

-- The argument is read, and the reader stands behind its bytes.
pub record ReadArg (w : Argument) (r : Reader) (a : Arg) (front tail : List ℕ) : Type 0 where
  pub after : Reader
  pub next : Arg
  pub returns : raw_case (tag_of w) r a ≡ ok (after, some next)
  pub rest : At after front tail
  pub same_memory : after.mem ≡ r.mem
  pub same_end : after.end ≡ r.end
  pub mem : next.mem ≡ a.mem
  pub type : next.type ≡ a.type
  pub path : next.path ≡ a.path
  pub end : next.end ≡ a.end
  pub sees : value_from (tag_of w) (int_of next.stored) ≡ seen w

module _ (r : Reader) (a : Arg) (front tail : List ℕ) where
  stores :
      (w : Argument) (xs : List ℕ) (n size : ℕ) (stored : Stored)
      → length xs ≡ n
      → At r (xs ++ front) tail
      → raw_case (tag_of w) r a ≡ ok (moved r n, some (record a { size = size; stored = stored }))
      → value_from (tag_of w) (int_of stored) ≡ seen w
      → ReadArg w r a front tail
  stores w xs n size stored l at returns sees = record {
    after = moved r n;
    next = record a { size = size; stored = stored };
    returns = returns;
    rest = moved-At r xs front tail n at l;
    same_memory = refl;
    same_end = refl;
    mem = refl;
    type = refl;
    path = refl;
    end = refl;
    sees = sees;
  }

  ahead :
      (xs ys : List ℕ) (n : ℕ)
      → length xs ≡ n
      → r.mem.base ≤ r.ptr
      → drop (r.ptr - r.mem.base) r.mem.bytes ≡ xs ++ ys
      → bytes_from r.mem (r.ptr + n) ≡ ys
  ahead xs ys n l low bytes =
      ap (λ k. bytes_from r.mem (r.ptr + k)) (sym l) ∙ bytes_from-ahead r.mem r.ptr xs ys low bytes

  get_rgba-At :
      (u : ℕ)
      → At r (word32 u ++ front) tail
      → get_rgba r ≡ ok (moved r 4, some (u / 2 ^ 24, u / 2 ^ 16 % 256, u / 2 ^ 8 % 256, u % 256))
  unfolding get_rgba load8
  get_rgba-At u at =
      rw
        (
          overflow-At r (word32 u) front tail 4 at refl,
          here-At_append r (word32 u) front tail 4 at refl,
          ahead (u / 2 ^ 24 ∷ []) _ 1 refl at.low at.bytes,
          ahead (u / 2 ^ 24 ∷ u / 2 ^ 16 % 256 ∷ []) _ 2 refl at.low at.bytes,
          ahead (u / 2 ^ 24 ∷ u / 2 ^ 16 % 256 ∷ u / 2 ^ 8 % 256 ∷ []) _ 3 refl at.low at.bytes,
        )
        refl

  four_lem :
      (k : Four) (u : ℕ)
      → u < 2 ^ 32
      → At r (word32 u ++ front) tail
      → ReadArg (four k u) r a front tail
  unfolding raw_case get_int32 get_float get_char get_midi
  four_lem int u h at =
      stores (four int u) (word32 u) 4 4 (as_int u) refl at
        (rw (get_be32-At r u front tail at h) refl) refl
  four_lem float u h at =
      stores (four float u) (word32 u) 4 4 (as_float u) refl at
        (rw (get_be32-At r u front tail at h) refl) refl
  four_lem char u h at =
      stores (four char u) (word32 u) 4 4 (as_char (u % 2 ^ 8)) refl at
        (rw (get_be32-At r u front tail at h) refl) refl
  four_lem midi u h at =
      stores (four midi u) (word32 u) 4 4 (as_midi r.ptr) refl at
        (rw (overflow-At r (word32 u) front tail 4 at refl) refl) refl
  four_lem rgba u h at =
      stores (four rgba u) (word32 u) 4 4
        (as_rgba (u / 2 ^ 24, u / 2 ^ 16 % 256, u / 2 ^ 8 % 256, u % 256)) refl at
        (rw (get_rgba-At u at) refl) refl

  eight_lem :
      (k : Eight) (u : ℕ)
      → u < 2 ^ 64
      → At r (word64 u ++ front) tail
      → ReadArg (eight k u) r a front tail
  unfolding raw_case get_int64 get_double get_timetag
  eight_lem long u h at =
      stores (eight long u) (word64 u) 8 8 (as_int64 u) refl at
        (rw (get_be64-At r u front tail at h) refl) refl
  eight_lem double u h at =
      stores (eight double u) (word64 u) 8 8 (as_double u) refl at
        (rw (get_be64-At r u front tail at h) refl) refl
  eight_lem timetag u h at =
      stores (eight timetag u) (word64 u) 8 8 (as_timetag u) refl at
        (rw (get_be64-At r u front tail at h) refl) refl

  unread :
      (w : Argument)
      → At r front tail
      → raw_case (tag_of w) r a ≡ ok (r, some a)
      → value_from (tag_of w) (int_of a.stored) ≡ seen w
      → ReadArg w r a front tail
  unread w at returns sees = record {
    after = r;
    next = a;
    returns = returns;
    rest = at;
    same_memory = refl;
    same_end = refl;
    mem = refl;
    type = refl;
    path = refl;
    end = refl;
    sees = sees;
  }

  flag_lem : (k : Flag) → At r front tail → ReadArg (flag k) r a front tail
  unfolding raw_case
  flag_lem yes_flag at = unread (flag yes_flag) at refl refl
  flag_lem no_flag at = unread (flag no_flag) at refl refl
  flag_lem nil at = unread (flag nil) at refl refl
  flag_lem impulse at = unread (flag impulse) at refl refl

  text_lem :
      (k : Text) (s : List ℕ)
      → NoZero s
      → a.mem ≡ r.mem
      → At r (padded s ++ front) tail
      → ReadArg (text k s) r a front tail
  unfolding raw_case get_symbol
  text_lem k s h same at =
      let size : ℕ = (length s + 1) % 2 ^ 32 in
      let found : strlen (bytes_from a.mem r.ptr) ≡ ok (length s) =
        ap (λ m. strlen (bytes_from m r.ptr)) same ∙ strlen-At r s front tail at h in
      elim k as (λ k. ReadArg (text k s) r a front tail) [
        | string ↦
            stores (text string s) (padded s) (length (padded s)) size (as_string r.ptr) refl at
              (rw (get_string-At r s front tail at h, found) refl) refl
        | symbol ↦
            stores (text symbol s) (padded s) (length (padded s)) size (as_symbol r.ptr) refl at
              (rw (get_string-At r s front tail at h, found) refl) refl
      ]

  -- The bytes of a blob with what pads them.
  abbrev blob_body : List ℕ → List ℕ
  blob_body bytes = bytes ++ replicate ((4 - length bytes % 4) % 4) 0

  length-blob_body :
      (bytes : List ℕ)
      → length bytes < 2 ^ 31
      → padded_size (to_size (length bytes)) ≡ length (blob_body bytes)
  unfolding padded_size to_size
  length-blob_body bytes h = ground (
    arith,
    length-append bytes (replicate ((4 - length bytes % 4) % 4) 0),
    length-replicate {A = ℕ} ((4 - length bytes % 4) % 4) 0,
  )

  blob_lem :
      (bytes : List ℕ)
      → length bytes < 2 ^ 31
      → At r (encode_arg (blob bytes) ++ front) tail
      → ReadArg (blob bytes) r a front tail
  unfolding raw_case get_blob get_int32
  blob_lem bytes h at =
      let body : List ℕ = blob_body bytes in
      let at_len : At r (word32 (length bytes) ++ (body ++ front)) tail =
        subst (λ xs. At r xs tail) (append_assoc (word32 (length bytes)) body front) at in
      let at_body : At (moved r 4) (body ++ front) tail =
        moved-At r (word32 (length bytes)) (body ++ front) tail 4 at_len refl in
      let size = length-blob_body bytes h in
      let q : Reader = moved (moved r 4) (length body) in
      record {
        after = q;
        next = record a { size = length bytes; stored = as_blob (moved r 4).ptr };
        returns =
            rw
              (
                get_be32-At r (length bytes) (body ++ front) tail at_len (omega arith),
                size,
                overflow-At (moved r 4) body front tail (length body) at_body refl,
              )
              refl;
        rest = moved-At (moved r 4) body front tail (length body) at_body refl;
        same_memory = refl;
        same_end = refl;
        mem = refl;
        type = refl;
        path = refl;
        end = refl;
        sees = refl;
      }

  -- An argument that fits is read as what it is, whatever lies behind it.
  pub raw_case_lem :
      (w : Argument)
      → ArgFits w
      → a.mem ≡ r.mem
      → At r (encode_arg w ++ front) tail
      → ReadArg w r a front tail
  raw_case_lem (four k u) h same at = four_lem k u h at
  raw_case_lem (eight k u) h same at = eight_lem k u h at
  raw_case_lem (text k s) h same at = text_lem k s h same at
  raw_case_lem (blob bytes) h same at = blob_lem bytes h at
  raw_case_lem (flag k) h same at = flag_lem k at
