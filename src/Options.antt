-- ===== src/Options.antt =====
-- The command line of `main`: the settings of `app_t`, and the loop over `getopt`. What `getopt`
-- returns is a list of options with their arguments; `strtol` is a parameter.
pub mod Last
use osc2ftdidmx.Base.{
  ℕ, ◌+◌, ◌-◌, ◌*◌, ◌%◌, ◌^◌, Bool, true, false, Option, none, some, List, [], ◌∷◌, ◌==◌, ◌||◌, ltb,
  if◌then◌else◌, codes, ℤ, pos, negsuc,
}

-- A value that `getopt` returns: an option of the string "vhdAV:P:D:S:F:U:I:O:", with `optarg` where
-- it takes one; '?' with `optopt`; or another value.
pub data Opt : Type 0 where
  version usage debug auto_reconnect : Opt
  vid pid des sid fps url inp out : List ℕ → Opt
  unknown : ℕ → Opt
  unexpected : Opt

-- The fields of `app_t` that options set, `logp == LOG_DEBUG`, and `reconnect`.
pub record Settings : Type 0 where
  pub vid : ℕ
  pub pid : ℕ
  pub des : Option (List ℕ)
  pub sid : Option (List ℕ)
  pub fps : ℕ
  pub url : List ℕ
  pub inp : ℤ
  pub out : ℤ
  pub verbose : Bool
  pub reconnect : Bool

abbrev pub ftdi_vid : ℕ
ftdi_vid = 0x0403

abbrev pub ft232_pid : ℕ
ft232_pid = 0x6001

unfoldable pub defaults : Settings
defaults = record {
  vid = ftdi_vid;
  pid = ft232_pid;
  des = none;
  sid = none;
  fps = 30;
  url = codes "osc.udp://:6666";
  inp = pos 0;
  out = pos 0;
  verbose = false;
  reconnect = false;
}

-- The casts of a `long` to an unsigned type of `w` bits, and to `int`.
unfoldable pub to_unsigned : ℕ → ℤ → ℕ
to_unsigned w (pos n) = n % 2 ^ w
to_unsigned w (negsuc n) = 2 ^ w - 1 - n % 2 ^ w

unfoldable pub to_int : ℤ → ℤ
unfolding to_unsigned
to_int z = let u = to_unsigned 32 z in if ltb u (2 ^ 31) then pos u else negsuc (2 ^ 32 - u - 1)

-- What is printed before `main` returns.
pub data Message : Type 0 where
  version_text usage_text nothing : Message
  requires_argument unknown_option unknown_character : ℕ → Message

pub data Parsed : Type 0 where
  settings : Settings → Parsed
  exit : ℤ → Message → Parsed

-- The options that take an argument.
unfoldable pub takes_argument : ℕ → Bool
takes_argument c =
    c == b'V'
    || (c == b'P'
        || (c == b'D' || (c == b'S' || (c == b'F' || (c == b'U' || (c == b'I' || c == b'O'))))))

module _ (strtol : List ℕ → ℕ → ℤ) (isprint : ℕ → Bool) where
  unfoldable pub complaint : ℕ → Message
  unfolding takes_argument
  complaint c =
      if takes_argument c
      then requires_argument c
      else (if isprint c then unknown_option c else unknown_character c)

  -- One round of the loop.
  unfoldable pub option : Opt → Settings → Parsed
  unfolding to_unsigned to_int complaint
  option version s = exit (pos 0) version_text
  option usage s = exit (pos 0) usage_text
  option debug s = settings (record s { verbose = true })
  option auto_reconnect s = settings (record s { reconnect = true })
  option (vid arg) s = settings (record s { vid = to_unsigned 16 (strtol arg 16) })
  option (pid arg) s = settings (record s { pid = to_unsigned 16 (strtol arg 16) })
  option (des arg) s = settings (record s { des = some arg })
  option (sid arg) s = settings (record s { sid = some arg })
  option (fps arg) s = settings (record s { fps = to_unsigned 32 (strtol arg 10) })
  option (url arg) s = settings (record s { url = arg })
  option (inp arg) s = settings (record s { inp = to_int (strtol arg 10) })
  option (out arg) s = settings (record s { out = to_int (strtol arg 10) })
  option (unknown c) s = exit (negsuc 0) (complaint c)
  option unexpected s = exit (negsuc 0) nothing

  unfoldable pub then_parse : Parsed → (Settings → Parsed) → Parsed
  then_parse (settings s) k = k s
  then_parse (exit r m) k = exit r m

  unfoldable pub parse : List Opt → Settings → Parsed
  unfolding option then_parse
  parse [] s = settings s
  parse (o ∷ opts) s = then_parse (option o s) (parse opts)

  -- `main` up to the handlers of the signals.
  unfoldable pub parse_options : List Opt → Parsed
  unfolding parse defaults
  parse_options opts = parse opts defaults
