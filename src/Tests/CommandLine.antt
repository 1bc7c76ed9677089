-- ===== src/Tests/CommandLine.antt =====
-- The theorems on the command line at concrete options.
use osc2ftdidmx.Base.{
  ℕ, zero, suc, ◌+◌, ◌*◌, ◌-◌, ◌==◌, if◌then◌else◌, ◌≡◌, refl, Bool, true, List, [], ◌∷◌, codes, ℤ,
  pos, negsuc, ltb, ◌&&◌,
}
use osc2ftdidmx.Options.{
  Opt, debug, fps, vid, inp, Settings, defaults, settings, parse_options, option, parse, then_parse,
  to_unsigned, to_int,
}
use osc2ftdidmx.Options.Last.{FromLast, parse_options-FromLast}

-- A `strtol` for digits below the base, of which letters have the values 10 and up.
abbrev digit_value : ℕ → ℕ
digit_value c = if ltb c b'a' then c - b'0' else c - b'a' + 10

abbrev digits : List ℕ → ℕ → ℕ → ℕ
digits [] base acc = acc
digits (c ∷ cs) base acc = digits cs base (acc * base + digit_value c)

abbrev negate : ℕ → ℤ
negate zero = pos 0
negate (suc n) = negsuc n

abbrev strtol : List ℕ → ℕ → ℤ
strtol [] base = pos 0
strtol (c ∷ cs) base = if c == b'-' then negate (digits cs base 0) else pos (digits (c ∷ cs) base 0)

abbrev isprint : ℕ → Bool
isprint c = ltb 31 c && ltb c 127

abbrev opts : List Opt
opts = fps (codes "40") ∷ debug ∷ vid (codes "ffff") ∷ fps (codes "25") ∷ inp (codes "-1") ∷ []

abbrev result : Settings
result = record defaults { fps = 25; verbose = true; vid = 0xffff; inp = negsuc 0 }

parses : parse_options strtol isprint opts ≡ settings result
unfolding parse_options parse option then_parse to_unsigned to_int defaults
parses = refl

parse_options-FromLast_example : FromLast strtol isprint opts defaults result
parse_options-FromLast_example = parse_options-FromLast strtol isprint opts result parses
