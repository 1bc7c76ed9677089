-- ===== src/Options/Last.antt =====
-- Which option a setting comes from, and where the loop over the options stops.
use osc2ftdidmx.Base.{
  ℕ, ◌≡◌, ◌∙◌, ap, refl, Bool, true, Option, none, some, List, [], ◌∷◌, arith, ℤ,
}
use osc2ftdidmx.Options.{
  Opt, version, debug, auto_reconnect, vid, pid, des, sid, fps, url, inp, out, Settings, defaults,
  to_unsigned, to_int, settings, option, parse, parse_options, Parsed, exit, then_parse,
}

module _ (strtol : List ℕ → ℕ → ℤ) (isprint : ℕ → Bool) where
  then_parse-settings :
      (p : Parsed) (k : Settings → Parsed) {t : Settings}
      → then_parse strtol isprint p k ≡ settings t
      → (u : Settings) × (p ≡ settings u) × (k u ≡ settings t)
  unfolding then_parse
  then_parse-settings (settings u) k e = (u, refl, e)
  then_parse-settings (exit r m) k e = cc

-- The value of the last option that gives one, and `d` where none does.
abbrev pub last {ℓ} : {A : Type ℓ} → (Opt → Option A) → List Opt → A → A
last f [] d = d
last f (o ∷ opts) d = last f opts (elim (f o) [ none ↦ d | some a ↦ a ])

module _ (strtol : List ℕ → ℕ → ℤ) where
  -- The values that an option gives.
  abbrev pub vid_of : Opt → Option ℕ
  vid_of (vid arg) = some (to_unsigned 16 (strtol arg 16))
  vid_of _ = none

  abbrev pub pid_of : Opt → Option ℕ
  pid_of (pid arg) = some (to_unsigned 16 (strtol arg 16))
  pid_of _ = none

  abbrev pub fps_of : Opt → Option ℕ
  fps_of (fps arg) = some (to_unsigned 32 (strtol arg 10))
  fps_of _ = none

  abbrev pub inp_of : Opt → Option ℤ
  inp_of (inp arg) = some (to_int (strtol arg 10))
  inp_of _ = none

  abbrev pub out_of : Opt → Option ℤ
  out_of (out arg) = some (to_int (strtol arg 10))
  out_of _ = none

abbrev pub des_of : Opt → Option (Option (List ℕ))
des_of (des arg) = some (some arg)
des_of _ = none

abbrev pub sid_of : Opt → Option (Option (List ℕ))
sid_of (sid arg) = some (some arg)
sid_of _ = none

abbrev pub url_of : Opt → Option (List ℕ)
url_of (url arg) = some arg
url_of _ = none

abbrev pub verbose_of : Opt → Option Bool
verbose_of debug = some true
verbose_of _ = none

abbrev pub reconnect_of : Opt → Option Bool
reconnect_of auto_reconnect = some true
reconnect_of _ = none

module _ (strtol : List ℕ → ℕ → ℤ) (isprint : ℕ → Bool) where
  -- Each setting of `t` is that of the last of the options, or that of `s`.
  pub record FromLast (opts : List Opt) (s t : Settings) : Type 0 where
    pub last_vid : t.vid ≡ last (vid_of strtol) opts s.vid
    pub last_pid : t.pid ≡ last (pid_of strtol) opts s.pid
    pub last_des : t.des ≡ last des_of opts s.des
    pub last_sid : t.sid ≡ last sid_of opts s.sid
    pub last_fps : t.fps ≡ last (fps_of strtol) opts s.fps
    pub last_url : t.url ≡ last url_of opts s.url
    pub last_inp : t.inp ≡ last (inp_of strtol) opts s.inp
    pub last_out : t.out ≡ last (out_of strtol) opts s.out
    pub last_verbose : t.verbose ≡ last verbose_of opts s.verbose
    pub last_reconnect : t.reconnect ≡ last reconnect_of opts s.reconnect

  option-FromLast :
      (o : Opt) (s : Settings) {t : Settings}
      → option strtol isprint o s ≡ settings t
      → FromLast (o ∷ []) s t
  unfolding option
  option-FromLast version s e = cc
  option-FromLast _ s e = ground arith

  parse-FromLast :
      (opts : List Opt) (s : Settings) {t : Settings}
      → parse strtol isprint opts s ≡ settings t
      → FromLast opts s t
  unfolding parse
  parse-FromLast [] s e = ground arith
  parse-FromLast (o ∷ opts) s e =
      let (u, here, rest) = then_parse-settings strtol isprint (option strtol isprint o s) _ e in
      let one : FromLast (o ∷ []) s u = option-FromLast o s here in
      let more = parse-FromLast opts u rest in
      record {
        last_vid = more.last_vid ∙ ap (last (vid_of strtol) opts) one.last_vid;
        last_pid = more.last_pid ∙ ap (last (pid_of strtol) opts) one.last_pid;
        last_des = more.last_des ∙ ap (last des_of opts) one.last_des;
        last_sid = more.last_sid ∙ ap (last sid_of opts) one.last_sid;
        last_fps = more.last_fps ∙ ap (last (fps_of strtol) opts) one.last_fps;
        last_url = more.last_url ∙ ap (last url_of opts) one.last_url;
        last_inp = more.last_inp ∙ ap (last (inp_of strtol) opts) one.last_inp;
        last_out = more.last_out ∙ ap (last (out_of strtol) opts) one.last_out;
        last_verbose = more.last_verbose ∙ ap (last verbose_of opts) one.last_verbose;
        last_reconnect = more.last_reconnect ∙ ap (last reconnect_of opts) one.last_reconnect;
      }

  -- Where the options make no exit, each setting is that of the last option that gives it, or the
  -- default: options of one kind do not touch the settings of another.
  pub parse_options-FromLast :
      (opts : List Opt) (t : Settings)
      → parse_options strtol isprint opts ≡ settings t
      → FromLast opts defaults t
  unfolding parse_options
  parse_options-FromLast opts t e = parse-FromLast opts defaults e
