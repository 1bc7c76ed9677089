-- ===== src/Ftdi.antt =====
-- `_ftdi_init`, `_ftdi_xmit` and `_ftdi_deinit` of main.c. libftdi is a parameter: `answer` gives the
-- return value of a call after the calls made so far. The calls and their return values are kept,
-- the newest first.
pub mod Device
use osc2ftdidmx.Base.{
  ℕ, zero, suc, ◌+◌, Bool, true, false, not, Option, none, some, List, [], ◌∷◌, ◌==◌, ◌&&◌, ◌||◌,
  if◌then◌else◌, ℤ, pos, negsuc,
}

-- The arguments `BREAK_ON` and `BREAK_OFF`.
pub data Break : Type 0 where
  break_on break_off : Break

-- The calls of libftdi that the program makes. Strings are lists of bytes.
pub data Call : Type 0 where
  init set_interface usb_reset purge_buffers disable_flow_ctrl usb_close deinit : Call
  usb_open_desc : ℕ → ℕ → Option (List ℕ) → Option (List ℕ) → Call
  usb_open : ℕ → ℕ → Call
  set_baudrate : ℕ → Call
  set_line_property2 : Break → Call
  setrts : ℕ → Call
  write_data : List ℕ → Call

pub record Event : Type 0 where
  pub call : Call
  pub result : ℤ

abbrev pub Trace : Type 0
Trace = List Event

-- The fields of `app_t` that `_ftdi_init` reads.
pub record Ids : Type 0 where
  pub vid : ℕ
  pub pid : ℕ
  pub des : Option (List ℕ)
  pub sid : Option (List ℕ)

abbrev pub is_some {ℓ} : {A : Type ℓ} → Option A → Bool
is_some none = false
is_some (some a) = true

abbrev pub is_zero : ℤ → Bool
is_zero (pos zero) = true
is_zero (pos (suc n)) = false
is_zero (negsuc n) = false

module _ (answer : Trace → Call → ℤ) where
  unfoldable pub invoke : Call → Trace → Trace
  invoke c t = record { call = c; result = answer t c } ∷ t

  -- `if(c != 0) goto label;`, and `k` else.
  unfoldable pub attempt : Call → (Trace → ℤ × Trace) → (Trace → ℤ × Trace) → Trace → ℤ × Trace
  unfolding invoke
  attempt c label k t = if is_zero (answer t c) then k (invoke c t) else label (invoke c t)

  -- The labels of `_ftdi_init`.
  unfoldable pub failure : Trace → ℤ × Trace
  failure t = (negsuc 0, t)

  unfoldable pub failure_deinit : Trace → ℤ × Trace
  unfolding failure invoke
  failure_deinit t = failure (invoke deinit t)

  unfoldable pub failure_close : Trace → ℤ × Trace
  unfolding failure_deinit invoke
  failure_close t = failure_deinit (invoke usb_close t)

  unfoldable pub configure : Trace → ℤ × Trace
  unfolding attempt failure_close
  configure = attempt usb_reset failure_close (
      attempt (set_baudrate 250000) failure_close (
        attempt (set_line_property2 break_on) failure_close (
          attempt purge_buffers failure_close (
            attempt disable_flow_ctrl failure_close
              (attempt (setrts 0) failure_close (λ t. (pos 0, t)))))))

  -- The call that opens the device.
  abbrev pub open_call : Ids → Call
  open_call ids =
      if is_some ids.des || is_some ids.sid
      then usb_open_desc ids.vid ids.pid ids.des ids.sid
      else usb_open ids.vid ids.pid

  -- `_ftdi_init`
  unfoldable pub ftdi_init : Ids → Trace → ℤ × Trace
  unfolding attempt failure failure_deinit configure
  ftdi_init ids =
      attempt init failure
        (attempt set_interface failure_deinit (attempt (open_call ids) failure_deinit configure))

  -- `_ftdi_deinit`; a failure to close is only logged.
  unfoldable pub ftdi_deinit : Trace → Trace
  unfolding invoke
  ftdi_deinit t = invoke deinit (invoke usb_close t)

  abbrev pub is_count : ℤ → ℕ → Bool
  is_count (pos m) n = m == n
  is_count (negsuc m) n = false

  -- `_ftdi_xmit` for a frame of `sz` bytes: 0 if all three calls succeed, 1 if not.
  unfoldable pub ftdi_xmit : List ℕ → ℕ → Trace → ℕ × Trace
  unfolding invoke
  ftdi_xmit frame sz t =
      let t1 = invoke (set_line_property2 break_on) t in
      let t2 = invoke (set_line_property2 break_off) t1 in
      let t3 = invoke (write_data frame) t2 in
      if is_zero (answer t (set_line_property2 break_on))
      then (if is_zero (answer t1 (set_line_property2 break_off))
          then (if is_count (answer t2 (write_data frame)) sz then (0, t3) else (1, t3))
          else (1, t2))
      else (1, t1)
