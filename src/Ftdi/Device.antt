-- ===== src/Ftdi/Device.antt =====
-- The life of a libftdi context: what a sequence of calls leaves open, against the code that has
-- to release it on every path.
use osc2ftdidmx.Base.{ℕ, ◌≡◌, ◌⊎◌, List, [], ◌∷◌, arith, if◌then◌else◌, ℤ, pos, negsuc}
use osc2ftdidmx.Ftdi.{
  break_on, break_off, Call, init, set_interface, usb_reset, purge_buffers, disable_flow_ctrl,
  usb_close, deinit, usb_open_desc, usb_open, set_baudrate, set_line_property2, setrts, write_data,
  Trace, Ids, is_zero, invoke, attempt, failure, failure_deinit, failure_close, configure,
  ftdi_init, ftdi_deinit, ftdi_xmit,
}

-- A context is raw, initialised, or open; `misused` is a call that its state does not allow.
pub data Device : Type 0 where
  raw initialised opened misused : Device

abbrev pub when_opened : Device → Device
when_opened opened = opened
when_opened raw = misused
when_opened initialised = misused
when_opened misused = misused

abbrev pub after_open : Device → ℤ → Device
after_open initialised r = if is_zero r then opened else initialised
after_open raw r = misused
after_open opened r = misused
after_open misused r = misused

abbrev pub after_init : Device → ℤ → Device
after_init raw r = if is_zero r then initialised else raw
after_init initialised r = misused
after_init opened r = misused
after_init misused r = misused

abbrev pub after_deinit : Device → Device
after_deinit initialised = raw
after_deinit raw = misused
after_deinit opened = misused
after_deinit misused = misused

-- An interface is chosen before the device is opened.
abbrev pub when_initialised : Device → Device
when_initialised initialised = initialised
when_initialised raw = misused
when_initialised opened = misused
when_initialised misused = misused

abbrev pub after_close : Device → Device
after_close opened = initialised
after_close raw = misused
after_close initialised = misused
after_close misused = misused

abbrev pub step : Device → Call → ℤ → Device
step d init r = after_init d r
step d set_interface r = when_initialised d
step d (usb_open_desc v p des sid) r = after_open d r
step d (usb_open v p) r = after_open d r
step d usb_close r = after_close d
step d deinit r = after_deinit d
step d usb_reset r = when_opened d
step d purge_buffers r = when_opened d
step d disable_flow_ctrl r = when_opened d
step d (set_baudrate n) r = when_opened d
step d (set_line_property2 b) r = when_opened d
step d (setrts n) r = when_opened d
step d (write_data bytes) r = when_opened d

-- The state that the calls so far leave the context in.
abbrev pub device : Trace → Device
device [] = raw
device (e ∷ t) = step (device t) e.call e.result

module _ (answer : Trace → Call → ℤ) where
  -- `_ftdi_init` on a raw context leaves it open and returns 0, or returns -1 and has released all
  -- that it had acquired. It makes no call that the state of the context does not allow.
  pub ftdi_init_lem :
      (ids : Ids) (t : Trace)
      → device t ≡ raw
      → let (r, u) = ftdi_init answer ids t in
        ((r ≡ pos 0) × (device u ≡ opened)) ⊎ ((r ≡ negsuc 0) × (device u ≡ raw))
  unfolding ftdi_init configure attempt failure failure_deinit failure_close invoke
  ftdi_init_lem ids t h = ground arith

  -- `_ftdi_deinit` on an open context closes and releases it, whatever the calls return.
  pub ftdi_deinit_lem : (t : Trace) → device t ≡ opened → device (ftdi_deinit answer t) ≡ raw
  unfolding ftdi_deinit invoke
  ftdi_deinit_lem t h = ground arith

  -- On an open context, `_ftdi_xmit` keeps it open. It returns 0, and then the break was set, the
  -- break was cleared and the whole frame was written, in this order, or it returns 1.
  pub ftdi_xmit_lem :
      (frame : List ℕ) (sz : ℕ) (t : Trace)
      → device t ≡ opened
      → let (r, u) = ftdi_xmit answer frame sz t in
        (device u ≡ opened)
        × (((r ≡ 0)
              × (u
                  ≡ record { call = write_data frame; result = pos sz }
                    ∷ record { call = set_line_property2 break_off; result = pos 0 }
                    ∷ record { call = set_line_property2 break_on; result = pos 0 }
                    ∷ t))
            ⊎ (r ≡ 1))
  unfolding ftdi_xmit invoke
  ftdi_xmit_lem frame sz t h = ground arith
