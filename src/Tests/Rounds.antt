-- ===== src/Tests/Rounds.antt =====
-- The device: libftdi at a concrete run, and the constants of the runs of the output thread.
use osc2ftdidmx.Base.{ℕ, ◌⊎◌, ◌≡◌, refl, none, List, [], ◌∷◌, length, replicate, ℤ, pos, negsuc}
use osc2ftdidmx.Sched.{Timespec}
use osc2ftdidmx.Ftdi.{Call, Trace, Ids, init, set_interface, usb_open, write_data, ftdi_init}
use osc2ftdidmx.Ftdi.Device.{device, opened, raw, ftdi_init_lem}

-- A libftdi whose calls succeed, where a write takes all bytes.
abbrev pub answer : Trace → Call → ℤ
answer t (write_data bytes) = pos (length bytes)
answer t c = pos 0

abbrev ids : Ids
ids = record { vid = 0x0403; pid = 0x6001; des = none; sid = none }

abbrev pub open_trace : Trace
open_trace =
    record { call = usb_open 0x0403 0x6001; result = pos 0 }
    ∷ record { call = set_interface; result = pos 0 }
    ∷ record { call = init; result = pos 0 }
    ∷ []

abbrev pub now : Timespec
now = record { tv_sec = pos 1700000000; tv_nsec = 999999999 }

abbrev pub zeros : List ℕ
zeros = replicate 512 0

ftdi_init_lem_example :
    let (r, u) = ftdi_init answer ids [] in
    ((r ≡ pos 0) × (device u ≡ opened)) ⊎ ((r ≡ negsuc 0) × (device u ≡ raw))
ftdi_init_lem_example = ftdi_init_lem answer ids [] refl
