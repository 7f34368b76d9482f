-- ===== src/Tests/Host.antt =====
-- A host at a locked device.
use memtype.Base.{◌≡◌, refl, [], ◌∷◌, Option, done}
use memtype.State.{Device, KeyboardReport, device_locked}
use memtype.Main.{UsbCall, setup, write, usb_call, report_step}
use memtype.Main.Host.{HostSteps, none, next, called, host_locked}
use memtype.Tests.Fixture.{packet_of, test_board, locked}

-- A WRITE packet, and the request for the answer.
abbrev write_call : UsbCall
write_call = write (packet_of (3 ∷ 0 ∷ 0 ∷ 8 ∷ 0 ∷ [])) 8

abbrev report_call : UsbCall
report_call =
    setup (record { bm_request_type = 0x20; b_request = 1; value_low = 2; value_high = 0 })

abbrev answered : Device
answered = usb_call test_board report_call (usb_call test_board write_call locked)

two_calls : HostSteps test_board locked answered
two_calls =
    next (next (none locked) (called write_call locked))
      (called report_call (usb_call test_board write_call locked))

host_locked_example :
    (answered.ucp.ucp_state ≡ device_locked)
    × (answered.flash ≡ locked.flash)
    × (answered.eeprom ≡ locked.eeprom)
    × ((r : Option KeyboardReport) × (d' : Device) × (report_step test_board answered
          ≡ done (r, d')))
host_locked_example = host_locked test_board refl refl two_calls
