-- ===== src/Tests/Late.antt =====
-- A device that is locked while the last byte of a write waits.
use memtype.Base.{◌≡◌, refl, done, arith}
use memtype.State.{Device, UcpState, on_ucp}
use memtype.Crd.Eos.{Text}
use memtype.Ucp.Lock.{ucp_lock}
use memtype.Ucp.Write.{ucp_write_task}
use memtype.Ucp.Write.Late.{LastByte, last_flash, ucp_write_task-unlocks}
use memtype.Tests.Fixture.{fresh, test_board}

-- The byte is the fifth of a write to the credentials.
abbrev waiting : Device
waiting =
    on_ucp
      (λ u. record u {
        ucp_state = UcpState.writting;
        usb_write = 1;
        read_offset = 4;
        read_end = 5;
        buff_index = 4;
        flash_write_addr = 1024;
      })
      fresh

waiting-LastByte : LastByte waiting
waiting-LastByte = record {
  waits = refl;
  more = omega arith;
  last = refl;
  offsets = omega arith;
  few = omega arith;
  addresses = omega arith;
  flash_bytes = λ j. omega arith;
  buffer_bytes = λ j. omega arith;
  report_byte = omega arith;
}

no_name : Text (last_flash test_board waiting) 1024 0
no_name = record { inside = omega arith; nul = refl; characters = λ i lt. omega (arith, lt) }

ucp_write_task-unlocks_example :
    (d' : Device) × (ucp_write_task test_board (ucp_lock waiting) ≡ done d')
    × ((ucp_lock waiting).ucp.ucp_state ≡ UcpState.device_locked)
    × (d'.ucp.ucp_state ≡ UcpState.idle)
    × (d'.flash ≡ last_flash test_board waiting)
ucp_write_task-unlocks_example =
    ucp_write_task-unlocks test_board waiting 0 waiting-LastByte no_name
