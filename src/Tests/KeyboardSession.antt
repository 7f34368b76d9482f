-- ===== src/Tests/KeyboardSession.antt =====
-- The Spanish layout sent by the host, also after an unfinished session for the PIN.
use memtype.Base.{ℕ, ◌+◌, ◌≤◌, ◌<◌, ◌≡◌, ◌⊎◌, refl, Bytes, [], ◌∷◌, arith}
use memtype.State.{Device, Printer, idle, write_eeprom, start}
use memtype.Hid.{keyboard_lut_es}
use memtype.Print.{print_press_key}
use memtype.Ucp.Cmd
use memtype.Ucp.Err
use memtype.Ucp.Decode.{ucp_decode}
use memtype.Ucp.Keyboard.Packets.{send_layout}
use memtype.Ucp.Keyboard.{keyboard_session, keyboard_session-broken_pin}
use memtype.Ucp.Lock.{ucp_lock, ucp_unlock}
use memtype.Tests.Fixture.{packet_of, test_board, fresh}

abbrev keyboard_packet : Bytes
keyboard_packet = packet_of (9 ∷ [])

abbrev set_pin_packet : Bytes
set_pin_packet = packet_of (7 ∷ [])

abbrev half : Bytes
half = packet_of (1 ∷ 2 ∷ 3 ∷ 4 ∷ 5 ∷ 6 ∷ 7 ∷ 8 ∷ [])

abbrev loaded : Device
loaded = send_layout test_board 16 0 keyboard_lut_es (ucp_decode test_board keyboard_packet 8 fresh)

keyboard_session_example :
    ((c : ℕ) → c < 128 → loaded.eeprom (64 + c) ≡ keyboard_lut_es c)
    × ((j : ℕ) → (j < 64) ⊎ (64 + 128 ≤ j) → loaded.eeprom j ≡ fresh.eeprom j)
    × (loaded.flash ≡ fresh.flash)
    × (loaded.uif ≡ fresh.uif)
    × (loaded.ucp.ucp_state ≡ idle)
    × ((c : ℕ) (p : Printer)
        → c < 128
        → print_press_key loaded.eeprom 64 c p ≡ print_press_key keyboard_lut_es 0 c p)
keyboard_session_example =
    keyboard_session test_board keyboard_packet keyboard_lut_es fresh refl refl refl (omega arith)

abbrev unlocked : Device
unlocked =
    ucp_unlock
      (ucp_lock (ucp_decode test_board half 8 (ucp_decode test_board set_pin_packet 8 fresh)))

abbrev stuck : Device
stuck =
    send_layout test_board 16 0 keyboard_lut_es (ucp_decode test_board keyboard_packet 8 unlocked)

keyboard_session-broken_pin_example :
    let d'' = ucp_decode test_board half 8 stuck in
    (unlocked.ucp.ucp_state ≡ idle)
    × (stuck.ucp.ucp_state ≡ write_eeprom)
    × (stuck.uif.uif_state ≡ start)
    × (d''.ucp.custom_report 0 ≡ Cmd.error)
    × (d''.ucp.custom_report 1 ≡ Err.protocol)
    × (d''.ucp.ucp_state ≡ idle)
keyboard_session-broken_pin_example =
    keyboard_session-broken_pin test_board set_pin_packet half keyboard_packet keyboard_lut_es half
      fresh refl refl refl (omega arith) (omega arith)
