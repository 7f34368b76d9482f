-- ===== src/Tests/SetPin.antt =====
-- A new hash for the PIN, and the packets after it.
use memtype.Base.{ℕ, ◌+◌, ◌≤◌, ◌<◌, ◌≡◌, ◌⊎◌, ◌↔◌, refl, done, Bytes, [], ◌∷◌, ◌++◌, arith}
use memtype.State.{Device, idle, write_eeprom}
use memtype.Ucp.Cmd
use memtype.Ucp.Err
use memtype.Ucp.Decode.{ucp_decode}
use memtype.Ucp.SetPin.{PinSet, set_pin_session}
use memtype.Ucp.Task.{ucp_task}
use memtype.Ucp.Read.{eight, host_data}
use memtype.Ucp.ReadBack.{set_pin_session-read_pin_session}
use memtype.Usi.Pin.{usi_pin_check}
use memtype.Usi.Check.{pin_hash}
use memtype.Usi.Change.{set_pin_session-usi_pin_check}
use memtype.Tests.Fixture.{packet_of, test_board, fresh}

abbrev set_pin_packet : Bytes
set_pin_packet = packet_of (7 ∷ [])

abbrev low : Bytes
low = packet_of (1 ∷ 2 ∷ 3 ∷ 4 ∷ 5 ∷ 6 ∷ 7 ∷ 8 ∷ [])

abbrev high : Bytes
high = packet_of (9 ∷ 10 ∷ 11 ∷ 12 ∷ 13 ∷ 14 ∷ 15 ∷ 16 ∷ [])

abbrev pin_set : Device
pin_set =
    ucp_decode test_board high 8
      (ucp_decode test_board low 8 (ucp_decode test_board set_pin_packet 8 fresh))

set_pin_session_example :
    ((k : ℕ) → k < 8 → pin_set.eeprom (16 + k) ≡ low k)
    × ((k : ℕ) → k < 8 → pin_set.eeprom (16 + 8 + k) ≡ high k)
    × ((j : ℕ) → (j < 16) ⊎ (16 + 16 ≤ j) → pin_set.eeprom j ≡ fresh.eeprom j)
    × PinSet fresh pin_set
set_pin_session_example =
    set_pin_session test_board set_pin_packet low high fresh refl refl (omega arith)

abbrev read_pin_packet : Bytes
read_pin_packet = packet_of (8 ∷ [])

set_pin_session-read_pin_session_example :
    let d2 = ucp_decode test_board low 8 pin_set in
    (pin_set.ucp.ucp_state ≡ write_eeprom)
    × (d2.ucp.custom_report 0 ≡ Cmd.error)
    × (d2.ucp.custom_report 1 ≡ Err.protocol)
    × (d2.ucp.ucp_state ≡ idle)
    × (host_data test_board 2 (ucp_task test_board (ucp_decode test_board read_pin_packet 8 d2))
        ≡ eight low ++ (eight high ++ []))
set_pin_session-read_pin_session_example =
    set_pin_session-read_pin_session test_board set_pin_packet low high low read_pin_packet fresh
      refl refl refl (omega arith)

abbrev entered_pin : Bytes
entered_pin = packet_of (b'1' ∷ b'2' ∷ b'3' ∷ b'4' ∷ [])

set_pin_session-usi_pin_check_example :
    (r : ℕ) × (d' : Device) × (usi_pin_check test_board entered_pin pin_set ≡ done (r, d'))
    × ((r ≡ 1) ↔ (
        ((k : ℕ) → k < 8 → pin_hash test_board entered_pin pin_set k ≡ low k)
        × ((k : ℕ) → k < 8 → pin_hash test_board entered_pin pin_set (8 + k) ≡ high k)))
set_pin_session-usi_pin_check_example =
    set_pin_session-usi_pin_check test_board set_pin_packet low high entered_pin fresh pin_set refl
      refl (omega arith) refl refl
