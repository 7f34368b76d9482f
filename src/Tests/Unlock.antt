-- ===== src/Tests/Unlock.antt =====
-- Someone without the PIN: a packet for the locked device, and the power cut.
use memtype.Base.{
  ℕ, ◌+◌, ◌≤◌, ◌<◌, ◌≡◌, ◌≢◌, ◌⊎◌, refl, Bytes, [], ◌∷◌, true, false, none, done, hang, ◌↔◌, from,
  arith,
}
use memtype.State.{Device, device_locked, start, right, on_usi}
use memtype.Crd.Load.{crd_load_credential, crd_find_eos, find_eos_loop}
use memtype.Main.{
  write, call, reset_hook, usb_call, usb_event, usb_reset_hook, usb_poll, Input, main_round,
  start_up,
}
use memtype.Main.Unlock.Waiting.{Harmless}
use memtype.Main.Unlock.{EntryMenu, PinEntered}
use memtype.Main.Unlock.Trace.{Guesses, started, round, power, no_pin_no_access}
use memtype.Main.Bounds.{InBounds}
use memtype.Main.Bounds.Round as Rounds
use memtype.Main.Bounds.Round.{booted, running-InBounds}
use memtype.Main.Erase.{erased, usi_fsm-erase}
use memtype.Usi.Check.{pin_hash}
use memtype.Usi.Fsm.{usi_fsm}
use memtype.Usi.Pin.{usi_pin_check}
use memtype.Osccal.{osccal_init}
use memtype.Print.{print, print_str_flash}
use memtype.Sch.{sch_task}
use memtype.Reset.{reset_state}
use memtype.Tests.Fixture.{packet_of, test_board}

abbrev zeros : Bytes
zeros i = 0

-- The device when its start is over.
abbrev on : Device
on = record (reset_state zeros zeros 0) {
  printer = record (print_str_flash 100 (reset_state zeros zeros 0).printer) {
    report_buffer = record { reportid = 1; modifier = 0; keycode = 0 };
  };
  crd = record ((reset_state zeros zeros 0).crd) {
    credential = record { name = 1024; next = 0; encrypt = 1027 };
  };
  ucp = record ((reset_state zeros zeros 0).ucp) { ucp_state = device_locked };
}

on_lem : start_up test_board (reset_state zeros zeros 7) ≡ done on
unfolding start_up crd_load_credential crd_find_eos find_eos_loop osccal_init print
on_lem = refl

-- A READ packet arrives.
abbrev host_reads : Input
host_reads = record {
  events = call (write (packet_of (2 ∷ 0 ∷ 0 ∷ 8 ∷ 0 ∷ [])) 8) ∷ reset_hook true (λ v. 0) ∷ [];
  timer = 0;
  sample = record { new_val = false; adch = 0 };
  interrupt_is_ready = false;
}

abbrev refused : Device
refused = usb_call test_board (write (packet_of (2 ∷ 0 ∷ 0 ∷ 8 ∷ 0 ∷ [])) 8) on

host_reads_lem : main_round test_board host_reads on ≡ done (none, refused)
unfolding main_round usb_poll usb_event usb_reset_hook sch_task
host_reads_lem = refl

on-unentered : ¬ (PinEntered test_board on)
on-unentered p = cc (p.menu)

guesses : Guesses test_board on on
unfolding usb_poll
guesses = power 7 (round host_reads none started on-unentered host_reads_lem) on_lem

no_pin_no_access_example :
    (on.ucp.ucp_state ≡ device_locked)
    × EntryMenu on.uif.uif_state
    × (on.flash ≡ zeros)
    × ((j : ℕ) → ((j < 16) ⊎ (16 + 16 ≤ j)) × (j ≢ 0) → on.eeprom j ≡ 0)
    × ((j : ℕ) → Harmless test_board zeros (on.printer.str_buf j))
no_pin_no_access_example = no_pin_no_access test_board zeros zeros 7 on_lem guesses

running-InBounds_example : InBounds refused
running-InBounds_example =
    running-InBounds test_board refused
      (Rounds.round host_reads none (booted zeros zeros 7 on_lem) host_reads_lem)

-- The erasing PIN is shown to its last digit.
abbrev erasing : Device
erasing = on_usi (λ u. record u { user_pin = λ j. b'9'; user_text_index = 3 }) on

-- The device when its start after the erasure is over.
abbrev restarted : Device
restarted = record on { eeprom = erased test_board erasing }

restarted_lem :
    start_up test_board (reset_state zeros (erased test_board erasing) 7) ≡ done restarted
unfolding start_up crd_load_credential crd_find_eos find_eos_loop osccal_init print
restarted_lem = refl

abbrev ones : Bytes
ones j = b'1'

usi_fsm-erase_example :
    (spin : Device) × (r : ℕ) × (checked : Device) × (usi_fsm test_board right erasing ≡ hang spin)
    × (spin.flash ≡ zeros)
    × (spin.eeprom ≡ erased test_board erasing)
    × (restarted.ucp.ucp_state ≡ device_locked)
    × (restarted.uif.uif_state ≡ start)
    × (restarted.flash ≡ zeros)
    × (restarted.eeprom ≡ erased test_board erasing)
    × (usi_pin_check test_board ones restarted ≡ done (r, checked))
    × ((r ≡ 1) ↔ ((k : ℕ) → k < 16 → from zeros 200 k ≡ pin_hash test_board ones restarted k))
usi_fsm-erase_example =
    usi_fsm-erase test_board erasing restarted 7 ones refl refl (omega arith) restarted_lem refl
