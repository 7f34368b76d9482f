-- ===== src/Tests/Queue.antt =====
-- The ring of strings at concrete inputs.
use memtype.Base.{◌≡◌, refl, ◌==◌, if◌then◌else◌, List, [], ◌∷◌, arith}
use memtype.State.{Device, Printer, flash, flash_at, released, on_printer}
use memtype.Print.{print, print_loop, print_str_flash, entry, is_empty}
use memtype.Print.Fifo.{Holds, enqueue, print-enqueue}
use memtype.Print.Order.{
  Str, Between, reports, after_reports, all_keystrokes, reports-all_keystrokes,
}
use memtype.Reset.{reset_state}
use memtype.Tests.Fixture.{test_board, fresh}
use memtype.Tests.Keyboard.{layout_eeprom, word}

-- One string is in the ring, at its last place.
abbrev at_four : Printer
at_four = record (fresh.printer) {
  act_string = 4;
  str_buf = λ i. if i == 4 then entry (flash_at 100) flash 0 else fresh.printer.str_buf i;
}

at_four-Holds : Holds (entry (flash_at 100) flash 0 ∷ []) at_four
unfolding is_empty
at_four-Holds = (omega arith, (omega arith, refl, refl, λ j lo hi. ground (arith, lo, hi)))

print-enqueue_example :
    Holds
      (enqueue (entry (flash_at 200) flash 0) (entry (flash_at 100) flash 0 ∷ []))
      (print (flash_at 200) flash 0 at_four)
unfolding is_empty
print-enqueue_example =
    print-enqueue (flash_at 200) flash 0 (entry (flash_at 100) flash 0 ∷ []) at_four refl
      at_four-Holds

-- "abc" and behind it "bc" wait to be typed.
abbrev two_strings : Device
two_strings =
    on_printer
      (λ p. record (print_str_flash 101 (print_str_flash 100 p)) { kbd_status = released; eos = 1 })
      (reset_state word layout_eeprom 0)

abbrev texts : List Str
texts = record { at = 100; more = 2 } ∷ record { at = 101; more = 1 } ∷ []

two_strings-Between : Between test_board two_strings texts
unfolding print print_loop is_empty
two_strings-Between = record {
  status = refl;
  eos_set = refl;
  waiting = (
    omega arith,
    (omega arith, refl, refl, (omega arith, refl, refl, λ j lo hi. ground (arith, lo, hi))),
  );
  typeable = (
    record { inside = omega arith; nul = refl; characters = λ i h. ground arith },
    λ i h. ground arith,
    (
      record { inside = omega arith; nul = refl; characters = λ i h. ground arith },
      λ i h. ground arith,
      omega arith,
    ),
  );
}

reports-all_keystrokes_example :
    let d' = after_reports test_board texts two_strings in
    (reports test_board texts two_strings ≡ all_keystrokes test_board word layout_eeprom 0 texts)
    × Between test_board d' []
    × (d'.flash ≡ word)
    × (d'.eeprom ≡ layout_eeprom)
unfolding print
reports-all_keystrokes_example =
    reports-all_keystrokes test_board texts two_strings two_strings-Between
