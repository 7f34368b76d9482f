-- ===== src/Tests/Keyboard.antt =====
-- Typing at concrete inputs: a text in flash, and the Spanish layout in EEPROM.
use memtype.Base.{
  ℕ, ◌-◌, ◌≤◌, ◌≡◌, ◌<◌, ◌⊎◌, ◌↔◌, ◌≢◌, refl, true, false, bit_and, Bytes, ltb, if◌then◌else◌,
  add16, arith, ap,
}
use memtype.State.{Device, empty, released, on_printer}
use memtype.Hid.{keyboard_lut_es}
use memtype.Hid.Layout.{HasLayout, modifier_after, keycode_after, press_injective, press_allowed}
use memtype.Uib.{button_of, same_button}
use memtype.Uib.Hold.{held, pulse, held_lem}
use memtype.Crd.Eos.{Text}
use memtype.Hid.Keys.{key_a}
use memtype.Hid.Keys.Beyond.{key_f7}
use memtype.Hid.Reach.{entry_of, modifiers, other_modifiers, listed, keycode_of-reach}
use memtype.Print.{keycode_of, modifier_of, print, print_str_flash, print_delete_str}
use memtype.Print.Update.{print_update}
use memtype.Print.Typing.{Typing}
use memtype.Print.Strokes.{strokes, after_strokes, keystrokes}
use memtype.Print.Strings.{NoIdle, strokes_lem}
use memtype.Print.Delete.{backspaces, Deleted, backspaces_lem}
use memtype.Reset.{reset_state}
use memtype.Tests.Fixture.{test_board, fresh}

-- The layout at address 64, as the EEPROM's image has it.
abbrev pub layout_eeprom : Bytes
layout_eeprom j = keyboard_lut_es (j - 64)

layout_eeprom-HasLayout : HasLayout layout_eeprom 64
layout_eeprom-HasLayout i h = ap keyboard_lut_es {x = add16 64 i - 64} {y = i} (omega arith)

-- "abc" at address 100.
abbrev pub word : Bytes
word j = if ltb j 100 then 1 else if ltb j 103 then j - 3 else 0

-- The keyboard before the text's first character.
abbrev typing : Device
typing =
    on_printer (λ p. record (print_str_flash 100 p) { kbd_status = released; eos = 1 })
      (reset_state word layout_eeprom 0)

typing-Typing : Typing test_board 100 typing
unfolding print
typing-Typing = record { status = refl; string = refl }

word-Text : Text word 100 3
word-Text = record { inside = omega arith; nul = refl; characters = λ i h. ground arith }

word-NoIdle : NoIdle test_board word 100 3
word-NoIdle i h = ground arith

strokes_lem_example :
    let d' = after_strokes test_board 3 typing in
    let d'' = print_update test_board d' in
    (strokes test_board 3 typing ≡ keystrokes test_board word layout_eeprom 0 100 3)
    × (d'.printer.c_count ≡ 3)
    × (d''.printer.c_count ≡ 3)
    × (d''.printer.eos ≡ 1)
    × ((d''.printer.str_buf 0).info ≡ empty)
    × (d''.printer.act_string ≡ 1)
    × (d''.printer.kbd_status ≡ released)
unfolding print
strokes_lem_example =
    strokes_lem test_board 100 2 typing typing-Typing word-Text word-NoIdle refl (omega arith)

-- Three keys were typed, and a button asks for their deletion.
abbrev deleting : Device
deleting = on_printer (λ p. record (print_delete_str p) { c_count = 3 }) typing

backspaces_lem_example :
    (strokes test_board 3 deleting ≡ backspaces test_board layout_eeprom 0 3)
    × Deleted test_board deleting (print_update test_board (after_strokes test_board 3 deleting))
unfolding print
backspaces_lem_example = backspaces_lem test_board 3 deleting refl refl

-- A small and a capital letter.
press_injective_example :
    ((modifier_after layout_eeprom 64 fresh.printer b'a'
        ≡ modifier_after layout_eeprom 64 fresh.printer b'A')
      × (keycode_after layout_eeprom 64 fresh.printer b'a'
          ≡ keycode_after layout_eeprom 64 fresh.printer b'A'))
    ↔ (◌≡◌ {A = ℕ} b'a' b'A')
press_injective_example =
    press_injective layout_eeprom 64 layout_eeprom-HasLayout fresh.printer b'a' b'A' (omega arith)
      (omega arith) (omega arith) (omega arith)

press_allowed_example :
    let m = modifier_after layout_eeprom 64 fresh.printer b'@' in
    (keycode_after layout_eeprom 64 fresh.printer b'@' ≤ 101)
    × ((m ≡ 0) ⊎ ((m ≡ 0x02) ⊎ (m ≡ 0x40)))
press_allowed_example =
    press_allowed layout_eeprom 64 layout_eeprom-HasLayout fresh.printer b'@' (omega arith)

-- SHIFT and KEY_A, KEY_F7, and the entry 200.
keycode_of-reach_example :
    (entry_of key_a true false < 256)
    × (keycode_of (entry_of key_a true false) ≡ key_a)
    × (modifier_of (entry_of key_a true false) ≡ modifiers true false)
    × (keycode_of 200 ≢ key_f7)
    × (bit_and (modifier_of 200) other_modifiers ≡ 0)
unfolding listed
keycode_of-reach_example =
    keycode_of-reach key_a key_f7 200 true false (omega arith) refl refl (omega arith)

-- The value 230 is the button on the right.
held_lem_example :
    ((held 105 230 fresh.uib).button_changed ≡ pulse 105)
    × ((held 105 230 fresh.uib).button_pressed ≡ button_of 230)
unfolding same_button button_of
held_lem_example = held_lem 105 230 fresh.uib refl
