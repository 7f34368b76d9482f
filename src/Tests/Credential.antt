-- ===== src/Tests/Credential.antt =====
-- A credential whose password is typed.
use memtype.Base.{
  ℕ, List, inl, done, ◌++◌, not, ◌<◌, ◌==◌, ◌≢◌, table_holds, table_holds_lem, ◌+◌, ◌-◌, ◌*◌, ◌%◌,
  ◌≡◌, ◌∙◌, refl, ap, true, ltb, if◌then◌else◌, Bytes, [], ◌∷◌, arith,
}
use memtype.State.{Device, KeyboardReport, right, up, on_uif, released, on_crd, on_printer}
use memtype.Hid.{keyboard_lut_es}
use memtype.Print.Pressed.{pressed, downs, NulSilent}
use memtype.Crd.Rest.{Finished}
use memtype.Crd.Reports.{crd_print_detail-reports}
use memtype.Tests.Keyboard.{layout_eeprom}
use memtype.Print.{keycode_of, act, is_empty}
use memtype.Print.Strokes.{Sends}
use memtype.Print.Update.{synchronous_idle_key, call_back}
use memtype.Print.Delete.{backspaces}
use memtype.Opt.{opt_fsm}
use memtype.Opt.Reports.{field_of, Typed, opt_fsm-reports}
use memtype.Crd.Fsm.{crd_fsm}
use memtype.Crd.Buttons.{Ready, crd_fsm-reports}
use memtype.Crd.Apply.{crd_user, crd_end, crd_pass, crd_print_detail}
use memtype.Crd.Fields.{chosen, nuls}
use memtype.Crd.Pieces.{Deciphers}
use memtype.Crd.Typed.{Ends, handed_out, after_calls, handed_out-chosen}
use memtype.Tests.Fixture.{packet_of, test_board, fresh}

-- At 1036 the user "me", no hop, and the password "pw", under a key of zeros.
abbrev encrypted : Bytes
encrypted j =
    if ltb j 1036 then 0 else packet_of (b'm' ∷ b'e' ∷ 0 ∷ 0 ∷ b'p' ∷ b'w' ∷ 0 ∷ []) (j - 1036)

abbrev text : Bytes
text j = (encrypted ((1036 + j) % 65536) + 256 - 0) % 256

abbrev chosen_credential : Device
chosen_credential =
    on_crd (λ c. record c { credential = record { name = 1030; next = 0; encrypt = 1036 } })
      (record fresh { flash = encrypted })

text-Deciphers : Deciphers test_board text crd_pass (crd_pass + 1) chosen_credential
text-Deciphers = record {
  blocks = λ k block h j lt.
      ap (λ x. (x + 256 - 0) % 256)
        (h j lt
          ∙ ap encrypted {x = ((1036 + 16 * k) % 65536 + j) % 65536}
              {y = (1036 + (16 * k + j)) % 65536} (omega arith));
}

text-Ends : Ends test_board text crd_pass (crd_pass + 1) 7 0 0
unfolding nuls
text-Ends = record { byte = omega arith; small = omega arith; enough = omega arith }

password : chosen text crd_pass (crd_pass + 1) 7 0 0 ≡ b'p' ∷ b'w' ∷ []
unfolding chosen
password = refl

handed_out-chosen_example :
    let started =
      on_crd
        (λ c. record c { position = 0; counter = 0; crd_start = crd_pass; crd_stop = crd_pass + 1 })
        chosen_credential in
    let d' = call_back test_board (after_calls test_board 7 started) in
    (handed_out test_board 7 started ≡ chosen text crd_pass (crd_pass + 1) 7 0 0)
    × (d'.printer.eos ≡ 1)
    × (is_empty (act d'.printer).info ≡ true)
handed_out-chosen_example =
    handed_out-chosen test_board text crd_pass (crd_pass + 1) 7 chosen_credential (omega arith)
      text-Deciphers text-Ends

-- The same with the layout in EEPROM, the keyboard ready and no key down.
abbrev ready : Device
ready =
    on_printer (λ p. record p { kbd_status = released })
      (record chosen_credential { eeprom = layout_eeprom })

ready-Deciphers : Deciphers test_board text crd_pass (crd_pass + 1) ready
ready-Deciphers = record { blocks = text-Deciphers.blocks }

text_lem : table_holds (λ j. not (text j == synchronous_idle_key)) 256 ≡ true
unfolding table_holds
text_lem = refl

quiet : (j : ℕ) → j < 256 → text j ≢ synchronous_idle_key
quiet j lt e =
    let h = table_holds_lem (λ x. not (text x == synchronous_idle_key)) 256 j text_lem lt in
    ground (arith, h, e)

nul : NulSilent test_board layout_eeprom
unfolding keycode_of keyboard_lut_es
nul = refl

crd_print_detail-reports_example :
    (rs : List KeyboardReport) × (d' : Device) × Sends test_board
      (crd_print_detail test_board crd_pass (crd_pass + 1) ready)
      rs
      d'
    × (pressed rs
        ≡ pressed (downs test_board layout_eeprom 0 (chosen text crd_pass (crd_pass + 1) 7 0 0)))
    × Finished test_board text crd_pass (crd_pass + 1) d'
    × (d'.flash ≡ encrypted)
    × (d'.eeprom ≡ layout_eeprom)
unfolding is_empty
crd_print_detail-reports_example =
    crd_print_detail-reports test_board text crd_pass (crd_pass + 1) 7 ready (omega arith) refl refl
      refl ready-Deciphers text-Ends (omega arith) quiet nul

-- Two characters were typed and counted: the right button erases them and types "mepw".
abbrev typed_two : Device
typed_two = on_printer (λ p. record p { c_count = 2; eos = 1 }) ready

typed_two-Ready : Ready test_board text crd_user crd_end 8 typed_two
unfolding is_empty nuls keycode_of keyboard_lut_es
typed_two-Ready = record {
  inside = omega arith;
  free = refl;
  over = refl;
  deciphers = record { blocks = text-Deciphers.blocks };
  ends = record { byte = omega arith; small = omega arith; enough = omega arith };
  some = omega arith;
  quiet = quiet;
  silent = refl;
}

crd_fsm-reports_example :
    (d1 : Device) × (rs : List KeyboardReport) × (d' : Device) × (crd_fsm test_board right typed_two
      ≡ done d1)
    × Sends test_board d1 (backspaces test_board layout_eeprom 0 2 ++ rs) d'
    × (pressed rs ≡ pressed (downs test_board layout_eeprom 0 (chosen text crd_user crd_end 8 0 0)))
    × Finished test_board text crd_user crd_end d'
    × (d'.flash ≡ encrypted)
    × (d'.eeprom ≡ layout_eeprom)
crd_fsm-reports_example = crd_fsm-reports test_board text 8 2 typed_two typed_two-Ready refl

-- In the menu of options at its second entry, up goes to the first, which types "pw".
abbrev at_user : Device
at_user = on_uif (λ u. record u { options_index = 1 }) typed_two

at_user-Ready : Ready test_board text (field_of 0) (field_of 0 + 1) 7 at_user
unfolding is_empty nuls keycode_of keyboard_lut_es
at_user-Ready = record {
  inside = omega arith;
  free = refl;
  over = refl;
  deciphers = record { blocks = text-Deciphers.blocks };
  ends = record { byte = omega arith; small = omega arith; enough = omega arith };
  some = omega arith;
  quiet = quiet;
  silent = refl;
}

opt_fsm-reports_example :
    (d1 : Device) × (opt_fsm test_board up at_user ≡ done d1)
    × Typed test_board text 7 2 0 encrypted layout_eeprom 0 d1
opt_fsm-reports_example =
    opt_fsm-reports test_board text 7 2 0 up at_user (inl refl) (omega arith) refl at_user-Ready
      refl
