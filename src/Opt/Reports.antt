-- ===== src/Opt/Reports.antt =====
-- A button of the menu of options types one field of the credential.
use memtype.Base.{
  ℕ, zero, suc, ◌+◌, ◌-◌, ◌%◌, ◌<◌, ◌≡◌, ◌⊎◌, inl, inr, refl, ap, subst, leb, not, ◌==◌, ◌&&◌, ◌∙◌,
  if◌then◌else◌, Bool-cases, Bytes, List, ◌++◌, done, arith,
}
use memtype.State.{
  Device, Leds, Fp, opt_print_pass, opt_print_user, Button, up, down, delete, KeyboardReport,
  on_crd, on_leds, on_printer, on_uif, Uif, KbdStatus, blink_red, blink_green,
}
use memtype.Board.{Board}
use memtype.Led.{set_led}
use memtype.Print.{print_delete_str}
use memtype.Print.Delete.{backspaces}
use memtype.Print.Pressed.{pressed, downs}
use memtype.Print.Strokes.{Sends}
use memtype.Crd.Apply.{
  crd_user, crd_pass, crd_apply, crd_print_detail, apply_print, apply_move, crd_find, decrypt_block,
}
use memtype.Crd.Buttons.{Ready, crd_print_detail-erases}
use memtype.Crd.Fields.{chosen}
use memtype.Crd.Handed.{Deciphers-same}
use memtype.Crd.Rest.{Finished}
use memtype.Main.Host.{crd_apply-same}
use memtype.Opt.{
  max_opt_size, opt_fsm, opt_previous, opt_next, opt_apply, call_entry, call, opt_print_user_run,
  opt_print_pass_run, opt_menu_fp,
}
use memtype.Uif.{uif_increment, uif_decrement}

-- The field that the menu types at an index.
abbrev pub field_of : ℕ → ℕ
field_of i = if i == 0 then crd_pass else crd_user

module _ (b : Board) where
  -- The LEDs do not matter to CRD_apply.
  apply_print-leds :
      (f : Leds → Leds) (buffpos size : ℕ) (d : Device)
      → apply_print buffpos size (on_leds f d) ≡ on_leds f (apply_print buffpos size d)
  unfolding apply_print
  apply_print-leds f buffpos size d =
      elim (Bool-cases (leb d.crd.crd_start d.crd.counter && not (size == 0))) [
        | inl typed ↦ rw typed refl
        | inr skipped ↦ rw skipped refl
      ]

  crd_apply-leds :
      (f : Leds → Leds) (d : Device) → crd_apply b (on_leds f d) ≡ on_leds f (crd_apply b d)
  unfolding crd_apply decrypt_block
  crd_apply-leds f d =
      let d1 = on_crd (decrypt_block b d) d in
      let buffpos = d.crd.position % 16 in
      let size = crd_find (λ i. d1.crd.cipher.plain (buffpos + i)) (16 - buffpos) in
      elim (Bool-cases (leb d.crd.crd_stop d.crd.counter)) [
        | inl over ↦ rw over refl
        | inr more ↦
            rw more
              (ap (on_crd (apply_move size (16 - buffpos))) (apply_print-leds f buffpos size d1))
      ]

  -- What a button of the menu leaves, where it comes to the index `i`: the field typed, after `n`
  -- backspaces.
  pub record Typed (text : Bytes) (r n i : ℕ) (flash eeprom : Bytes) (id : ℕ) (d1 : Device)
      : Type 0 where
    pub rs : List KeyboardReport
    pub last : Device
    pub sent : Sends b d1 (backspaces b eeprom id n ++ rs) last
    pub keys :
        pressed rs ≡ pressed (downs b eeprom id (chosen text (field_of i) (field_of i + 1) r 0 0))
    pub finished : Finished b text (field_of i) (field_of i + 1) last
    pub flash_kept : last.flash ≡ flash
    pub eeprom_kept : last.eeprom ≡ eeprom
    pub index : d1.uif.options_index ≡ i

  abbrev other : (Leds → Leds) → (Uif → Uif) → Fp → KbdStatus → Device → Device
  other f u fp k d =
      on_leds f (on_uif u (on_printer (λ p. record p { kbd_status = k }) (record d { fptr = fp })))

  Ready-other :
      (f : Leds → Leds) (u : Uif → Uif) (fp : Fp) (k : KbdStatus) (text : Bytes)
      (from_field to_field r : ℕ) (d : Device)
      → Ready b text from_field to_field r d
      → Ready b text from_field to_field r (other f u fp k d)
  Ready-other f u fp k text from_field to_field r d h = record {
    inside = h.inside;
    free = h.free;
    over = h.over;
    deciphers =
        Deciphers-same b text from_field to_field d (other f u fp k d) refl refl refl h.deciphers;
    ends = h.ends;
    some = h.some;
    quiet = h.quiet;
    silent = h.silent;
  }

  -- A function of the menu, with the LEDs that it sets.
  run_Typed :
      (text : Bytes) (r n i : ℕ) (f : Leds → Leds) (fp : Fp) (d : Device)
      → d.uif.options_index ≡ i
      → Ready b text (field_of i) (field_of i + 1) r d
      → d.printer.c_count ≡ n
      → Typed text r n i d.flash d.eeprom d.printer.report_buffer.reportid (
          on_leds f (
            crd_print_detail b
              (field_of i)
              (field_of i + 1)
              (on_printer print_delete_str (record d { fptr = fp }))))
  unfolding crd_print_detail
  run_Typed text r n i f fp d index h count =
      let d0 = other f (λ u. u) fp d.printer.kbd_status d in
      let started : Device =
        on_crd
          (λ c. record c {
            position = 0;
            counter = 0;
            crd_start = field_of i;
            crd_stop = field_of i + 1;
          })
          (on_printer print_delete_str (record d { fptr = fp })) in
      let (rs, last, sent, same, fin, fl, ee) =
        crd_print_detail-erases b text (field_of i) (field_of i + 1) r n d0
          (Ready-other f (λ u. u) fp d.printer.kbd_status text (field_of i) (field_of i + 1) r d h)
          count in
      let (_, _, _, ui) = crd_apply-same b started in
      record {
        rs = rs;
        last = last;
        sent =
            subst
              (λ x. Sends b x (backspaces b d.eeprom d.printer.report_buffer.reportid n ++ rs) last)
              (crd_apply-leds f started) sent;
        keys = same;
        finished = fin;
        flash_kept = fl;
        eeprom_kept = ee;
        index = ap (λ (u : Uif). u.options_index) ui ∙ index;
      }

  call-Typed :
      (text : Bytes) (r n i : ℕ) (d : Device)
      → i < max_opt_size
      → d.uif.options_index ≡ i
      → Ready b text (field_of i) (field_of i + 1) r d
      → d.printer.c_count ≡ n
      → (d1 : Device) × (opt_apply b d ≡ done d1)
        × Typed text r n i d.flash d.eeprom d.printer.report_buffer.reportid d1
  unfolding opt_apply call_entry call opt_print_user_run opt_print_pass_run
  call-Typed text r n zero d lt index h count = (
    _,
    ap (λ j. call_entry b (opt_menu_fp j) d) index,
    run_Typed text r n zero (set_led blink_red) opt_print_pass d index h count,
  )
  call-Typed text r n (suc zero) d lt index h count = (
    _,
    ap (λ j. call_entry b (opt_menu_fp j) d) index,
    run_Typed text r n (suc zero) (set_led blink_green) opt_print_user d index h count,
  )
  call-Typed text r n (suc (suc i)) d lt index h count = absurd (omega arith)

  -- In the menu of options, up and down go to the other of its two entries and type its field: after
  -- as many backspaces as characters were counted, the keys that go down are those of the characters
  -- of the password at the first entry and of the user at the second, and both memories are as before.
  -- So it is where no string waits or is half-typed, the indices of the ring and of the menu are inside
  -- them, the credential deciphers to a text that is shorter than 256 bytes, has the field and asks for
  -- no pause, and NUL has no key.
  pub opt_fsm-reports :
      (text : Bytes) (r n i : ℕ) (button : Button) (d : Device)
      → (button ≡ up) ⊎ (button ≡ down)
      → d.uif.options_index < max_opt_size
      → i ≡ 1 - d.uif.options_index
      → Ready b text (field_of i) (field_of i + 1) r d
      → d.printer.c_count ≡ n
      → (d1 : Device) × (opt_fsm b button d ≡ done d1)
        × Typed text r n i d.flash d.eeprom d.printer.report_buffer.reportid d1
  unfolding opt_fsm opt_previous opt_next uif_increment uif_decrement
  opt_fsm-reports text r n i button d (inl e) lt at h count =
      let turn : Uif → Uif =
        λ u. record u { options_index = uif_increment u.options_index max_opt_size } in
      let d0 = on_uif turn (on_printer print_delete_str d) in
      let (d1, applied, t) =
        call-Typed text r n i d0 (omega arith) (ground arith)
          (Ready-other (λ l. l) turn d.fptr delete text (field_of i) (field_of i + 1) r d h)
          count in
      (d1, ap (λ x. opt_fsm b x d) e ∙ applied, t)
  opt_fsm-reports text r n i button d (inr e) lt at h count =
      let turn : Uif → Uif =
        λ u. record u { options_index = uif_decrement u.options_index max_opt_size } in
      let d0 = on_uif turn d in
      let (d1, applied, t) =
        call-Typed text r n i d0 (omega arith) (ground arith)
          (Ready-other (λ l. l) turn d.fptr d.printer.kbd_status text (field_of i) (field_of i + 1)
            r d h)
          count in
      (d1, ap (λ x. opt_fsm b x d) e ∙ applied, t)
