-- ===== src/Print/Delete.antt =====
-- The typed characters are deleted: one backspace for each.
use memtype.Base.{
  ℕ, zero, suc, ◌+◌, ◌-◌, ◌%◌, ◌<◌, ◌≡◌, ◌∙◌, refl, ap, Bytes, List, [], ◌∷◌, ◌==◌, if◌then◌else◌,
  arith,
}
use memtype.State.{Device, Printer, KeyboardReport, KbdStatus, delete, released, empty, on_printer}
use memtype.Board.{Board}
use memtype.Print.{print_press_key, print_release_key}
use memtype.Print.Update.{print_update, status_step, delete_step, press}
use memtype.Print.Strokes.{key_down, key_up, strokes, after_strokes}

module _ (b : Board) where
  -- The reports of `n` backspaces.
  unfoldable pub backspaces : Bytes → ℕ → ℕ → List KeyboardReport
  backspaces eeprom id zero = []
  backspaces eeprom id (suc n) = key_down b eeprom id 0x08 ∷ key_up b id ∷ backspaces eeprom id n

  abbrev down_up : Device → Printer → Printer
  down_up d p = record p {
    report_buffer = key_up b p.report_buffer.reportid;
    c_count = p.c_count - 1;
    kbd_status = delete;
  }

  delete_down :
      (d : Device)
      → d.printer.kbd_status ≡ delete
      → 0 < d.printer.c_count
      → print_update b d
        ≡ on_printer
            (λ p. record p {
              report_buffer = key_down b d.eeprom p.report_buffer.reportid 0x08;
              c_count = p.c_count - 1;
              kbd_status = KbdStatus.delete_pressed;
            })
            d
  unfolding print_update status_step delete_step press print_press_key
  delete_down d st pos = rw st (ground arith)

  delete_up :
      (d : Device)
      → d.printer.kbd_status ≡ delete
      → 0 < d.printer.c_count
      → print_update b (print_update b d) ≡ on_printer (down_up d) d
  unfolding print_update status_step print_release_key
  delete_up d st pos = ap (print_update b) (delete_down d st pos)

  -- What the deletion ends in: nothing is counted, and if a string was being typed, it is given up.
  pub record Deleted (d d' : Device) : Type 0 where
    pub status : d'.printer.kbd_status ≡ released
    pub count : d'.printer.c_count ≡ 0
    pub no_key : d'.printer.report_buffer ≡ key_up b d.printer.report_buffer.reportid
    pub given_up :
        (d'.printer.str_buf d.printer.act_string).info
        ≡ (if d.printer.eos == 0 then empty else (d.printer.str_buf d.printer.act_string).info)
    pub next :
        d'.printer.act_string
        ≡ (if d.printer.eos == 0 then (d.printer.act_string + 1) % 5 else d.printer.act_string)

  delete_end :
      (d : Device)
      → d.printer.kbd_status ≡ delete
      → d.printer.c_count ≡ 0
      → Deleted d (print_update b d)
  unfolding print_update status_step delete_step print_release_key
  delete_end d st z = rw st (record {
    status = ground arith;
    count = ground arith;
    no_key = ground arith;
    given_up = ground arith;
    next = ground arith;
  })

  -- From the state DELETE, with `n` characters counted: the reports are those of `n` backspaces, each
  -- down and up, and the call after them ends the deletion.
  pub backspaces_lem :
      (n : ℕ) (d : Device)
      → d.printer.kbd_status ≡ delete
      → d.printer.c_count ≡ n
      → (strokes b n d ≡ backspaces d.eeprom d.printer.report_buffer.reportid n)
        × Deleted d (print_update b (after_strokes b n d))
  unfolding strokes after_strokes backspaces
  backspaces_lem zero d st e = (refl, delete_end d st e)
  backspaces_lem (suc n) d st e =
      let pos : 0 < d.printer.c_count = omega arith in
      let e1 = delete_down d st pos in
      let e2 = delete_up d st pos in
      let d2 = on_printer (down_up d) d in
      let (rest, v) = backspaces_lem n d2 refl (omega arith) in
      (
        (λ i. (e1 i).printer.report_buffer ∷ (e2 i).printer.report_buffer ∷ strokes b n (e2 i))
            ∙ ap
                (λ r.
                  key_down b d.eeprom d.printer.report_buffer.reportid 0x08
                  ∷ key_up b d.printer.report_buffer.reportid
                  ∷ r)
                rest,
        rw e2 (record {
          status = v.status;
          count = v.count;
          no_key = v.no_key;
          given_up = v.given_up;
          next = v.next;
        }),
      )

  -- Nothing is half-typed: after the backspaces a call releases the keys, and the ring is as before.
  abbrev pub cleared : Printer → Printer
  cleared p = record p {
    report_buffer = key_up b p.report_buffer.reportid;
    c_count = 0;
    kbd_status = released;
  }

  pub print_update-cleared :
      (n : ℕ) (d : Device)
      → d.printer.kbd_status ≡ delete
      → d.printer.c_count ≡ n
      → d.printer.eos ≡ 1
      → print_update b (after_strokes b n d) ≡ on_printer cleared d
  unfolding after_strokes print_update status_step delete_step print_release_key
  print_update-cleared zero d st e over = rw st (ground arith)
  print_update-cleared (suc n) d st e over =
      let pos : 0 < d.printer.c_count = omega arith in
      ap (λ x. print_update b (after_strokes b n x)) (delete_up d st pos)
      ∙ print_update-cleared n (on_printer (down_up d) d) refl (omega arith) over
