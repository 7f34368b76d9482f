-- ===== src/Main/Bounds/Typing.antt =====
-- printUpdate, UCP_WriteTask and the calls of the host keep the indices in bounds.
use memtype.Base.{ℕ, ◌+◌, ◌-◌, ◌%◌, ◌≤◌, ◌<◌, ap, arith}
use memtype.State.{
  Device, Printer, KbdStatus, init, pressed, released, idle, delete, delete_pressed, on_printer,
  on_crd,
}
use memtype.Board.{Board}
use memtype.Crd.Apply.{crd_apply, crd_find, decrypt_block}
use memtype.Print.Update.{
  print_update, status_step, released_step, call_back, free_act, read_char, type_char, delete_step,
}
use memtype.Main.Bounds.Defs.{InBounds, SameIndices}
use memtype.Crd.Pieces.{apply_print-same}

module _ (b : Board) where
  pub crd_apply-SameIndices : (d : Device) → SameIndices d (crd_apply b d)
  unfolding crd_apply
  crd_apply-SameIndices d =
      let d1 = on_crd (decrypt_block b d) d in
      let buffpos = d.crd.position % 16 in
      let size = crd_find (λ i. d1.crd.cipher.plain (buffpos + i)) (16 - buffpos) in
      let e = apply_print-same buffpos size d1 in
      record {
        uif_kept = ground (arith, ap (λ (x : Device). x.uif.options_index) e);
        digit_kept = ground (arith, ap (λ (x : Device). x.uif.user_input_index) e);
        place_kept = ground (arith, ap (λ (x : Device). x.usi.user_text_index) e);
        retries_kept = ground (arith, ap (λ (x : Device). x.usi.pin_retries) e);
        entry_kept = ground (arith, ap (λ (x : Device). x.printer.act_string) e);
        pause_kept = ground (arith, ap (λ (x : Device). x.printer.debounce_count) e);
      }

  call_back-InBounds : (d : Device) → InBounds d → InBounds (call_back b d)
  unfolding call_back
  call_back-InBounds d v =
      let d1 = on_printer free_act d in
      let s = crd_apply-SameIndices d1 in
      record {
        option = ground (arith, s.uif_kept, v.option);
        digit = ground (arith, s.digit_kept, v.digit);
        place = ground (arith, s.place_kept, v.place);
        retries = ground (arith, s.retries_kept, v.retries);
        entry = ground (arith, s.entry_kept, v.entry);
        pause = ground (arith, s.pause_kept, v.pause);
      }

  type_char-InBounds : (c : ℕ) (d : Device) → InBounds d → InBounds (on_printer (type_char b d c) d)
  unfolding type_char
  type_char-InBounds c d v = record {
    option = v.option;
    digit = v.digit;
    place = v.place;
    retries = v.retries;
    entry = ground (arith, v.entry);
    pause = ground (arith, v.pause);
  }

  released_step-InBounds : (c : ℕ) (d : Device) → InBounds d → InBounds (released_step b d c)
  unfolding released_step
  released_step-InBounds c d v =
      let called = call_back-InBounds d v in
      let typed = type_char-InBounds c d v in
      record {
        option = ground (arith, v.option, called.option, typed.option);
        digit = ground (arith, v.digit, called.digit, typed.digit);
        place = ground (arith, v.place, called.place, typed.place);
        retries = ground (arith, v.retries, called.retries, typed.retries);
        entry = ground (arith, v.entry, called.entry, typed.entry);
        pause = ground (arith, v.pause, called.pause, typed.pause);
      }

  -- Where only the printer changes, and of it the entry and the pause stay in bounds.
  printed :
      (d : Device) (p : Printer)
      → InBounds d
      → p.act_string < 5
      → p.debounce_count ≤ 50
      → InBounds (record d { printer = p })
  printed d p v e t = record {
    option = v.option;
    digit = v.digit;
    place = v.place;
    retries = v.retries;
    entry = e;
    pause = t;
  }

  status_step-InBounds :
      (s : KbdStatus) (c : ℕ) (d : Device) → InBounds d → InBounds (status_step b s c d)
  unfolding status_step delete_step
  status_step-InBounds init c d v =
      printed d _ v (ground (arith, v.entry)) (ground (arith, v.pause))
  status_step-InBounds pressed c d v =
      printed d _ v (ground (arith, v.entry)) (ground (arith, v.pause))
  status_step-InBounds released c d v = released_step-InBounds c d v
  status_step-InBounds idle c d v =
      printed d _ v (ground (arith, v.entry)) (ground (arith, v.pause))
  status_step-InBounds delete c d v =
      printed d _ v (ground (arith, v.entry)) (ground (arith, v.pause))
  status_step-InBounds delete_pressed c d v =
      printed d _ v (ground (arith, v.entry)) (ground (arith, v.pause))

  pub print_update-InBounds : (d : Device) → InBounds d → InBounds (print_update b d)
  unfolding print_update
  print_update-InBounds d v = status_step-InBounds d.printer.kbd_status (read_char b d) d v
