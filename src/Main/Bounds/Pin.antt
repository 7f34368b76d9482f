-- ===== src/Main/Bounds/Pin.antt =====
-- A button while the PIN is entered keeps the indices in bounds.
use memtype.Base.{ℕ, ◌≡◌, sym, ap, ◌≢◌, ==_false→ne, ◌∙◌, ◌==◌, inl, inr, Bool-cases, Ends, arith}
use memtype.State.{
  Device, Printer, Ptr, Info, Button, left, up, right, down, not_pressed, on_printer,
}
use memtype.Board.{Board}
use memtype.Print.{print, print_delete_str}
use memtype.Usi.Pin.{is_erase_pin, usi_reset_pin}
use memtype.Usi.Check.{usi_pin_check_lem, usi_pin_check-erase}
use memtype.Usi.Fsm.{
  usi_print, usi_init, usi_next, usi_previous, next_digit, wrong_pin, confirm_pin, usi_fsm,
}
use memtype.Crd.Start.{crd_fsm_start}
use memtype.Opt.{opt_fsm_start}
use memtype.Print.Queue.{print-same}
use memtype.Main.Bounds.Defs.{InBounds, SameIndices-InBounds}

module _ (b : Board) where
  -- The printer after a string was put into the queue.
  pub queued :
      (d : Device) (str : Ptr) (info : Info) (len : ℕ)
      → InBounds d
      → InBounds (on_printer (print str info len) d)
  queued d str info len v =
      let e = print-same str info len d.printer in
      record {
        option = v.option;
        digit = v.digit;
        place = v.place;
        retries = v.retries;
        entry = omega (arith, ap (λ (p : Printer). p.act_string) e, v.entry);
        pause = omega (arith, ap (λ (p : Printer). p.debounce_count) e, v.pause);
      }

  pub deleting : (d : Device) → InBounds d → InBounds (on_printer print_delete_str d)
  deleting d v = record {
    option = v.option;
    digit = v.digit;
    place = v.place;
    retries = v.retries;
    entry = v.entry;
    pause = v.pause;
  }

  usi_print-InBounds : (d : Device) → InBounds d → InBounds (usi_print b d)
  unfolding usi_print
  usi_print-InBounds d v = queued _ (Ptr.user_text 0) Info.ram 0 (record {
    option = v.option;
    digit = v.digit;
    place = v.place;
    retries = v.retries;
    entry = v.entry;
    pause = v.pause;
  })

  pub usi_init-InBounds : (d : Device) → InBounds d → InBounds (usi_init b d)
  unfolding usi_init
  usi_init-InBounds d v = queued _ (Ptr.user_text 0) Info.ram 0 (record {
    option = v.option;
    digit = omega arith;
    place = omega arith;
    retries = v.retries;
    entry = v.entry;
    pause = v.pause;
  })

  next_digit-InBounds :
      (d : Device) → InBounds d → d.usi.user_text_index ≢ 3 → InBounds (next_digit b d)
  unfolding next_digit
  next_digit-InBounds d v more = queued _ (Ptr.user_text 0) Info.ram 0 (record {
    option = v.option;
    digit = v.digit;
    place = omega (arith, v.place);
    retries = v.retries;
    entry = v.entry;
    pause = v.pause;
  })

  usi_next-InBounds : (d : Device) → InBounds d → InBounds (usi_next b d)
  unfolding usi_next
  usi_next-InBounds d v = queued _ (Ptr.user_text 0) Info.ram 0 (record {
    option = v.option;
    digit = omega arith;
    place = v.place;
    retries = v.retries;
    entry = v.entry;
    pause = v.pause;
  })

  usi_previous-InBounds : (d : Device) → InBounds d → InBounds (usi_previous b d)
  unfolding usi_previous
  usi_previous-InBounds d v = queued _ (Ptr.user_text 0) Info.ram 0 (record {
    option = v.option;
    digit = ground (arith, v.digit);
    place = v.place;
    retries = v.retries;
    entry = v.entry;
    pause = v.pause;
  })

  pub crd_fsm_start-InBounds : (d : Device) → InBounds d → InBounds (crd_fsm_start d)
  crd_fsm_start-InBounds d v = queued _ (Ptr.flash_at d.crd.credential.name) Info.flash 0 (record {
    option = v.option;
    digit = v.digit;
    place = v.place;
    retries = v.retries;
    entry = v.entry;
    pause = v.pause;
  })

  pub opt_fsm_start-InBounds : (d : Device) → InBounds d → InBounds (opt_fsm_start b d)
  unfolding opt_fsm_start
  opt_fsm_start-InBounds d v = queued _ (Ptr.flash_at b.opt_start_str) Info.flash 0 (record {
    option = omega arith;
    digit = v.digit;
    place = v.place;
    retries = v.retries;
    entry = v.entry;
    pause = v.pause;
  })

  wrong_pin-InBounds : (d : Device) → InBounds d → InBounds (wrong_pin b d)
  unfolding wrong_pin usi_reset_pin
  wrong_pin-InBounds d v =
      let e = print-same (Ptr.flash_at b.locked_str) Info.flash 0 d.printer in
      let e' = print-same (Ptr.flash_at b.pinreset_str) Info.flash 0 d.printer in
      record {
        option = ground (arith, v.option);
        digit = ground arith;
        place = ground arith;
        retries = ground (arith, v.retries);
        entry = ground (
          arith,
          v.entry,
          ap (λ (p : Printer). p.act_string) e,
          ap (λ (p : Printer). p.act_string) e',
        );
        pause = ground (
          arith,
          v.pause,
          ap (λ (p : Printer). p.debounce_count) e,
          ap (λ (p : Printer). p.debounce_count) e',
        );
      }

  -- Only the variables of crd.c and the EEPROM are other.
  elsewhere :
      (d d' : Device)
      → d' ≡ record d { eeprom = d'.eeprom; crd = d'.crd }
      → InBounds d
      → InBounds d'
  elsewhere d d' e v =
      SameIndices-InBounds d d'
        (record {
          uif_kept = ap (λ (x : Device). x.uif.options_index) e;
          digit_kept = ap (λ (x : Device). x.uif.user_input_index) e;
          place_kept = ap (λ (x : Device). x.usi.user_text_index) e;
          retries_kept = ap (λ (x : Device). x.usi.pin_retries) e;
          entry_kept = ap (λ (x : Device). x.printer.act_string) e;
          pause_kept = ap (λ (x : Device). x.printer.debounce_count) e;
        })
        v

  confirm_pin-InBounds : (d : Device) → InBounds d → Ends InBounds InBounds (confirm_pin b d)
  unfolding confirm_pin
  confirm_pin-InBounds d v = elim (Bool-cases (is_erase_pin d.usi.user_pin)) [
    | inl erasing ↦
        let (d', e, same, _, _) = usi_pin_check-erase b d.usi.user_pin d erasing in
        rw e (
          elsewhere d d'
            (same ∙ ap (λ (x : Device). record d { eeprom = d'.eeprom; crd = x.crd }) (sym same)) v)
    | inr plain ↦
        let (r, d', e, _, same, _, _) = usi_pin_check_lem b d.usi.user_pin d plain in
        let v' =
          elsewhere d d'
            (same ∙ ap (λ (x : Device). record d { eeprom = x.eeprom; crd = x.crd }) (sym same))
            v in
        elim (Bool-cases (r == 1)) [
          | inl one ↦ rw (e, one) (crd_fsm_start-InBounds d' v')
          | inr other ↦ rw (e, other) (wrong_pin-InBounds d' v')
        ]
  ]

  pub usi_fsm-InBounds :
      (button : Button) (d : Device) → InBounds d → Ends InBounds InBounds (usi_fsm b button d)
  unfolding usi_fsm
  usi_fsm-InBounds left d v = usi_init-InBounds _ (deleting d v)
  usi_fsm-InBounds up d v = usi_next-InBounds _ (deleting d v)
  usi_fsm-InBounds right d v = elim (Bool-cases (d.usi.user_text_index == 3)) [
    | inl last ↦ rw last (confirm_pin-InBounds _ (deleting d v))
    | inr more ↦ rw more (next_digit-InBounds _ (deleting d v) (==_false→ne _ _ more))
  ]
  usi_fsm-InBounds down d v = usi_previous-InBounds _ (deleting d v)
  usi_fsm-InBounds not_pressed d v = v
