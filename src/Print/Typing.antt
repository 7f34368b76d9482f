-- ===== src/Print/Typing.antt =====
-- A character of a string in flash is typed by two calls of printUpdate.
use memtype.Base.{ℕ, ◌≡◌, ◌≢◌, ◌∙◌, refl, ap, ap₂, ◌==◌, ==_refl, if◌then◌else◌, add8, add16, arith}
use memtype.State.{Device, Printer, StrPtr, flash, flash_at, released, pressed, on_printer}
use memtype.Board.{Board}
use memtype.Print.{act, set_act, print_release_key, entry}
use memtype.Print.Update.{
  print_update, next_string, free_act, released_step, type_char, status_step, next_ptr, read_char,
  read_info, read_flash, count_down, press, synchronous_idle_key,
}

pub act-set_act : (s : StrPtr) (p : Printer) → act (set_act s p) ≡ s
act-set_act s p = rw (==_refl p.act_string)

module _ (b : Board) where
  -- The keyboard is about to type the character at flash address `a`.
  pub record Typing (a : ℕ) (d : Device) : Type 0 where
    pub status : d.printer.kbd_status ≡ released
    pub string : act d.printer ≡ entry (flash_at a) flash 0

  read_char-flash :
      (a : ℕ) (d : Device) → act d.printer ≡ entry (flash_at a) flash 0 → read_char b d ≡ d.flash a
  unfolding read_char read_info read_flash
  read_char-flash a d h =
      ap₂ (λ i p. read_info b i d p) (ap (λ s. s.info) h) (ap (λ s. s.str_ptr) h)

  -- The printer with the key of a character down.
  abbrev pub down_printer : ℕ → Device → Printer → Printer
  down_printer a d p =
      record (press b d (d.flash a) (set_act (entry (flash_at (add16 a 1)) flash 0) p)) {
        eos = 0;
        c_count = if p.eos == 0 then add8 p.c_count 1 else 1;
        kbd_status = pressed;
      }

  released_step-types :
      (a c : ℕ) (d : Device)
      → act d.printer ≡ entry (flash_at a) flash 0
      → c ≢ 0
      → released_step b d c ≡ on_printer (type_char b d c) d
  unfolding released_step
  released_step-types a c d h nz =
      let h' : (act d.printer).callback ≡ 0 = ap (λ s. s.callback) h in ground arith

  released_step-end :
      (c : ℕ) (d : Device)
      → (act d.printer).callback ≡ 0
      → c ≡ 0
      → released_step b d c ≡ on_printer (λ p. next_string (free_act (record p { eos = 1 }))) d
  unfolding released_step
  released_step-end c d h z = ground arith

  type_char-flash :
      (a : ℕ) (d : Device)
      → act d.printer ≡ entry (flash_at a) flash 0
      → d.flash a ≢ synchronous_idle_key
      → type_char b d (d.flash a) d.printer ≡ down_printer a d d.printer
  unfolding type_char next_ptr press
  type_char-flash a d h ni =
      let typed : StrPtr → Printer = λ s.
        let p1 = set_act (record s { str_ptr = next_ptr s.str_ptr }) d.printer in
        let p2 = press b d (d.flash a) p1 in
        if p2.eos == 0
        then record p2 { c_count = add8 p2.c_count 1; kbd_status = pressed }
        else record p2 { eos = 0; c_count = 1; kbd_status = pressed } in
      let first : type_char b d (d.flash a) d.printer ≡ typed (act d.printer) = ground arith in
      first ∙ ap typed h ∙ ground arith

  pub step_down :
      (a : ℕ) (d : Device)
      → Typing a d
      → d.flash a ≢ 0
      → d.flash a ≢ synchronous_idle_key
      → print_update b d ≡ on_printer (down_printer a d) d
  unfolding print_update status_step
  step_down a d v nz ni =
      ap₂ (λ k c. status_step b k c d) v.status (read_char-flash a d v.string)
      ∙ released_step-types a (d.flash a) d v.string nz
      ∙ ap (λ p. record d { printer = p }) (type_char-flash a d v.string ni)

  pub step_up :
      (d : Device)
      → d.printer.kbd_status ≡ pressed
      → print_update b d
        ≡ on_printer (λ p. count_down (record (print_release_key p) { kbd_status = released })) d
  unfolding print_update status_step
  step_up d h = ground arith

  -- The printer after the key is up again.
  abbrev pub up_printer : ℕ → Device → Printer → Printer
  up_printer a d p = record (print_release_key (down_printer a d p)) { kbd_status = released }

  count_down-none : (p : Printer) → (act p).len ≡ 0 → count_down p ≡ p
  count_down-none p h = ground arith

  pub two_steps :
      (a : ℕ) (d : Device)
      → Typing a d
      → d.flash a ≢ 0
      → d.flash a ≢ synchronous_idle_key
      → print_update b (print_update b d) ≡ on_printer (up_printer a d) d
  unfolding press print_release_key
  two_steps a d v nz ni =
      ap (print_update b) (step_down a d v nz ni)
      ∙ step_up (on_printer (down_printer a d) d) refl
      ∙ ap (λ p. record d { printer = p })
          (count_down-none (up_printer a d d.printer)
            (ap (λ s. s.len) (act-set_act (entry (flash_at (add16 a 1)) flash 0) d.printer)))

  pub up_printer-Typing : (a : ℕ) (d : Device) → Typing (add16 a 1) (on_printer (up_printer a d) d)
  unfolding press print_release_key
  up_printer-Typing a d = record {
    status = refl;
    string = act-set_act (entry (flash_at (add16 a 1)) flash 0) d.printer;
  }

  -- The call that finds the string's NUL.
  pub end_step :
      (a : ℕ) (d : Device)
      → Typing a d
      → d.flash a ≡ 0
      → print_update b d ≡ on_printer (λ p. next_string (free_act (record p { eos = 1 }))) d
  unfolding print_update status_step
  end_step a d v z =
      ap₂ (λ k c. status_step b k c d) v.status (read_char-flash a d v.string)
      ∙ released_step-end (d.flash a) d (ap (λ s. s.callback) v.string) z
