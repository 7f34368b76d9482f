-- ===== src/Print/Counted/Character.antt =====
-- One character of a counted string: its key down at one call of printUpdate, and up at the next.
use memtype.Base.{
  ℕ, suc, ◌+◌, ◌-◌, ◌<◌, ◌≤◌, ◌≡◌, ◌≢◌, ◌∙◌, refl, ap, ap₂, ◌==◌, ltb, if◌then◌else◌, add8, arith,
}
use memtype.State.{
  Device, Printer, StrPtr, Ptr, null, user_text, plain, empty_str, flash_at, ram, released, pressed,
  on_printer,
}
use memtype.Board.{Board}
use memtype.Print.{act, set_act, print_release_key}
use memtype.Print.Update.{
  print_update, released_step, type_char, status_step, next_ptr, read_char, read_info, read_ram,
  count_down, press, call_back, synchronous_idle_key,
}
use memtype.Print.Typing.{act-set_act, step_up}
use memtype.Print.Strokes.{key_down, key_up}

-- `n` characters from `p` on are inside their object.
abbrev pub Inside : ℕ → Ptr → Type 0
Inside n (user_text i) = i + n ≤ 16
Inside n (plain i) = i + n ≤ 16
Inside n (empty_str i) = i + n ≤ 1
Inside n (null i) = n < 0
Inside n (flash_at a) = n < 0

pub Inside-next_ptr : (n : ℕ) (p : Ptr) → Inside (suc n) p → Inside n (next_ptr p)
unfolding next_ptr
Inside-next_ptr n (user_text i) h = omega (arith, h)
Inside-next_ptr n (plain i) h = omega (arith, h)
Inside-next_ptr n (empty_str i) h = omega (arith, h)
Inside-next_ptr n (null i) h = absurd (omega (arith, h))
Inside-next_ptr n (flash_at a) h = absurd (omega (arith, h))

-- An entry with `n` characters left.
abbrev pub counted : Ptr → ℕ → StrPtr
counted p n = record { str_ptr = p; info = ram; len = n; callback = 1 }

module _ (b : Board) where
  -- Only the printer is other.
  abbrev pub Printing : Device → Device → Type 0
  Printing d d' = d' ≡ record d { printer = d'.printer }

  pub read_ram-Printing :
      (n : ℕ) (p : Ptr) (d d' : Device)
      → Inside (suc n) p
      → Printing d d'
      → read_ram b d' p ≡ read_ram b d p
  unfolding read_ram
  read_ram-Printing n (user_text i) d d' h e =
      ground (arith, h, ap (λ (x : Device). x.usi.user_text i) e)
  read_ram-Printing n (plain i) d d' h e =
      ground (arith, h, ap (λ (x : Device). x.crd.cipher.plain i) e)
  read_ram-Printing n (empty_str i) d d' h e = ground (arith, h)
  read_ram-Printing n (null i) d d' h e = absurd (omega (arith, h))
  read_ram-Printing n (flash_at a) d d' h e = absurd (omega (arith, h))

  pub record Counted (p : Ptr) (n : ℕ) (d : Device) : Type 0 where
    pub status : d.printer.kbd_status ≡ released
    pub string : act d.printer ≡ counted p n

  read_char-ram :
      (p : Ptr) (n : ℕ) (d : Device) → act d.printer ≡ counted p n → read_char b d ≡ read_ram b d p
  unfolding read_char read_info
  read_char-ram p n d h =
      ap₂ (λ i x. read_info b i d x) (ap (λ (s : StrPtr). s.info) h)
        (ap (λ (s : StrPtr). s.str_ptr) h)

  -- The printer with the key of a character down, and up again.
  abbrev pub down_printer : Ptr → ℕ → Device → Printer → Printer
  down_printer p n d x =
      record (press b d (read_ram b d p) (set_act (counted (next_ptr p) (suc n)) x)) {
        eos = 0;
        c_count = if x.eos == 0 then add8 x.c_count 1 else 1;
        kbd_status = pressed;
      }

  abbrev pub up_printer : Ptr → ℕ → Device → Printer → Printer
  up_printer p n d x =
      set_act (counted (next_ptr p) n)
        (record (print_release_key (down_printer p n d x)) { kbd_status = released })

  type_char-counted :
      (p : Ptr) (n : ℕ) (d : Device)
      → act d.printer ≡ counted p (suc n)
      → read_ram b d p ≢ synchronous_idle_key
      → type_char b d (read_ram b d p) d.printer ≡ down_printer p n d d.printer
  unfolding type_char press
  type_char-counted p n d h ni =
      let typed : StrPtr → Printer = λ s.
        let p1 = set_act (record s { str_ptr = next_ptr s.str_ptr }) d.printer in
        let p2 = press b d (read_ram b d p) p1 in
        if p2.eos == 0
        then record p2 { c_count = add8 p2.c_count 1; kbd_status = pressed }
        else record p2 { eos = 0; c_count = 1; kbd_status = pressed } in
      let first : type_char b d (read_ram b d p) d.printer ≡ typed (act d.printer) =
        ground (arith, ni) in
      first ∙ ap typed h ∙ ground arith

  released_step-counted :
      (c n : ℕ) (d : Device)
      → (act d.printer).callback ≡ 1
      → (act d.printer).len ≡ suc n
      → released_step b d c ≡ on_printer (type_char b d c) d
  unfolding released_step
  released_step-counted c n d ec el = ground (arith, ec, el)

  released_step-over :
      (c : ℕ) (d : Device)
      → (act d.printer).callback ≡ 1
      → (act d.printer).len ≡ 0
      → released_step b d c ≡ call_back b d
  unfolding released_step
  released_step-over c d ec el = ground (arith, ec, el)

  -- Behind its last character, the next call asks crd.c for the next piece.
  pub print_update-call_back :
      (d : Device)
      → d.printer.kbd_status ≡ released
      → (act d.printer).callback ≡ 1
      → (act d.printer).len ≡ 0
      → print_update b d ≡ call_back b d
  unfolding print_update status_step
  print_update-call_back d st ec el =
      ap (λ k. status_step b k (read_char b d) d) st ∙ released_step-over (read_char b d) d ec el

  pub print_update-down :
      (p : Ptr) (n : ℕ) (d : Device)
      → Counted p (suc n) d
      → read_ram b d p ≢ synchronous_idle_key
      → print_update b d ≡ on_printer (down_printer p n d) d
  unfolding print_update status_step
  print_update-down p n d v ni =
      ap₂ (λ k c. status_step b k c d) v.status (read_char-ram p (suc n) d v.string)
      ∙ released_step-counted (read_ram b d p) n d (ap (λ (s : StrPtr). s.callback) v.string)
          (ap (λ (s : StrPtr). s.len) v.string)
      ∙ ap (λ x. record d { printer = x }) (type_char-counted p n d v.string ni)

  count_down-counted :
      (p : Ptr) (n : ℕ) (x : Printer)
      → act x ≡ counted p (suc n)
      → count_down x ≡ set_act (counted p n) x
  count_down-counted p n x e =
      let counting : StrPtr → Printer =
        λ s. if ltb 0 s.len then set_act (record s { len = s.len - 1 }) x else x in
      let less : counting (counted p (suc n)) ≡ set_act (counted p n) x = ground arith in
      ap counting e ∙ less

  pub print_update-up :
      (p : Ptr) (n : ℕ) (d : Device)
      → Counted p (suc n) d
      → read_ram b d p ≢ synchronous_idle_key
      → print_update b (print_update b d) ≡ on_printer (up_printer p n d) d
  unfolding press print_release_key
  print_update-up p n d v ni =
      ap (print_update b) (print_update-down p n d v ni)
      ∙ step_up b (on_printer (down_printer p n d) d) refl
      ∙ ap (λ x. record d { printer = x })
          (count_down-counted (next_ptr p) n
            (record (print_release_key (down_printer p n d d.printer)) { kbd_status = released })
            (act-set_act (counted (next_ptr p) (suc n)) d.printer))

  -- The next character is to be typed.
  pub up-Counted :
      (p : Ptr) (n : ℕ) (d : Device) → Counted (next_ptr p) n (on_printer (up_printer p n d) d)
  unfolding press print_release_key
  up-Counted p n d = record {
    status = refl;
    string =
        act-set_act (counted (next_ptr p) n)
          (record (print_release_key (down_printer p n d d.printer)) { kbd_status = released });
  }

  pub up-same :
      (p : Ptr) (n : ℕ) (d : Device)
      → let d2 = on_printer (up_printer p n d) d in
        (d2.printer.act_string ≡ d.printer.act_string)
        × (d2.printer.report_buffer.reportid ≡ d.printer.report_buffer.reportid)
  unfolding press print_release_key
  up-same p n d = (refl, refl)

  pub first_reports :
      (p : Ptr) (n : ℕ) (d : Device)
      → let id = d.printer.report_buffer.reportid in
        ((on_printer (down_printer p n d) d).printer.report_buffer
          ≡ key_down b d.eeprom id (read_ram b d p))
        × ((on_printer (up_printer p n d) d).printer.report_buffer ≡ key_up b id)
  unfolding press print_release_key
  first_reports p n d = (refl, refl)
