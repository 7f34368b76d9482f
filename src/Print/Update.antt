-- ===== src/Print/Update.antt =====
-- printUpdate of print.c: one step of the keyboard, made before each keyboard report is sent.
use memtype.Base.{ℕ, ◌+◌, ◌-◌, ◌%◌, ◌&&◌, not, ◌==◌, ltb, if◌then◌else◌, add8, add16}
use memtype.State.{
  Device, on_printer, Printer, Info, empty, ram, flash, Ptr, null, user_text, plain, empty_str,
  flash_at, KbdStatus, init, pressed, released, idle, delete, delete_pressed,
}
use memtype.Board.{Board}
use memtype.Print.{strbuf_size, act, set_act, is_empty, print_press_key, print_release_key}
use memtype.Crd.Apply.{crd_apply}

abbrev pub synchronous_idle_key : ℕ
synchronous_idle_key = 0x16

abbrev pub idle_timeout : ℕ
idle_timeout = 50

abbrev pub init_debounce : ℕ
init_debounce = 50

-- strPtr++
unfoldable pub next_ptr : Ptr → Ptr
next_ptr (null i) = null (add16 i 1)
next_ptr (user_text i) = user_text (i + 1)
next_ptr (plain i) = plain (i + 1)
next_ptr (empty_str i) = empty_str (i + 1)
next_ptr (flash_at a) = flash_at (add16 a 1)

-- if (len > 0) len--, on the entry that is being typed.
abbrev pub count_down : Printer → Printer
count_down p = let s = act p in if ltb 0 s.len then set_act (record s { len = s.len - 1 }) p else p

-- strBuf[actString].info = EMPTY
abbrev pub free_act : Printer → Printer
free_act p = set_act (record (act p) { info = empty }) p

abbrev pub next_string : Printer → Printer
next_string p = record p { act_string = (p.act_string + 1) % strbuf_size }

module _ (b : Board) where
  open b use {keyboard_lut, beyond}

  -- *strPtr, for a string in RAM.
  unfoldable pub read_ram : Device → Ptr → ℕ
  read_ram d (user_text i) = if ltb i 16 then d.usi.user_text i else beyond d (user_text i)
  read_ram d (plain i) = if ltb i 16 then d.crd.cipher.plain i else beyond d (plain i)
  read_ram d (empty_str i) = if i == 0 then 0 else beyond d (empty_str i)
  read_ram d (null i) = beyond d (null i)
  read_ram d (flash_at a) = beyond d (flash_at a)

  -- pgm_read_byte(strPtr), for a string in flash.
  unfoldable pub read_flash : Device → Ptr → ℕ
  read_flash d (flash_at a) = d.flash a
  read_flash d (null i) = d.flash i
  read_flash d (user_text i) = beyond d (user_text i)
  read_flash d (plain i) = beyond d (plain i)
  read_flash d (empty_str i) = beyond d (empty_str i)

  unfoldable pub read_info : Info → Device → Ptr → ℕ
  unfolding read_ram read_flash
  read_info empty d p = 0
  read_info ram d p = read_ram d p
  read_info flash d p = read_flash d p

  -- The character that printUpdate reads first.
  unfoldable pub read_char : Device → ℕ
  read_char d = let s = act d.printer in read_info s.info d s.str_ptr

  unfoldable pub press : Device → ℕ → Printer → Printer
  unfolding print_press_key
  press d ascii p = print_press_key d.eeprom keyboard_lut ascii p

  -- A character of the string: typed and counted, or the pause that SYNCHRONOUS_IDLE_KEY asks for.
  unfoldable pub type_char : Device → ℕ → Printer → Printer
  unfolding next_ptr press
  type_char d ascii p =
      let s = act p in
      let p1 = set_act (record s { str_ptr = next_ptr s.str_ptr }) p in
      if ascii == synchronous_idle_key
      then record p1 { kbd_status = idle }
      else let p2 = press d ascii p1 in
        if p2.eos == 0
        then record p2 { c_count = add8 p2.c_count 1; kbd_status = pressed }
        else record p2 { eos = 0; c_count = 1; kbd_status = pressed }

  -- The end of a piece of a credential: crd.c is asked for the next one.
  unfoldable pub call_back : Device → Device
  unfolding is_empty
  call_back d =
      let d1 = crd_apply b (on_printer free_act d) in
      if is_empty (act d1.printer).info then on_printer (λ p. record p { eos = 1 }) d1 else d1

  unfoldable pub released_step : Device → ℕ → Device
  released_step d ascii =
      let s = act d.printer in
      if s.callback == 0 && ascii == 0
      then on_printer (λ p. next_string (free_act (record p { eos = 1 }))) d
      else if not (s.callback == 0) && s.len == 0
      then call_back d
      else on_printer (type_char d ascii) d

  unfoldable pub delete_step : Device → Printer → Printer
  unfolding press print_release_key
  delete_step d p =
      let pressing = press d 0x08 p in
      let erased = record (print_release_key p) { kbd_status = released } in
      if ltb 0 p.c_count
      then record pressing { c_count = pressing.c_count - 1; kbd_status = delete_pressed }
      else if erased.eos == 0
      then next_string (free_act (record erased { eos = 1 }))
      else erased

  unfoldable pub status_step : KbdStatus → ℕ → Device → Device
  unfolding print_release_key
  status_step init ascii d =
      on_printer
        (λ p.
          let waiting = print_release_key p in
          if ltb p.debounce_count init_debounce
          then record waiting { debounce_count = add8 waiting.debounce_count 1 }
          else record p { kbd_status = released; debounce_count = 0 })
        d
  status_step pressed ascii d =
      on_printer (λ p. count_down (record (print_release_key p) { kbd_status = released })) d
  status_step released ascii d = released_step d ascii
  status_step idle ascii d =
      on_printer
        (λ p.
          let waiting = print_release_key p in
          if ltb p.debounce_count idle_timeout
          then record waiting { debounce_count = add8 waiting.debounce_count 1 }
          else count_down (record p { kbd_status = released; debounce_count = 0 }))
        d
  status_step delete ascii d = on_printer (delete_step d) d
  status_step delete_pressed ascii d =
      on_printer (λ p. record (print_release_key p) { kbd_status = delete }) d

  -- printUpdate
  unfoldable pub print_update : Device → Device
  print_update d = status_step d.printer.kbd_status (read_char d) d
