-- ===== src/Main/Unlock/Waiting.antt =====
-- The strings that wait in the keyboard's queue while the device is locked.
use memtype.Base.{
  ℕ, suc, zero, ◌+◌, ◌≡◌, ◌≢◌, ◌<◌, inl, inr, refl, ◌∙◌, sym, ap, subst, Bytes, Bool, true, false,
  Bool-cases, ◌==◌, ==→eq, ◌&&◌, not, ltb, if◌then◌else◌, add16, arith, update, ◌%◌,
}
use memtype.State.{
  Device, StrPtr, Info, empty, ram, flash, Ptr, user_text, flash_at, Printer, Usi, KbdStatus, init,
  pressed, released, idle, delete, delete_pressed,
}
use memtype.Board.{Board}
use memtype.Print.{is_empty, print_loop, print, entry, act, strbuf_size}
use memtype.Print.Update.{
  print_update, status_step, released_step, delete_step, type_char, next_ptr, read_char, read_info,
  read_flash, read_ram, count_down, free_act, synchronous_idle_key, init_debounce, idle_timeout,
}

module _ (b : Board) (flash_bytes : Bytes) where
  -- The start of one of the three messages of uif.c and usi.c, or a place that is reached from it over
  -- bytes other than the end of a string.
  pub data Message : ℕ → Type 0 where
    first_screen : Message b.uif_init_str
    locked : Message b.locked_str
    pin_reset : Message b.pinreset_str
    further : {a : ℕ} → Message a → flash_bytes a ≢ 0 → Message (add16 a 1)

  -- What may be read from there: a free entry, one of the first ten bytes of `userText`, which the
  -- entry of the PIN uses, or a message.
  pub data Source : Info → Ptr → Type 0 where
    unused : {p : Ptr} → Source empty p
    entered : {i : ℕ} → i < 10 → Source ram (user_text i)
    message : {a : ℕ} → Message a → Source flash (flash_at a)

  -- An entry that neither types from a credential nor calls back into crd.c.
  pub record Harmless (s : StrPtr) : Type 0 where
    pub no_callback : s.callback ≡ 0
    pub source : Source s.info s.str_ptr

  abbrev pub Queue : Printer → Type 0
  Queue p = (j : ℕ) → Harmless (p.str_buf j)

  -- The digit that is entered, and the end of the string that shows it.
  abbrev pub Text : Usi → Type 0
  Text u = (u.user_text_index < 4) × (u.user_text 9 ≡ 0)

  abbrev pub Waiting : Device → Type 0
  Waiting d = Queue d.printer × Text d.usi

  -- A property of both branches.
  choose {ℓ} :
      {A : Type ℓ} (P : A → Type 0) (c : Bool) {x y : A}
      → (c ≡ true → P x)
      → (c ≡ false → P y)
      → P (if c then x else y)
  choose P true holds fails = holds refl
  choose P false holds fails = fails refl

  update-Harmless :
      (f : ℕ → StrPtr) (k : ℕ) (s : StrPtr)
      → ((j : ℕ) → Harmless (f j))
      → Harmless s
      → (j : ℕ) → Harmless (update f k s j)
  update-Harmless f k s all one j = elim (Bool-cases (j == k)) [
    | inl here ↦ rw here one
    | inr apart ↦ rw apart (all j)
  ]

  print_loop-free :
      (n cont : ℕ) (s : StrPtr) (p : Printer)
      → is_empty (p.str_buf ((p.act_string + cont) % strbuf_size)).info ≡ true
      → print_loop (suc n) cont s p
        ≡ record p { str_buf = update p.str_buf ((p.act_string + cont) % strbuf_size) s }
  unfolding print_loop
  print_loop-free n cont s p free = ground (arith, free)

  print_loop-taken :
      (n cont : ℕ) (s : StrPtr) (p : Printer)
      → is_empty (p.str_buf ((p.act_string + cont) % strbuf_size)).info ≡ false
      → print_loop (suc n) cont s p ≡ print_loop n (cont + 1) s p
  unfolding print_loop
  print_loop-taken n cont s p taken = ground (arith, taken)

  print_loop-Queue :
      (n cont : ℕ) (s : StrPtr) (p : Printer) → Harmless s → Queue p → Queue (print_loop n cont s p)
  unfolding print_loop is_empty
  print_loop-Queue zero cont s p h w = w
  print_loop-Queue (suc n) cont s p h w =
      let index = (p.act_string + cont) % strbuf_size in
      elim (Bool-cases (is_empty (p.str_buf index).info)) [
        | inl free ↦
            subst Queue (sym (print_loop-free n cont s p free))
              (update-Harmless p.str_buf index s w h)
        | inr taken ↦
            subst Queue (sym (print_loop-taken n cont s p taken))
              (print_loop-Queue n (cont + 1) s p h w)
      ]

  pub print-Queue :
      (str : Ptr) (info : Info) (p : Printer)
      → Source info str
      → Queue p
      → Queue (print str info 0 p)
  unfolding print
  print-Queue str info p s w =
      print_loop-Queue 25 0 (entry str info 0) p (record { no_callback = refl; source = s }) w

  count_down-Queue : (p : Printer) → Queue p → Queue (count_down p)
  count_down-Queue p w =
      choose Queue (ltb 0 (act p).len)
        (λ _.
          update-Harmless p.str_buf p.act_string _ w (record {
            no_callback = (w p.act_string).no_callback;
            source = (w p.act_string).source;
          }))
        (λ _. w)

  free_act-Queue : (p : Printer) → Queue p → Queue (free_act p)
  free_act-Queue p w =
      update-Harmless p.str_buf p.act_string _ w
        (record { no_callback = (w p.act_string).no_callback; source = unused })

  -- The pointer after a character.
  next-Source :
      (d : Device) (i : Info) (p : Ptr)
      → d.flash ≡ flash_bytes
      → d.usi.user_text 9 ≡ 0
      → read_info b i d p ≢ 0
      → Source i p
      → Source i (next_ptr p)
  unfolding next_ptr read_info read_flash read_ram
  next-Source d i p fl z some unused = absurd (some refl)
  next-Source d i p fl z some (entered {i = k} lt) = elim (Bool-cases (k == 9)) [
    | inl last ↦
        let at_9 : k ≡ 9 = ==→eq _ _ last in
        absurd (some (subst (λ x. read_info b ram d (user_text x) ≡ 0) (sym at_9) z))
    | inr more ↦ let below : k + 1 < 10 = ground (arith, more, lt) in entered below
  ]
  next-Source d i p fl z some (message {a} m) =
      message (further m (λ e. some (ap (λ (g : Bytes). g a) fl ∙ e)))

  no_call : {callback : ℕ} (len : ℕ) → callback ≡ 0 → (not (callback == 0) && len == 0) ≢ true
  no_call len z = ground (arith, z)

  some_char : {callback c : ℕ} → callback ≡ 0 → (callback == 0 && c == 0) ≡ false → c ≢ 0
  some_char z e = ground (arith, z, e)

  type_char-Queue :
      (d : Device)
      → d.flash ≡ flash_bytes
      → Waiting d
      → read_char b d ≢ 0
      → Queue (type_char b d (read_char b d) d.printer)
  unfolding type_char read_char
  type_char-Queue d fl (w, (_, z)) some =
      let s = act d.printer in
      let h = w d.printer.act_string in
      let moved =
        update-Harmless d.printer.str_buf d.printer.act_string
          (record s { str_ptr = next_ptr s.str_ptr }) w
          (record {
            no_callback = h.no_callback;
            source = next-Source d s.info s.str_ptr fl z some h.source;
          }) in
      choose Queue (read_char b d == synchronous_idle_key) (λ _. moved)
        (λ _. choose Queue (d.printer.eos == 0) (λ _. moved) (λ _. moved))

  released_step-Waiting :
      (d : Device) → d.flash ≡ flash_bytes → Waiting d → Waiting (released_step b d (read_char b d))
  unfolding released_step type_char read_char
  released_step-Waiting d fl (w, t) =
      let s = act d.printer in
      let h = w d.printer.act_string in
      let c = read_char b d in
      choose Waiting (s.callback == 0 && c == 0)
        (λ _. (free_act-Queue (record d.printer { eos = 1 }) w, t))
        (λ goes_on.
          choose Waiting (not (s.callback == 0) && s.len == 0)
            (λ calls. absurd (no_call s.len h.no_callback calls))
            (λ _. (type_char-Queue d fl (w, t) (some_char h.no_callback goes_on), t)))

  delete_step-Queue : (d : Device) (p : Printer) → Queue p → Queue (delete_step b d p)
  unfolding delete_step
  delete_step-Queue d p w =
      choose Queue (ltb 0 p.c_count) (λ _. w)
        (λ _. choose Queue (p.eos == 0) (λ _. free_act-Queue (record p { eos = 1 }) w) (λ _. w))

  status_step-Waiting :
      (s : KbdStatus) (d : Device)
      → d.flash ≡ flash_bytes
      → Waiting d
      → Waiting (status_step b s (read_char b d) d)
  unfolding status_step
  status_step-Waiting init d fl (w, t) =
      (choose Queue (ltb d.printer.debounce_count init_debounce) (λ _. w) (λ _. w), t)
  status_step-Waiting pressed d fl (w, t) = (count_down-Queue _ w, t)
  status_step-Waiting released d fl w = released_step-Waiting d fl w
  status_step-Waiting idle d fl (w, t) = (
    choose Queue (ltb d.printer.debounce_count idle_timeout) (λ _. w) (λ _. count_down-Queue _ w),
    t,
  )
  status_step-Waiting delete d fl (w, t) = (delete_step-Queue d d.printer w, t)
  status_step-Waiting delete_pressed d fl (w, t) = (w, t)

  pub print_update-Waiting :
      (d : Device) → d.flash ≡ flash_bytes → Waiting d → Waiting (print_update b d)
  unfolding print_update
  print_update-Waiting d fl w = status_step-Waiting d.printer.kbd_status d fl w
