-- ===== src/Print/Strings.antt =====
-- A string in flash is typed: two reports for each character, and none too few or too many.
use memtype.Base.{
  ℕ, zero, suc, ◌+◌, ◌%◌, ◌<◌, ◌≡◌, ◌≢◌, ◌∙◌, refl, sym, ap, ap₂, subst, subst₃, add8, ◌==◌,
  if◌then◌else◌, Bytes, ◌∷◌, add16, arith,
}
use memtype.State.{Device, empty, released, on_printer}
use memtype.Board.{Board}
use memtype.Crd.Eos.{Text, Text-head, Text-tail}
use memtype.Print.{print_release_key}
use memtype.Print.Update.{print_update, next_string, free_act, press, synchronous_idle_key}
use memtype.Print.Typing.{Typing, up_printer, up_printer-Typing, end_step}
use memtype.Print.Strokes.{key_down, key_up, keystrokes, strokes, after_strokes, strokes-step}

module _ (b : Board) where
  -- No character of the text asks for a pause.
  abbrev pub NoIdle : Bytes → ℕ → ℕ → Type 0
  NoIdle f a n = (i : ℕ) → i < n → f (a + i) ≢ synchronous_idle_key

  -- What is left after `n` characters of a string at `a`, with `c` of them counted.
  pub record Typed (d d' : Device) (a c : ℕ) : Type 0 where
    pub typing : Typing b a d'
    pub flash_kept : d'.flash ≡ d.flash
    pub eeprom_kept : d'.eeprom ≡ d.eeprom
    pub eos_cleared : d'.printer.eos ≡ 0
    pub counted : d'.printer.c_count ≡ c % 256
    pub act_kept : d'.printer.act_string ≡ d.printer.act_string
    pub others_kept :
        (j : ℕ) → j ≢ d.printer.act_string → d'.printer.str_buf j ≡ d.printer.str_buf j
    pub released_key : d'.printer.report_buffer ≡ key_up b d.printer.report_buffer.reportid

  moved :
      {d x x' : Device} {a a' c c' : ℕ}
      → x' ≡ x
      → a ≡ a'
      → c ≡ c'
      → Typed d x a c
      → Typed d x' a' c'
  moved {d} ex ea ec t = subst₃ (Typed d) (sym ex) ea ec t

  eos-up : (a : ℕ) (d : Device) → (on_printer (up_printer b a d) d).printer.eos ≡ 0
  unfolding press print_release_key
  eos-up a d = refl

  id-up :
      (a : ℕ) (d : Device)
      → (on_printer (up_printer b a d) d).printer.report_buffer.reportid
        ≡ d.printer.report_buffer.reportid
  unfolding press print_release_key
  id-up a d = refl

  act_string-up :
      (a : ℕ) (d : Device)
      → (on_printer (up_printer b a d) d).printer.act_string ≡ d.printer.act_string
  unfolding press print_release_key
  act_string-up a d = refl

  str_buf-up :
      (a : ℕ) (d : Device) (j : ℕ)
      → j ≢ d.printer.act_string
      → (on_printer (up_printer b a d) d).printer.str_buf j ≡ d.printer.str_buf j
  unfolding press print_release_key
  str_buf-up a d j ne = ground (arith, ne)

  report-up :
      (a : ℕ) (d : Device)
      → let r = (on_printer (up_printer b a d) d).printer.report_buffer in r ≡ key_up b r.reportid
  unfolding press print_release_key
  report-up a d = refl

  count-up :
      (a : ℕ) (d : Device)
      → (on_printer (up_printer b a d) d).printer.c_count
        ≡ (if d.printer.eos == 0 then add8 d.printer.c_count 1 else 1)
  unfolding press print_release_key
  count-up a d = refl

  counted-up :
      (a c : ℕ) (d : Device)
      → d.printer.eos ≡ 0
      → d.printer.c_count ≡ c % 256
      → (on_printer (up_printer b a d) d).printer.c_count ≡ (c + 1) % 256
  counted-up a c d e0 ec = count-up a d ∙ ground arith

  -- The device after the first character.
  abbrev next : ℕ → Device → Device
  next a d = on_printer (up_printer b a d) d

  next-Typing : (a n : ℕ) (d : Device) → Text d.flash a (suc n) → Typing b (a + 1) (next a d)
  next-Typing a n d txt =
      subst (λ x. Typing b x (next a d)) (omega (arith, txt.inside)) (up_printer-Typing b a d)

  next-NoIdle : (a n : ℕ) (d : Device) → NoIdle d.flash a (suc n) → NoIdle d.flash (a + 1) n
  next-NoIdle a n d ni i h z =
      ni (i + 1) (omega arith) (ap d.flash {x = a + (i + 1)} {y = a + 1 + i} (omega arith) ∙ z)

  -- What `n` characters at `a` come to, with `c` of them counted at the end.
  abbrev pub AsTyped : ℕ → ℕ → ℕ → Device → Type 0
  AsTyped n a c d =
      (strokes b n d ≡ keystrokes b d.flash d.eeprom d.printer.report_buffer.reportid a n)
      × Typed d (after_strokes b n d) (a + n) (c + n)

  strokes-cons :
      (n a c : ℕ) (d : Device)
      → Typing b a d
      → Text d.flash a (suc n)
      → NoIdle d.flash a (suc n)
      → AsTyped n (a + 1) (c + 1) (next a d)
      → AsTyped (suc n) a c d
  unfolding keystrokes
  strokes-cons n a c d v txt ni (rest, t) =
      let id = d.printer.report_buffer.reportid in
      let (now, later) =
        strokes-step b n a d v (Text-head d.flash a n txt)
          (λ z. ni 0 (omega arith) (ap d.flash {x = a + 0} {y = a} (omega arith) ∙ z)) in
      let ea : a + 1 ≡ add16 a 1 = omega (arith, txt.inside) in
      (
        now
            ∙ ap (λ r. key_down b d.eeprom id (d.flash a) ∷ key_up b id ∷ r)
                (rest ∙ ap₂ (λ i x. keystrokes b d.flash d.eeprom i x n) (id-up a d) ea),
        moved later (omega arith) (omega arith) (record {
          typing = t.typing;
          flash_kept = t.flash_kept;
          eeprom_kept = t.eeprom_kept;
          eos_cleared = t.eos_cleared;
          counted = t.counted;
          act_kept = t.act_kept ∙ act_string-up a d;
          others_kept =
              λ j ne. t.others_kept j (λ e. ne (e ∙ act_string-up a d)) ∙ str_buf-up a d j ne;
          released_key = t.released_key ∙ ap (key_up b) (id-up a d);
        }),
      )

  strokes-Typed :
      (n a c : ℕ) (d : Device)
      → Typing b a d
      → Text d.flash a n
      → NoIdle d.flash a n
      → d.printer.eos ≡ 0
      → d.printer.c_count ≡ c % 256
      → d.printer.report_buffer ≡ key_up b d.printer.report_buffer.reportid
      → AsTyped n a c d
  unfolding strokes after_strokes keystrokes
  strokes-Typed zero a c d v txt ni e0 ec up = (
    refl,
    moved {a = a} {c = c} refl (omega arith) (omega arith) (record {
      typing = v;
      flash_kept = refl;
      eeprom_kept = refl;
      eos_cleared = e0;
      counted = ec;
      act_kept = refl;
      others_kept = λ j ne. refl;
      released_key = up;
    }),
  )
  strokes-Typed (suc n) a c d v txt ni e0 ec up = strokes-cons n a c d v txt ni (
      strokes-Typed n (a + 1) (c + 1) (next a d) (next-Typing a n d txt) (Text-tail d.flash a n txt)
        (next-NoIdle a n d ni) (eos-up a d) (counted-up a c d e0 ec) (report-up a d))

  -- A whole string, its characters typed and the end not yet seen.
  pub string-Typed :
      (a n : ℕ) (d : Device)
      → Typing b a d
      → Text d.flash a (suc n)
      → NoIdle d.flash a (suc n)
      → d.printer.eos ≡ 1
      → AsTyped (suc n) a 0 d
  string-Typed a n d v txt ni e1 =
      let count : (next a d).printer.c_count ≡ 1 % 256 = count-up a d ∙ ground arith in
      strokes-cons n a 0 d v txt ni (
        strokes-Typed n (a + 1) 1 (next a d) (next-Typing a n d txt) (Text-tail d.flash a n txt)
          (next-NoIdle a n d ni) (eos-up a d) count (report-up a d))

  -- The call that sees the end.
  pub string-ended :
      (a n c : ℕ) (d d' : Device)
      → Text d.flash a n
      → Typed d d' (a + n) c
      → print_update b d' ≡ on_printer (λ p. next_string (free_act (record p { eos = 1 }))) d'
  string-ended a n c d d' txt t =
      end_step b (a + n) d' t.typing ((λ i. t.flash_kept i (a + n)) ∙ txt.nul)

  -- Typing a string of flash, from its first character on: the keyboard reports are those of its
  -- characters, each down and up, in order, and nothing else; the keys are counted for a later
  -- deletion; and the call after the last character frees the entry, turns to the next, and marks the
  -- end of a string. So it is for up to 255 characters before a NUL, none of which asks for a pause.
  pub strokes_lem :
      (a n : ℕ) (d : Device)
      → Typing b a d
      → Text d.flash a (suc n)
      → NoIdle d.flash a (suc n)
      → d.printer.eos ≡ 1
      → n < 255
      → let d' = after_strokes b (suc n) d in
        let d'' = print_update b d' in
        (strokes b (suc n) d
          ≡ keystrokes b d.flash d.eeprom d.printer.report_buffer.reportid a (suc n))
        × (d'.printer.c_count ≡ suc n)
        × (d''.printer.c_count ≡ suc n)
        × (d''.printer.eos ≡ 1)
        × ((d''.printer.str_buf d.printer.act_string).info ≡ empty)
        × (d''.printer.act_string ≡ (d.printer.act_string + 1) % 5)
        × (d''.printer.kbd_status ≡ released)
  strokes_lem a n d v txt ni e1 lt =
      let (out, t) = string-Typed a n d v txt ni e1 in
      let d' = after_strokes b (suc n) d in
      let last = string-ended a (suc n) (0 + suc n) d d' txt (moved refl refl (omega arith) t) in
      let n' : d'.printer.c_count ≡ suc n = omega (arith, t.counted) in
      (
        out,
        n',
        ap (λ x. x.printer.c_count) last ∙ n',
        ap (λ x. x.printer.eos) last,
        ap (λ x. (x.printer.str_buf d.printer.act_string).info) last ∙ ground (arith, t.act_kept),
        ap (λ x. x.printer.act_string) last ∙ ap (λ k. (k + 1) % 5) t.act_kept,
        ap (λ x. x.printer.kbd_status) last ∙ t.typing.status,
      )
