-- ===== src/Print/Strokes.antt =====
-- The calls of printUpdate two by two: a key goes down and up again.
use memtype.Base.{ℕ, zero, suc, ◌≡◌, ◌≢◌, ap, Bytes, List, [], ◌∷◌, ◌++◌, add16}
use memtype.State.{Device, KeyboardReport, on_printer}
use memtype.Board.{Board}
use memtype.Print.{modifier_of, keycode_of, print_release_key}
use memtype.Print.Update.{print_update, press, synchronous_idle_key}
use memtype.Print.Typing.{Typing, up_printer, step_down, two_steps}

module _ (b : Board) where
  -- The reports of a character, key down and key up, by the EEPROM and the report's id.
  abbrev pub key_down : Bytes → ℕ → ℕ → KeyboardReport
  key_down eeprom id c =
      let key = eeprom (add16 b.keyboard_lut c) in
      record { reportid = id; modifier = modifier_of key; keycode = keycode_of key }

  abbrev pub key_up : ℕ → KeyboardReport
  key_up id = record { reportid = id; modifier = 0; keycode = 0 }

  -- The reports of the `n` characters at flash address `a`.
  unfoldable pub keystrokes : Bytes → Bytes → ℕ → ℕ → ℕ → List KeyboardReport
  keystrokes f eeprom id a zero = []
  keystrokes f eeprom id a (suc n) =
      key_down eeprom id (f a) ∷ key_up id ∷ keystrokes f eeprom id (add16 a 1) n

  -- The reports of `n` pairs of calls of printUpdate, and the device after them.
  unfoldable pub strokes : ℕ → Device → List KeyboardReport
  strokes zero d = []
  strokes (suc n) d =
      let d1 = print_update b d in
      let d2 = print_update b d1 in
      d1.printer.report_buffer ∷ d2.printer.report_buffer ∷ strokes n d2

  unfoldable pub after_strokes : ℕ → Device → Device
  after_strokes zero d = d
  after_strokes (suc n) d = after_strokes n (print_update b (print_update b d))

  pub strokes-step :
      (n a : ℕ) (d : Device)
      → Typing b a d
      → d.flash a ≢ 0
      → d.flash a ≢ synchronous_idle_key
      → let id = d.printer.report_buffer.reportid in
        let d2 = on_printer (up_printer b a d) d in
        (strokes (suc n) d ≡ key_down d.eeprom id (d.flash a) ∷ key_up id ∷ strokes n d2)
        × (after_strokes (suc n) d ≡ after_strokes n d2)
  unfolding strokes after_strokes press print_release_key
  strokes-step n a d v nz ni =
      let e1 = step_down b a d v nz ni in
      let e2 = two_steps b a d v nz ni in
      (
        (λ i. (e1 i).printer.report_buffer ∷ (e2 i).printer.report_buffer ∷ strokes n (e2 i)),
        ap (after_strokes n) e2,
      )

  -- Calls of printUpdate from one device to another, with the reports that they make.
  pub data Sends : Device → List KeyboardReport → Device → Type 0 where
    stop : {d : Device} → Sends d [] d
    update :
        {d d' : Device} {rs : List KeyboardReport}
        → Sends (print_update b d) rs d'
        → Sends d ((print_update b d).printer.report_buffer ∷ rs) d'

  pub Sends-++ :
      {d d1 d2 : Device} {rs ss : List KeyboardReport}
      → Sends d rs d1
      → Sends d1 ss d2
      → Sends d (rs ++ ss) d2
  Sends-++ stop t = t
  Sends-++ (update s) t = update (Sends-++ s t)

  pub Sends-strokes : (n : ℕ) (d : Device) → Sends d (strokes n d) (after_strokes n d)
  unfolding strokes after_strokes
  Sends-strokes zero d = stop
  Sends-strokes (suc n) d = update (update (Sends-strokes n (print_update b (print_update b d))))
