-- ===== src/Print/Order.antt =====
-- The strings of flash that wait in the ring are typed one after the other.
use memtype.Base.{
  ℕ, suc, ◌+◌, ◌%◌, ◌<◌, ◌≡◌, ◌∙◌, refl, sym, ap, subst, Bytes, List, [], ◌∷◌, ◌++◌, arith,
}
use memtype.State.{Device, KeyboardReport, StrPtr, flash, flash_at, released, on_printer}
use memtype.Board.{Board}
use memtype.Crd.Eos.{Text}
use memtype.Print.{is_empty, entry}
use memtype.Print.Update.{print_update, next_string, free_act}
use memtype.Print.Typing.{Typing}
use memtype.Print.Strokes.{key_up, keystrokes, strokes, after_strokes}
use memtype.Print.Strings.{NoIdle, Typed, string-Typed, string-ended}
use memtype.Print.Queue.{slot}
use memtype.Print.Fifo.{Holds, Advanced, Holds-Advanced}

-- A string of `suc more` characters at a flash address.
pub record Str : Type 0 where
  pub at : ℕ
  pub more : ℕ

-- The entries of such strings, as printStr_FLASH makes them.
abbrev pub entries : List Str → List StrPtr
entries [] = []
entries (s ∷ ss) = entry (flash_at s.at) flash 0 ∷ entries ss

module _ (b : Board) where
  -- Every string has its characters, none of which asks for a pause, and then its NUL.
  abbrev pub Typeable : Bytes → List Str → Type 0
  Typeable f [] = 0 < 1
  Typeable f (s ∷ ss) = Text f s.at (suc s.more) × NoIdle b f s.at (suc s.more) × Typeable f ss

  -- The reports of the calls of printUpdate for these strings: two for each character and one for the
  -- end of each string; and the device after them.
  unfoldable pub reports : List Str → Device → List KeyboardReport
  reports [] d = []
  reports (s ∷ ss) d =
      let d' = print_update b (after_strokes b (suc s.more) d) in
      strokes b (suc s.more) d ++ (d'.printer.report_buffer ∷ reports ss d')

  unfoldable pub after_reports : List Str → Device → Device
  after_reports [] d = d
  after_reports (s ∷ ss) d = after_reports ss (print_update b (after_strokes b (suc s.more) d))

  -- The keys of the strings, one after the other; the call that ends a string repeats the last key-up.
  unfoldable pub all_keystrokes : Bytes → Bytes → ℕ → List Str → List KeyboardReport
  all_keystrokes f eeprom id [] = []
  all_keystrokes f eeprom id (s ∷ ss) =
      keystrokes b f eeprom id s.at (suc s.more) ++ (key_up b id ∷ all_keystrokes f eeprom id ss)

  -- The keyboard between two strings.
  pub record Between (d : Device) (ss : List Str) : Type 0 where
    pub status : d.printer.kbd_status ≡ released
    pub eos_set : d.printer.eos ≡ 1
    pub waiting : Holds (entries ss) d.printer
    pub typeable : Typeable d.flash ss

  -- What typing a string does to the rest.
  record Kept (d d' : Device) : Type 0 where
    flash_kept : d'.flash ≡ d.flash
    eeprom_kept : d'.eeprom ≡ d.eeprom
    last_up : d'.printer.report_buffer ≡ key_up b d.printer.report_buffer.reportid

  Typing-first : (s : Str) (ss : List Str) (d : Device) → Between d (s ∷ ss) → Typing b s.at d
  Typing-first s ss d v =
      let (act_lt, (_, here, _, _)) = v.waiting in
      record {
        status = v.status;
        string =
            ap d.printer.str_buf {x = d.printer.act_string} {y = slot d.printer 0}
              (omega (arith, act_lt))
            ∙ here;
      }

  Advanced-ended :
      (d d' : Device) (a c : ℕ)
      → Typed b d d' a c
      → Advanced d.printer (next_string (free_act (record (d'.printer) { eos = 1 })))
  unfolding is_empty
  Advanced-ended d d' a c t = record {
    act_next = ap (λ k. (k + 1) % 5) t.act_kept;
    freed = ground (arith, t.act_kept);
    others_kept = λ j ne. ground (arith, t.act_kept, t.others_kept j ne, ne);
  }

  one_string :
      (s : Str) (ss : List Str) (d : Device)
      → Between d (s ∷ ss)
      → let d' = print_update b (after_strokes b (suc s.more) d) in
        (strokes b (suc s.more) d
          ≡ keystrokes b d.flash d.eeprom d.printer.report_buffer.reportid s.at (suc s.more))
        × Kept d d'
        × Between d' ss
  one_string s ss d v =
      let (txt, ni, others) = v.typeable in
      let n = suc s.more in
      let d1 = after_strokes b n d in
      let (out, t) = string-Typed b s.at s.more d (Typing-first s ss d v) txt ni v.eos_set in
      let d2 = on_printer (λ p. next_string (free_act (record p { eos = 1 }))) d1 in
      let last = string-ended b s.at n (0 + n) d d1 txt t in
      (
        out,
        subst (Kept d) (sym last) (record {
          flash_kept = t.flash_kept;
          eeprom_kept = t.eeprom_kept;
          last_up = t.released_key;
        }),
        subst (λ x. Between x ss) (sym last)
            (record {
              status = t.typing.status;
              eos_set = refl;
              waiting =
                  Holds-Advanced (entry (flash_at s.at) flash 0) (entries ss) d.printer d2.printer
                    (Advanced-ended d d1 (s.at + n) (0 + n) t) v.waiting;
              typeable = subst (λ f. Typeable f ss) (sym t.flash_kept) others;
            }),
      )

  -- Strings of flash that wait in the ring are typed in the order in which they wait: the reports are
  -- those of their characters and none else, after which the ring is empty and both memories are as
  -- they were.
  pub reports-all_keystrokes :
      (ss : List Str) (d : Device)
      → Between d ss
      → let d' = after_reports ss d in
        (reports ss d ≡ all_keystrokes d.flash d.eeprom d.printer.report_buffer.reportid ss)
        × Between d' []
        × (d'.flash ≡ d.flash)
        × (d'.eeprom ≡ d.eeprom)
  unfolding reports after_reports all_keystrokes
  reports-all_keystrokes [] d v = (refl, v, refl, refl)
  reports-all_keystrokes (s ∷ ss) d v =
      let (out, k, v') = one_string s ss d v in
      let d' = print_update b (after_strokes b (suc s.more) d) in
      let (rest, done_v, fl, ee) = reports-all_keystrokes ss d' v' in
      let id = d.printer.report_buffer.reportid in
      let next : reports ss d' ≡ all_keystrokes d.flash d.eeprom id ss =
        rest
        ∙ (λ i. all_keystrokes (k.flash_kept i) (k.eeprom_kept i) ((k.last_up i).reportid) ss) in
      ((λ i. out i ++ (k.last_up i ∷ next i)), done_v, fl ∙ k.flash_kept, ee ∙ k.eeprom_kept)
