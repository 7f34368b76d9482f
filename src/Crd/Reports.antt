-- ===== src/Crd/Reports.antt =====
-- The keyboard reports of a credential, from CRD_printDetail to the end of its string.
use memtype.Base.{ℕ, ◌<◌, ◌≡◌, ◌≢◌, ◌∙◌, ap, true, Bytes, List, arith}
use memtype.State.{Device, KeyboardReport, released}
use memtype.Board.{Board}
use memtype.Print.{act, is_empty}
use memtype.Print.Pressed.{pressed, downs, NulSilent}
use memtype.Print.Strokes.{Sends}
use memtype.Print.Update.{synchronous_idle_key}
use memtype.Main.Host.{crd_apply-same, Sends-Same}
use memtype.Crd.Apply.{crd_apply, crd_print_detail}
use memtype.Crd.Fields.{chosen}
use memtype.Crd.Pieces.{Deciphers}
use memtype.Crd.Rest.{Queued, Finished, rest_Typed}
use memtype.Crd.Started.{started, crd_apply-started}
use memtype.Crd.Typed.{Ends}
use memtype.Crd.Entry.{crd_apply-Kept}

module _ (b : Board) (text : Bytes) (from_field to_field : ℕ) where
  -- From the start of a credential, where the printer has nothing to type and no key down, its text is
  -- shorter than 256 bytes, asks for no pause and has the chosen fields in its first `r` bytes, and the
  -- layout has no key for NUL: after some calls of printUpdate the string is over, and the keys that
  -- went down are those of the characters of the chosen fields, in order, and no others. Both memories
  -- are as before.
  pub crd_print_detail-reports :
      (r : ℕ) (d : Device)
      → d.printer.act_string < 5
      → is_empty (act d.printer).info ≡ true
      → d.printer.kbd_status ≡ released
      → d.printer.report_buffer.keycode ≡ 0
      → Deciphers b text from_field to_field d
      → Ends b text from_field to_field r 0 0
      → 0 < to_field
      → ((j : ℕ) → j < 256 → text j ≢ synchronous_idle_key)
      → NulSilent b d.eeprom
      → (rs : List KeyboardReport) × (d' : Device) × Sends b
          (crd_print_detail b from_field to_field d)
          rs
          d'
        × (pressed rs
            ≡ pressed (
                downs b d.eeprom d.printer.report_buffer.reportid
                  (chosen text from_field to_field r 0 0)))
        × Finished b text from_field to_field d'
        × (d'.flash ≡ d.flash)
        × (d'.eeprom ≡ d.eeprom)
  unfolding crd_print_detail
  crd_print_detail-reports r d lt free st up v ends some quiet silent =
      let d0 = started b text from_field to_field d in
      let (next, piece) =
        crd_apply-started b text from_field to_field r d lt free v ends some quiet in
      let k = crd_apply-Kept b d0 in
      let q : Queued b text from_field to_field r 0 0 (crd_apply b d0) = record {
        next = next;
        piece = piece;
        status = k.status_kept ∙ st;
        up = ap (λ (x : KeyboardReport). x.keycode) k.report_kept ∙ up;
      } in
      let (rs, d', sent, same, fin) =
        rest_Typed b text from_field to_field r d.printer.report_buffer.reportid d.eeprom r 0 0
          (crd_apply b d0) (omega arith) ends.small
          (record { nul_silent = silent; quiet = quiet; byte = ends.byte }) q k.eeprom_kept
          (ap (λ (x : KeyboardReport). x.reportid) k.report_kept) in
      let (_, fl, ee, _) = Sends-Same b sent in
      let (_, fl0, _, _) = crd_apply-same b d0 in
      (rs, d', sent, same, fin, fl ∙ fl0, ee ∙ k.eeprom_kept)
