-- ===== src/Crd/Buttons.antt =====
-- A button of the menus that types a credential: what was typed before is erased first.
use memtype.Base.{
  ℕ, ◌<◌, ◌≡◌, ◌≢◌, ◌∙◌, refl, sym, ap, ap₂, subst, true, Bytes, List, ◌∷◌, ◌++◌, done, arith,
}
use memtype.State.{Device, StrPtr, KeyboardReport, right, on_printer}
use memtype.Board.{Board}
use memtype.Print.{act, is_empty, print_delete_str}
use memtype.Print.Pressed.{pressed, downs, NulSilent}
use memtype.Print.Counted.{NoPause, chars-Printing}
use memtype.Print.Delete.{backspaces, backspaces_lem, cleared, print_update-cleared}
use memtype.Print.Strokes.{strokes, after_strokes, Sends, update, Sends-++, Sends-strokes}
use memtype.Print.Update.{synchronous_idle_key, print_update}
use memtype.Main.Host.{crd_apply-same, Sends-Same}
use memtype.Crd.Apply.{crd_apply, crd_print_detail, crd_user, crd_end}
use memtype.Crd.Entry.{Piece, crd_apply-Kept, crd_apply-counts}
use memtype.Crd.Fields.{chosen}
use memtype.Crd.Fsm.{crd_fsm}
use memtype.Crd.Handed.{Deciphers-same}
use memtype.Crd.Pieces.{chars, visible, Deciphers}
use memtype.Crd.Rest.{Queued, Finished, rest_Typed}
use memtype.Crd.Started.{started, crd_apply-started}
use memtype.Crd.Step.{Next}
use memtype.Crd.Typed.{Ends, printing-Reading}

-- A report without a key adds nothing to those that go down.
pressed-up :
    (k : KeyboardReport) (rs : List KeyboardReport) → k.keycode ≡ 0 → pressed (k ∷ rs) ≡ pressed rs
pressed-up k rs e = ground (arith, e)

module _ (b : Board) where
  module _ (text : Bytes) (from_field to_field : ℕ) where
    -- Typing may start: no string waits, none is half-typed, and the credential can be read.
    pub record Ready (r : ℕ) (d : Device) : Type 0 where
      pub inside : d.printer.act_string < 5
      pub free : is_empty (act d.printer).info ≡ true
      pub over : d.printer.eos ≡ 1
      pub deciphers : Deciphers b text from_field to_field d
      pub ends : Ends b text from_field to_field r 0 0
      pub some : 0 < to_field
      pub quiet : (j : ℕ) → j < 256 → text j ≢ synchronous_idle_key
      pub silent : NulSilent b d.eeprom

    -- The deletion leaves the piece that waits as it is.
    cleared-Queued :
        (r : ℕ) (d : Device)
        → Next b text from_field to_field r 0 0 d
        → Piece b d
        → Queued b text from_field to_field r 0 0 (on_printer (cleared b) d)
    cleared-Queued r d x q =
        let d1 = on_printer (cleared b) d in
        let same = chars-Printing b q.n q.p d d1 q.inside refl in
        let read : StrPtr → List ℕ = λ s. visible (chars b d1 s.len s.str_ptr) in
        let read0 : StrPtr → List ℕ = λ s. visible (chars b d s.len s.str_ptr) in
        let again : read0 (act d.printer) ≡ read (act d.printer) =
          ap read0 q.string ∙ ap visible (sym same) ∙ ap read (sym q.string) in
        record {
          next = record {
            pos' = x.pos';
            field' = x.field';
            r' = x.r';
            reading =
                printing-Reading b text from_field to_field (cleared b) x.pos' x.field' d x.reading;
            sum = x.sum;
            less = x.less;
            nuls_left = x.nuls_left;
            busy = x.busy;
            inside = x.inside;
            handed =
                x.handed
                ∙ ap (λ l. l ++ chosen text from_field to_field x.r' x.pos' x.field') again;
          };
          piece = record {
            p = q.p;
            n = q.n;
            string = q.string;
            inside = q.inside;
            no_pause = subst (NoPause b) (sym same) q.no_pause;
          };
          status = refl;
          up = refl;
        }

    -- The deletion of `n` characters before the credential is typed.
    pub crd_print_detail-erases :
        (r n : ℕ) (d : Device)
        → Ready r d
        → d.printer.c_count ≡ n
        → (rs : List KeyboardReport) × (d' : Device) × Sends b
            (crd_print_detail b from_field to_field (on_printer print_delete_str d))
            (backspaces b d.eeprom d.printer.report_buffer.reportid n ++ rs)
            d'
          × (pressed rs
              ≡ pressed (
                  downs b d.eeprom d.printer.report_buffer.reportid
                    (chosen text from_field to_field r 0 0)))
          × Finished b text from_field to_field d'
          × (d'.flash ≡ d.flash)
          × (d'.eeprom ≡ d.eeprom)
    unfolding crd_print_detail
    crd_print_detail-erases r n d h count =
        let d0 = started b text from_field to_field (on_printer print_delete_str d) in
        let dA = crd_apply b d0 in
        let (next, piece) =
          crd_apply-started b text from_field to_field r (on_printer print_delete_str d) h.inside
            h.free
            (Deciphers-same b text from_field to_field d (on_printer print_delete_str d) refl refl
              refl h.deciphers)
            h.ends h.some h.quiet in
        let k = crd_apply-Kept b d0 in
        let (count_kept, eos_kept) = crd_apply-counts b d0 in
        let id_kept = ap (λ (x : KeyboardReport). x.reportid) k.report_kept in
        let (keys_sent, _) = backspaces_lem b n dA k.status_kept (count_kept ∙ count) in
        let erased =
          print_update-cleared b n dA k.status_kept (count_kept ∙ count) (eos_kept ∙ h.over) in
        let (rs, d', sent, same, fin) =
          rest_Typed b text from_field to_field r d.printer.report_buffer.reportid d.eeprom r 0 0
            (on_printer (cleared b) dA) (omega arith) h.ends.small
            (record { nul_silent = h.silent; quiet = h.quiet; byte = h.ends.byte })
            (cleared-Queued r dA next piece) k.eeprom_kept id_kept in
        let last = print_update b (after_strokes b n dA) in
        let rest : Sends b (after_strokes b n dA) (last.printer.report_buffer ∷ rs) d' =
          update (subst (λ x. Sends b x rs d') (sym erased) sent) in
        let bs : strokes b n dA ≡ backspaces b d.eeprom d.printer.report_buffer.reportid n =
          keys_sent ∙ ap₂ (λ x y. backspaces b x y n) k.eeprom_kept id_kept in
        let all =
          subst (λ l. Sends b dA (l ++ (last.printer.report_buffer ∷ rs)) d') bs
            (Sends-++ b (Sends-strokes b n dA) rest) in
        let up : last.printer.report_buffer.keycode ≡ 0 =
          ap (λ (x : Device). x.printer.report_buffer.keycode) erased in
        let (_, fl, ee, _) = Sends-Same b all in
        let (_, fl0, _, _) = crd_apply-same b d0 in
        (
          last.printer.report_buffer ∷ rs,
          d',
          all,
          pressed-up last.printer.report_buffer rs up ∙ same,
          fin,
          fl ∙ fl0,
          ee ∙ k.eeprom_kept,
        )

  -- In the menu of credentials the right button erases the `n` characters that are counted, by as many
  -- backspaces, and then types the whole credential: the other keys that go down are those of the
  -- characters of its four fields, in order, and both memories are as before. So it is where no string
  -- waits or is half-typed, the index of the ring is inside it, the credential deciphers to a text that
  -- is shorter than 256 bytes, has the four fields and asks for no pause, and NUL has no key.
  pub crd_fsm-reports :
      (text : Bytes) (r n : ℕ) (d : Device)
      → Ready text crd_user crd_end r d
      → d.printer.c_count ≡ n
      → (d1 : Device) × (rs : List KeyboardReport) × (d' : Device) × (crd_fsm b right d ≡ done d1)
        × Sends b d1 (backspaces b d.eeprom d.printer.report_buffer.reportid n ++ rs) d'
        × (pressed rs
            ≡ pressed (
                downs b d.eeprom d.printer.report_buffer.reportid
                  (chosen text crd_user crd_end r 0 0)))
        × Finished b text crd_user crd_end d'
        × (d'.flash ≡ d.flash)
        × (d'.eeprom ≡ d.eeprom)
  unfolding crd_fsm
  crd_fsm-reports text r n d h count =
      let (rs, d', sent, same, fin, fl, ee) =
        crd_print_detail-erases text crd_user crd_end r n d h count in
      (_, rs, d', refl, sent, same, fin, fl, ee)
