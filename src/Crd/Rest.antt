-- ===== src/Crd/Rest.antt =====
-- The keyboard reports of a credential from a piece that waits in the ring to the end of the string.
use memtype.Base.{
  ℕ, zero, suc, ◌+◌, ◌≤◌, ◌<◌, ◌≡◌, ◌≢◌, ◌∙◌, sym, ap, ap₂, subst, ltb, true, inl, inr, Bool-cases,
  Bytes, List, [], ◌∷◌, ◌++◌, arith,
}
use memtype.State.{Device, StrPtr, KeyboardReport, released}
use memtype.Board.{Board}
use memtype.Print.{act, is_empty}
use memtype.Print.Pressed.{
  pressed, pressed-++, pressed-snoc, downs, downs-++, NulSilent, pressed-keys,
}
use memtype.Print.Counted.{Counted, Done, keys, strokes-keys, print_update-call_back}
use memtype.Print.Strokes.{strokes, after_strokes, Sends, stop, update, Sends-++, Sends-strokes}
use memtype.Print.Update.{synchronous_idle_key, call_back}
use memtype.Crd.Fields.{chosen, chosen-over}
use memtype.Crd.Pieces.{chars, visible, Reading}
use memtype.Crd.Step.{Next}
use memtype.Crd.Typed.{Ends, free_act-empty, printing-Reading, call_back-more, call_back-over}
use memtype.Crd.Entry.{Piece, call_back-Kept, call_back-Piece}

module _ (b : Board) where
  module _ (text : Bytes) (from_field to_field : ℕ) where
    -- A piece waits to be typed, with the key of the last one up.
    pub record Queued (r pos field : ℕ) (d : Device) : Type 0 where
      pub next : Next b text from_field to_field r pos field d
      pub piece : Piece b d
      pub status : d.printer.kbd_status ≡ released
      pub up : d.printer.report_buffer.keycode ≡ 0

    -- The string is over, and another may follow.
    pub record Finished (d : Device) : Type 0 where
      pub status : d.printer.kbd_status ≡ released
      pub eos_set : d.printer.eos ≡ 1
      pub freed : is_empty (act d.printer).info ≡ true

    -- What the reports that lead to the end of the string come to.
    abbrev pub Typed : Bytes → ℕ → List ℕ → Device → Type 0
    Typed eeprom id cs d =
        (rs : List KeyboardReport) × (d' : Device) × Sends b d rs d'
        × (pressed rs ≡ pressed (downs b eeprom id cs))
        × Finished d'

    -- What no step changes: the layout, the report's id, and what holds of the text.
    pub record Setting (eeprom : Bytes) (id : ℕ) : Type 0 where
      pub nul_silent : NulSilent b eeprom
      pub quiet : (j : ℕ) → j < 256 → text j ≢ synchronous_idle_key
      pub byte : to_field < 256

    -- The string is over once the last chosen field was handed out.
    over_Finished :
        (pos field : ℕ) (d : Device)
        → Reading b text from_field to_field pos field d
        → to_field ≤ field
        → d.printer.kbd_status ≡ released
        → Finished (call_back b d)
    over_Finished pos field d v le st =
        let e = call_back-over b text from_field to_field pos field d v le in
        record {
          status = ap (λ (x : Device). x.printer.kbd_status) e ∙ st;
          eos_set = ap (λ (x : Device). x.printer.eos) e;
          freed = ap (λ (x : Device). is_empty (act x.printer).info) e ∙ free_act-empty b d;
        }

    -- The piece's keys and the call that asks for more.
    piece_Sends :
        (eeprom : Bytes) (id r pos field : ℕ) (d : Device)
        → Setting eeprom id
        → (q : Queued r pos field d) → d.eeprom ≡ eeprom
        → d.printer.report_buffer.reportid ≡ id
        → let cs = chars b d q.piece.n q.piece.p in
          let d1 = after_strokes b q.piece.n d in
          let d2 = call_back b d1 in
          (rs : List KeyboardReport) × Sends b d rs d2
          × (pressed rs ≡ pressed (downs b eeprom id (visible cs)))
          × Done b d d1
          × (d2.eeprom ≡ eeprom)
          × (d2.printer.report_buffer.reportid ≡ id)
          × (d2.printer.report_buffer.keycode ≡ 0)
          × (d2.printer.kbd_status ≡ released)
    piece_Sends eeprom id r pos field d s q ee ei =
        let n = q.piece.n in
        let cs = chars b d n q.piece.p in
        let counted : Counted b q.piece.p n d = record {
          status = q.status;
          string = q.piece.string;
        } in
        let (out, t) = strokes-keys b n q.piece.p d counted q.piece.inside q.piece.no_pause in
        let d1 = after_strokes b n d in
        let d2 = call_back b d1 in
        let called = print_update-call_back b d1 t.status t.callback t.len in
        let k = call_back-Kept b d1 in
        let up1 : d1.printer.report_buffer.keycode ≡ 0 = elim (t.up) [
          | inl same ↦ ap (λ (x : KeyboardReport). x.keycode) same ∙ q.up
          | inr key_is_up ↦ key_is_up
        ] in
        let up2 = ap (λ (x : KeyboardReport). x.keycode) k.report_kept ∙ up1 in
        let last : Sends b d1 (d2.printer.report_buffer ∷ []) d2 =
          subst (λ x. Sends b d1 (x.printer.report_buffer ∷ []) x) called (update stop) in
        (
          strokes b n d ++ (d2.printer.report_buffer ∷ []),
          Sends-++ b (Sends-strokes b n d) last,
          pressed-snoc (strokes b n d) d2.printer.report_buffer up2
              ∙ ap pressed (out ∙ ap₂ (λ x y. keys b x y cs) ee ei)
              ∙ pressed-keys b eeprom id cs s.nul_silent,
          t,
          k.eeprom_kept ∙ ap (λ (x : Device). x.eeprom) t.printing ∙ ee,
          ap (λ (x : KeyboardReport). x.reportid) k.report_kept ∙ t.id_kept ∙ ei,
          up2,
          k.status_kept ∙ t.status,
        )

    -- The text where CRD_apply stands, when the piece was typed.
    Done-Reading :
        (pos field : ℕ) (d d1 : Device)
        → Done b d d1
        → Reading b text from_field to_field pos field d
        → Reading b text from_field to_field pos field d1
    Done-Reading pos field d d1 t v =
        subst (Reading b text from_field to_field pos field) (sym t.printing)
          (printing-Reading b text from_field to_field (λ _. d1.printer) pos field d v)

    -- The keys of a piece, and those of the rest.
    joined :
        (eeprom : Bytes) (id r pos field : ℕ) (d : Device) (q : Queued r pos field d)
        (rs ys : List KeyboardReport)
        → let x = q.next in
          pressed rs ≡ pressed (downs b eeprom id (visible (chars b d q.piece.n q.piece.p)))
          → pressed ys
            ≡ pressed (downs b eeprom id (chosen text from_field to_field x.r' x.pos' x.field'))
          → pressed (rs ++ ys)
            ≡ pressed (downs b eeprom id (chosen text from_field to_field r pos field))
    joined eeprom id r pos field d q rs ys e e' =
        let x = q.next in
        let later = chosen text from_field to_field x.r' x.pos' x.field' in
        let now = visible (chars b d q.piece.n q.piece.p) in
        let handed : chosen text from_field to_field r pos field ≡ now ++ later =
          x.handed
          ∙ ap (λ (z : StrPtr). visible (chars b d z.len z.str_ptr) ++ later) q.piece.string in
        pressed-++ rs ys
        ∙ ap₂ (λ l m. l ++ m) e e'
        ∙ sym (pressed-++ (downs b eeprom id now) (downs b eeprom id later))
        ∙ ap pressed (sym (downs-++ b eeprom id now later))
        ∙ ap (λ l. pressed (downs b eeprom id l)) (sym handed)

    -- The reports from one queued piece to the end of the string.
    pub rest_Typed :
        (m eeprom_id : ℕ) (eeprom : Bytes) (r pos field : ℕ) (d : Device)
        → r ≤ m
        → pos + r < 256
        → Setting eeprom eeprom_id
        → Queued r pos field d
        → d.eeprom ≡ eeprom
        → d.printer.report_buffer.reportid ≡ eeprom_id
        → Typed eeprom eeprom_id (chosen text from_field to_field r pos field) d
    rest_Typed zero id eeprom r pos field d le small s q ee ei =
        absurd (omega (arith, le, q.next.less))
    rest_Typed (suc m) id eeprom r pos field d le small s q ee ei =
        let x = q.next in
        let (rs, sent, same, t, ee', ei', up, st) = piece_Sends eeprom id r pos field d s q ee ei in
        let d1 = after_strokes b q.piece.n d in
        let v1 = Done-Reading x.pos' x.field' d d1 t x.reading in
        let lt1 : d1.printer.act_string < 5 = omega (arith, t.act_kept, x.inside) in
        let small' : x.pos' + x.r' < 256 = omega (arith, small, x.sum) in
        elim (Bool-cases (ltb x.field' to_field)) [
          | inl more ↦
              let lt : x.field' < to_field = ground (arith, more) in
              let ends : Ends b text from_field to_field x.r' x.pos' x.field' = record {
                byte = s.byte;
                small = small';
                enough = x.nuls_left;
              } in
              let q' : Queued x.r' x.pos' x.field' (call_back b d1) = record {
                next =
                    call_back-more b text from_field to_field x.r' x.pos' x.field' d1 lt1 v1 ends
                      lt;
                piece =
                    call_back-Piece b text from_field to_field x.pos' x.field' d1 lt1 v1 lt
                      (omega (arith, small')) s.quiet;
                status = st;
                up = up;
              } in
              let (ys, d', sent', same', fin) =
                rest_Typed m id eeprom x.r' x.pos' x.field' (call_back b d1)
                  (omega (arith, le, x.less)) small' s q' ee' ei' in
              (
                rs ++ ys,
                d',
                Sends-++ b sent sent',
                joined eeprom id r pos field d q rs ys same same',
                fin,
              )
          | inr all ↦
              let over : to_field ≤ x.field' = ground (arith, all) in
              let nothing = chosen-over text from_field to_field x.r' x.pos' x.field' over in
              (
                rs ++ [],
                call_back b d1,
                Sends-++ b sent stop,
                joined eeprom id r pos field d q rs [] same
                    (ap (λ l. pressed (downs b eeprom id l)) (sym nothing)),
                over_Finished x.pos' x.field' d1 v1 over t.status,
              )
        ]
