-- ===== src/Print/Counted.antt =====
-- A counted string in RAM, as print_nStr queues it, is typed character by character.
pub mod Character
use memtype.Base.{
  ℕ, zero, suc, ◌+◌, ◌-◌, ◌<◌, ◌≤◌, ◌≡◌, ◌≢◌, ◌⊎◌, inl, inr, ◌∙◌, refl, sym, ap, ap₂, subst, ◌==◌,
  ltb, if◌then◌else◌, add8, Bytes, List, [], ◌∷◌, arith,
}
use memtype.State.{
  Device, Printer, StrPtr, Ptr, null, user_text, plain, empty_str, flash_at, ram, released, pressed,
  KeyboardReport, on_printer,
}
use memtype.Board.{Board}
use memtype.Print.{act, set_act, print_release_key}
use memtype.Print.Update.{
  print_update, released_step, type_char, status_step, next_ptr, read_char, read_info, read_ram,
  count_down, press, call_back, synchronous_idle_key,
}
use memtype.Crd.Pieces.{chars}
use memtype.Print.Typing.{act-set_act, step_up}
use memtype.Print.Strokes.{key_down, key_up, strokes, after_strokes}
pub use Character.*

module _ (b : Board) where
  -- The keys of some characters.
  abbrev pub keys : Bytes → ℕ → List ℕ → List KeyboardReport
  keys eeprom id [] = []
  keys eeprom id (c ∷ cs) = key_down b eeprom id c ∷ key_up b id ∷ keys eeprom id cs

  -- No character asks for a pause.
  abbrev pub NoPause : List ℕ → Type 0
  NoPause [] = 0 < 1
  NoPause (c ∷ cs) = (c ≢ synchronous_idle_key) × NoPause cs

  pub chars-Printing :
      (n : ℕ) (p : Ptr) (d d' : Device)
      → Inside n p
      → Printing b d d'
      → chars b d' n p ≡ chars b d n p
  chars-Printing zero p d d' h e = refl
  chars-Printing (suc n) p d d' h e =
      ap₂ (λ x xs. x ∷ xs) (read_ram-Printing b n p d d' h e)
        (chars-Printing n (next_ptr p) d d' (Inside-next_ptr n p h) e)

  -- What is left of the string when it was typed.
  pub record Done (d d' : Device) : Type 0 where
    pub printing : Printing b d d'
    pub act_kept : d'.printer.act_string ≡ d.printer.act_string
    pub id_kept : d'.printer.report_buffer.reportid ≡ d.printer.report_buffer.reportid
    pub status : d'.printer.kbd_status ≡ released
    pub callback : (act d'.printer).callback ≡ 1
    pub len : (act d'.printer).len ≡ 0
    pub up :
        (d'.printer.report_buffer ≡ d.printer.report_buffer)
        ⊎ (d'.printer.report_buffer.keycode ≡ 0)

  -- A string of print_nStr is typed: two calls of printUpdate for each of its characters, key down and
  -- key up, and then it is used up and crd.c is to be asked for more; nothing but the printer changes.
  -- So it is for a string that lies in its object and asks for no pause.
  pub strokes-keys :
      (n : ℕ) (p : Ptr) (d : Device)
      → Counted b p n d
      → Inside n p
      → NoPause (chars b d n p)
      → (strokes b n d ≡ keys d.eeprom d.printer.report_buffer.reportid (chars b d n p))
        × Done d (after_strokes b n d)
  unfolding strokes after_strokes
  strokes-keys zero p d v h ni = (
    refl,
    record {
      printing = refl;
      act_kept = refl;
      id_kept = refl;
      status = v.status;
      callback = ap (λ (s : StrPtr). s.callback) v.string;
      len = ap (λ (s : StrPtr). s.len) v.string;
      up = inl refl;
    },
  )
  strokes-keys (suc n) p d v h (ni, nis) =
      let id = d.printer.report_buffer.reportid in
      let d2 = on_printer (up_printer b p n d) d in
      let e1 = print_update-down b p n d v ni in
      let e2 = print_update-up b p n d v ni in
      let same = chars-Printing n (next_ptr p) d d2 (Inside-next_ptr n p h) refl in
      let (rest, t) =
        strokes-keys n (next_ptr p) d2 (up-Counted b p n d) (Inside-next_ptr n p h) (rw same nis) in
      let (act_up, id_up) = up-same b p n d in
      let (r1, r2) = first_reports b p n d in
      let later : strokes b n d2 ≡ keys d.eeprom id (chars b d n (next_ptr p)) =
        rest ∙ ap₂ (keys d.eeprom) id_up same in
      (
        (λ i. (e1 i).printer.report_buffer ∷ (e2 i).printer.report_buffer ∷ strokes b n (e2 i))
            ∙ (λ i. r1 i ∷ r2 i ∷ later i),
        subst (Done d) (ap (after_strokes b n) (sym e2)) (record {
          printing = t.printing;
          act_kept = t.act_kept ∙ act_up;
          id_kept = t.id_kept ∙ id_up;
          status = t.status;
          callback = t.callback;
          len = t.len;
          up = elim (t.up) [
            | inl same_report ↦ inr (ap (λ (x : KeyboardReport). x.keycode) (same_report ∙ r2))
            | inr released_key ↦ inr released_key
          ];
        }),
      )
