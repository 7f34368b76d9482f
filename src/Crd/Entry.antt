-- ===== src/Crd/Entry.antt =====
-- The entry that CRD_apply makes for a piece, as printUpdate will find it.
use memtype.Base.{
  ℕ, zero, suc, ◌+◌, ◌-◌, ◌%◌, ◌<◌, ◌≡◌, ◌≢◌, ◌∙◌, sym, ap, subst, ◌==◌, leb, not, ◌&&◌,
  if◌then◌else◌, Bool, true, false, inl, inr, Bool-cases, Bytes, List, [], ◌∷◌, arith,
}
use memtype.State.{Device, StrPtr, Ptr, plain, empty_str, ram, on_printer, on_crd}
use memtype.Board.{Board}
use memtype.Print.{entry, act, is_empty}
use memtype.Print.Counted.{Inside, NoPause, counted}
use memtype.Print.Update.{synchronous_idle_key, call_back, free_act}
use memtype.Crd.Apply.{crd_find, decrypt_block, crd_apply}
use memtype.Crd.Fields.{slice, piece}
use memtype.Crd.Pieces.{chars, visible, Reading, apply_print-act, apply_print-same}
use memtype.Crd.Step.{buffered, size_at, applied, crd_apply-applied, size-Found, applied-chars}
use memtype.Crd.Typed.{free_act-empty, printing-Reading}

-- The string that is typed is counted, lies in its object and asks for no pause.
pub record Piece (b : Board) (d : Device) : Type 0 where
  pub p : Ptr
  pub n : ℕ
  pub string : act d.printer ≡ counted p n
  pub inside : Inside n p
  pub no_pause : NoPause b (chars b d n p)

-- What CRD_apply leaves of the printer and of the EEPROM.
pub record Kept (d d' : Device) : Type 0 where
  pub status_kept : d'.printer.kbd_status ≡ d.printer.kbd_status
  pub report_kept : d'.printer.report_buffer ≡ d.printer.report_buffer
  pub eeprom_kept : d'.eeprom ≡ d.eeprom

module _ (b : Board) where
  NoPause-visible : (cs : List ℕ) → NoPause b (visible cs) → NoPause b cs
  NoPause-visible [] h = omega arith
  NoPause-visible (c ∷ cs) h = elim (Bool-cases (c == 0)) [
    | inl nul ↦
        let z : c ≡ 0 = ground (arith, nul) in
        (λ e. omega (arith, e, z), NoPause-visible cs (rw nul at h))
    | inr seen ↦
        let (here, rest) : NoPause b (c ∷ visible cs) = rw seen at h in
        (here, NoPause-visible cs rest)
  ]

  pub crd_apply-Kept : (d : Device) → Kept d (crd_apply b d)
  unfolding crd_apply
  crd_apply-Kept d =
      let d1 = on_crd (decrypt_block b d) d in
      let buffpos = d.crd.position % 16 in
      let size = crd_find (λ i. d1.crd.cipher.plain (buffpos + i)) (16 - buffpos) in
      let e = apply_print-same buffpos size d1 in
      record {
        status_kept = ground (arith, ap (λ (x : Device). x.printer.kbd_status) e);
        report_kept = ground (arith, ap (λ (x : Device). x.printer.report_buffer) e);
        eeprom_kept = ground (arith, ap (λ (x : Device). x.eeprom) e);
      }

  pub crd_apply-counts :
      (d : Device)
      → ((crd_apply b d).printer.c_count ≡ d.printer.c_count)
        × ((crd_apply b d).printer.eos ≡ d.printer.eos)
  unfolding crd_apply
  crd_apply-counts d =
      let d1 = on_crd (decrypt_block b d) d in
      let buffpos = d.crd.position % 16 in
      let size = crd_find (λ i. d1.crd.cipher.plain (buffpos + i)) (16 - buffpos) in
      let e = apply_print-same buffpos size d1 in
      (
        ground (arith, ap (λ (x : Device). x.printer.c_count) e),
        ground (arith, ap (λ (x : Device). x.printer.eos) e),
      )

  pub call_back-Kept : (d : Device) → Kept d (call_back b d)
  unfolding call_back
  call_back-Kept d =
      let k = crd_apply-Kept (on_printer free_act d) in
      record {
        status_kept = ground (arith, k.status_kept);
        report_kept = ground (arith, k.report_kept);
        eeprom_kept = ground (arith, k.eeprom_kept);
      }

  module _ (text : Bytes) (from_field to_field : ℕ) where
    NoPause-slice :
        (n pos : ℕ)
        → ((i : ℕ) → i < n → text (pos + i) ≢ synchronous_idle_key)
        → NoPause b (slice text from_field to_field pos n)
    NoPause-slice zero pos h = omega arith
    NoPause-slice (suc n) pos h = (
      λ e. h 0 (omega arith) (ap text {x = pos + 0} {y = pos} (omega arith) ∙ e),
      NoPause-slice n (pos + 1) (λ i lt e.
          h (i + 1) (omega (arith, lt))
            (ap text {x = pos + (i + 1)} {y = pos + 1 + i} (omega arith) ∙ e)),
    )

    NoPause-piece :
        (n pos field : ℕ)
        → ((i : ℕ) → i < n → text (pos + i) ≢ synchronous_idle_key)
        → NoPause b (piece text from_field to_field pos field n)
    NoPause-piece n pos field h = elim (Bool-cases (leb from_field field)) [
      | inl wanted ↦ rw wanted (NoPause-slice n pos h)
      | inr other ↦ rw other (omega arith)
    ]

    pub applied-Piece :
        (pos field : ℕ) (d : Device)
        → d.printer.act_string < 5
        → is_empty (act d.printer).info ≡ true
        → Reading b text from_field to_field pos field d
        → pos < 256
        → ((j : ℕ) → j < 256 → text j ≢ synchronous_idle_key)
        → Piece b (applied b text from_field to_field pos d)
    applied-Piece pos field d lt free v small quiet =
        let n = size_at b text from_field to_field pos d in
        let q = pos % 16 in
        let d1 = buffered b text from_field to_field d in
        let d' = applied b text from_field to_field pos d in
        let (here, _, _) = apply_print-act b text from_field to_field q n d1 lt free in
        let (_, out) = applied-chars b text from_field to_field pos field d lt free v in
        let (le, _, _) = size-Found b text from_field to_field pos field d v in
        let said =
          NoPause-piece n pos field (λ i h. quiet (pos + i) (omega (arith, h, le, small))) in
        let silent : (p : Ptr) (k : ℕ) → act d'.printer ≡ counted p k → NoPause b (chars b d' k p) =
          λ p k e. NoPause-visible (chars b d' k p) (
            subst (NoPause b)
              (sym out ∙ ap (λ (s : StrPtr). visible (chars b d' s.len s.str_ptr)) e) said) in
        let choice : Bool → StrPtr =
          λ w. if w then entry (plain q) ram n else entry (empty_str 0) ram 1 in
        elim (Bool-cases (leb d1.crd.crd_start d1.crd.counter && not (n == 0))) [
          | inl typed ↦
              let some_there : (n == 0) ≡ false = ground (arith, typed) in
              let e =
                here
                ∙ ap choice typed
                ∙ ap (λ w. record (counted (plain q) n) { callback = if w then 0 else 1 })
                    some_there in
              record {
                p = plain q;
                n = n;
                string = e;
                inside = omega (arith, le);
                no_pause = silent (plain q) n e;
              }
          | inr skipped ↦
              let e = here ∙ ap choice skipped in
              record {
                p = empty_str 0;
                n = 1;
                string = e;
                inside = omega arith;
                no_pause = silent (empty_str 0) 1 e;
              }
        ]

    -- The next piece that printUpdate asks for.
    pub call_back-Piece :
        (pos field : ℕ) (d : Device)
        → d.printer.act_string < 5
        → Reading b text from_field to_field pos field d
        → field < to_field
        → pos < 256
        → ((j : ℕ) → j < 256 → text j ≢ synchronous_idle_key)
        → Piece b (call_back b d)
    unfolding call_back
    call_back-Piece pos field d lt v more small quiet =
        let d0 = on_printer free_act d in
        let v0 = printing-Reading b text from_field to_field free_act pos field d v in
        let free = free_act-empty b d in
        let e = crd_apply-applied b text from_field to_field pos field d0 v0 more in
        let (busy, _) = applied-chars b text from_field to_field pos field d0 lt free v0 in
        let taken = ap (λ (x : Device). is_empty (act x.printer).info) e ∙ busy in
        rw taken (subst (Piece b) (sym e) (applied-Piece pos field d0 lt free v0 small quiet))
