-- ===== src/Main/Bounds/Loading.antt =====
-- Loading credentials, applying them and writing packets leaves the indices alone.
use memtype.Base.{
  ℕ, zero, suc, ◌+◌, ◌≡◌, refl, ap, ◌∙◌, done, ◌>>=◌, or_hang, Ends, Ends-bind, ◌-◌, ◌%◌, Ends-mono,
  or_hang-Ends, Bool-cases, inl, inr, ◌==◌, add16,
}
use memtype.State.{Device, Printer, Ptr, Info, on_crd}
use memtype.Board.{Board}
use memtype.Crd.Load.{crd_load_credential, crd_find_eos}
use memtype.Crd.Menu.{previous_loop, crd_previous, crd_next, crd_print, list_fuel}
use memtype.Print.Queue.{print-same}
use memtype.Main.Bounds.Defs.{SameIndices}

-- Only the variables of crd.c are other.
abbrev pub OtherCrd : Device → Device → Type 0
OtherCrd d d' = d' ≡ record d { crd = d'.crd }

pub OtherCrd-trans : (d d1 d2 : Device) → OtherCrd d d1 → OtherCrd d1 d2 → OtherCrd d d2
OtherCrd-trans d d1 d2 e e' = e' ∙ ap (λ (x : Device). record x { crd = d2.crd }) e

pub OtherCrd-SameIndices : (d d' : Device) → OtherCrd d d' → SameIndices d d'
OtherCrd-SameIndices d d' e = record {
  uif_kept = ap (λ (x : Device). x.uif.options_index) e;
  digit_kept = ap (λ (x : Device). x.uif.user_input_index) e;
  place_kept = ap (λ (x : Device). x.usi.user_text_index) e;
  retries_kept = ap (λ (x : Device). x.usi.pin_retries) e;
  entry_kept = ap (λ (x : Device). x.printer.act_string) e;
  pause_kept = ap (λ (x : Device). x.printer.debounce_count) e;
}

crd_print-SameIndices : (d d' : Device) → SameIndices d d' → SameIndices d (crd_print d')
crd_print-SameIndices d d' s =
    let e = print-same (Ptr.flash_at d'.crd.credential.name) Info.flash 0 d'.printer in
    record {
      uif_kept = s.uif_kept;
      digit_kept = s.digit_kept;
      place_kept = s.place_kept;
      retries_kept = s.retries_kept;
      entry_kept = ap (λ (p : Printer). p.act_string) e ∙ s.entry_kept;
      pause_kept = ap (λ (p : Printer). p.debounce_count) e ∙ s.pause_kept;
    }

module _ (b : Board) where
  pub crd_load_credential-OtherCrd :
      (c : ℕ) (d : Device) → Ends (OtherCrd d) (OtherCrd d) (crd_load_credential b c d)
  unfolding crd_load_credential
  crd_load_credential-OtherCrd c d =
      let P = OtherCrd d in
      let offset = add16 c b.credentials in
      let d1 = on_crd (λ x. record x { credential = record (x.credential) { name = offset } }) d in
      let found = or_hang d1 (crd_find_eos d.flash offset) in
      Ends-bind P (λ _. P d) P found _ (or_hang-Ends P (λ _. P d) d1 _ refl (λ off. refl))
        (λ off h. refl)

  -- The search for the previous credential.
  abbrev Found : Device → ℕ × Device → Type 0
  Found d (last, d') = OtherCrd d d'

  previous_loop-OtherCrd :
      (n current last : ℕ) (d0 d : Device)
      → OtherCrd d0 d
      → Ends (OtherCrd d0) (Found d0) (previous_loop b n current last d)
  unfolding previous_loop
  previous_loop-OtherCrd zero current last d0 d e = e
  previous_loop-OtherCrd (suc n) current last d0 d e =
      elim (Bool-cases (d.crd.credential.next == current)) [
        | inl found ↦ rw (found, previous_loop) e
        | inr more ↦
            let n' = d.crd.credential.next in
            let P = OtherCrd d0 in
            let loads =
              Ends-mono (OtherCrd d) (OtherCrd d) P P (crd_load_credential b n' d)
                (λ d1 h. OtherCrd-trans d0 d d1 e h) (λ d1 h. OtherCrd-trans d0 d d1 e h)
                (crd_load_credential-OtherCrd n' d) in
            rw (more, previous_loop)
              (Ends-bind P P (Found d0) (crd_load_credential b n' d) _ loads
                (λ d1 h. previous_loop-OtherCrd n current n' d0 d1 h))
      ]

  -- A credential is loaded and its name printed.
  printed :
      (c : ℕ) (d d1 : Device)
      → OtherCrd d d1
      → Ends
          (SameIndices d)
          (SameIndices d)
          (crd_load_credential b c d1 >>= λ d2. done (crd_print d2))
  printed c d d1 e =
      Ends-bind (SameIndices d) (OtherCrd d) (SameIndices d) (crd_load_credential b c d1) _
        (Ends-mono (OtherCrd d1) (OtherCrd d1) (SameIndices d) (OtherCrd d)
          (crd_load_credential b c d1)
          (λ d2 h. OtherCrd-SameIndices d d2 (OtherCrd-trans d d1 d2 e h))
          (λ d2 h. OtherCrd-trans d d1 d2 e h) (crd_load_credential-OtherCrd c d1))
        (λ d2 h. crd_print-SameIndices d d2 (OtherCrd-SameIndices d d2 h))

  pub crd_previous-SameIndices :
      (d : Device) → Ends (SameIndices d) (SameIndices d) (crd_previous b d)
  unfolding crd_previous
  crd_previous-SameIndices d =
      let current = (d.crd.credential.name + 65536 - b.credentials) % 65536 in
      Ends-bind (SameIndices d) (Found d) (SameIndices d) (previous_loop b list_fuel current 0 d) _
        (Ends-mono (OtherCrd d) (Found d) (SameIndices d) (Found d)
          (previous_loop b list_fuel current 0 d) (OtherCrd-SameIndices d) (λ r h. h)
          (previous_loop-OtherCrd list_fuel current 0 d d refl))
        (λ (last, d1) e. printed last d d1 e)

  pub crd_next-SameIndices : (d : Device) → Ends (SameIndices d) (SameIndices d) (crd_next b d)
  unfolding crd_next
  crd_next-SameIndices d = printed d.crd.credential.next d d refl
