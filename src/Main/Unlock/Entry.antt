-- ===== src/Main/Unlock/Entry.antt =====
-- A button while the PIN is entered, or on the first screen.
use memtype.Base.{
  ℕ, ◌+◌, ◌≤◌, ◌<◌, ◌≡◌, ◌⊎◌, inl, inr, ◌∙◌, refl, sym, ap, subst, Bool-cases, ◌==◌, ==→eq, Bytes,
  arith,
}
use memtype.State.{
  Device, Button, left, up, right, down, not_pressed, user_input, on_uif, on_printer,
}
use memtype.Board.{Board}
use memtype.Print.{print_delete_str}
use memtype.Usi.Pin.{usi_reset_pin, is_erase_pin}
use memtype.Usi.Check.{usi_pin_check_lem, usi_pin_check-erase}
use memtype.Usi.Fsm.{usi_init, usi_next, usi_previous, next_digit, confirm_pin, wrong_pin, usi_fsm}
use memtype.Main.Unlock.Waiting.{Waiting}
use memtype.Main.Unlock.Prompt.{
  usi_init-Waiting, usi_next-Waiting, usi_previous-Waiting, next_digit-Waiting, wrong_pin-Waiting,
}
use memtype.Main.Unlock.Defs.{EntryMenu, Locked, CallOutcome, kept}

module _ (b : Board) (flash eeprom : Bytes) where
  usi_init-Locked :
      (d : Device)
      → Locked b flash eeprom d
      → d.uif.uif_state ≡ user_input
      → Locked b flash eeprom (usi_init b d)
  unfolding usi_init
  usi_init-Locked d v m = record {
    state = refl;
    no_write = v.no_write;
    menu = inr m;
    waiting = usi_init-Waiting b flash d v.waiting;
    flash_kept = v.flash_kept;
    eeprom_kept = v.eeprom_kept;
  }

  wrong_pin-Locked : (d : Device) → Locked b flash eeprom d → Locked b flash eeprom (wrong_pin b d)
  unfolding wrong_pin usi_reset_pin
  wrong_pin-Locked d v = record {
    state = ground (arith, v.state);
    no_write = ground (arith, v.no_write);
    menu = subst EntryMenu {x = d.uif.uif_state} (ground arith) v.menu;
    waiting = wrong_pin-Waiting b flash d v.waiting;
    flash_kept = ground (arith, v.flash_kept);
    eeprom_kept = λ j out. ground (arith, out.0, v.eeprom_kept j out);
  }

  hung :
      (d d' : Device)
      → Locked b flash eeprom d
      → d' ≡ record d { eeprom = d'.eeprom }
      → ((j : ℕ) → (j < b.lock_hash) ⊎ (b.lock_hash + 16 ≤ j) → d'.eeprom j ≡ d.eeprom j)
      → Locked b flash eeprom d'
  hung d d' v same kept = record {
    state = ap (λ x. x.ucp.ucp_state) same ∙ v.state;
    no_write = ap (λ x. x.ucp.usb_write) same ∙ v.no_write;
    menu = subst EntryMenu (sym (ap (λ x. x.uif.uif_state) same)) v.menu;
    waiting = subst (Waiting b flash) (sym same) v.waiting;
    flash_kept = ap (λ x. x.flash) same ∙ v.flash_kept;
    eeprom_kept = λ j out. kept j out.0 ∙ v.eeprom_kept j out;
  }

  confirm_pin-Locked :
      (d : Device)
      → Locked b flash eeprom d
      → d.uif.uif_state ≡ user_input
      → d.usi.user_text_index ≡ 3
      → CallOutcome b flash eeprom d (confirm_pin b d)
  unfolding confirm_pin usi_reset_pin
  confirm_pin-Locked d v m i = elim (Bool-cases (is_erase_pin d.usi.user_pin)) [
    | inl erasing ↦
        let (d', e, same, _, kept) = usi_pin_check-erase b d.usi.user_pin d erasing in
        inr (inl (d', rw e refl, hung d d' v same kept))
    | inr plain ↦
        let (r, d2, e, iff, same, _, _) = usi_pin_check_lem b d.usi.user_pin d plain in
        elim (Bool-cases (r == 1)) [
          | inl one ↦ inr (inr (record { menu = m; index = i; right_pin = iff.0 (==→eq _ _ one) }))
          | inr other ↦ inl (
            wrong_pin b d2,
            rw (e, other) refl,
            wrong_pin-Locked d2 (
                subst (Locked b flash eeprom) (sym same) (
                  kept b flash eeprom d
                    (record d { crd = record (d.crd) { cipher = d2.crd.cipher } }) refl refl refl
                    refl v.waiting v)),
          )
        ]
  ]

  pub usi_fsm-Locked :
      (button : Button) (d : Device)
      → Locked b flash eeprom d
      → d.uif.uif_state ≡ user_input
      → CallOutcome b flash eeprom d (usi_fsm b button d)
  unfolding usi_fsm usi_next usi_previous next_digit
  usi_fsm-Locked left d v m =
      let d1 = on_printer print_delete_str d in
      inl (
        usi_init b d1,
        refl,
        usi_init-Locked d1 (kept b flash eeprom d d1 refl refl refl refl v.waiting v) m,
      )
  usi_fsm-Locked up d v m =
      let d1 = usi_next b (on_printer print_delete_str d) in
      inl (
        d1,
        refl,
        kept b flash eeprom d d1 refl refl refl refl
            (usi_next-Waiting b flash (on_printer print_delete_str d) v.waiting) v,
      )
  usi_fsm-Locked right d v m =
      let d1 = on_printer print_delete_str d in
      elim (Bool-cases (d.usi.user_text_index == 3)) [
        | inl last ↦
            rw last
              (elim (confirm_pin-Locked d1
                (kept b flash eeprom d d1 refl refl refl refl v.waiting v) m (==→eq _ _ last)) [
                  | inl returns ↦ inl returns
                  | inr (inl hangs) ↦ inr (inl hangs)
                  | inr (inr p) ↦
                      inr (inr (record { menu = m; index = p.index; right_pin = p.right_pin }))
                ])
        | inr more ↦
            let d2 = next_digit b d1 in
            inl (
              d2,
              rw more refl,
              kept b flash eeprom d d2 refl refl refl refl
                  (next_digit-Waiting b flash d1 more v.waiting) v,
            )
      ]
  usi_fsm-Locked down d v m =
      let d1 = usi_previous b (on_printer print_delete_str d) in
      inl (
        d1,
        refl,
        kept b flash eeprom d d1 refl refl refl refl
            (usi_previous-Waiting b flash (on_printer print_delete_str d) v.waiting) v,
      )
  usi_fsm-Locked not_pressed d v m = inl (d, refl, v)

  -- A button from the first screen.
  pub start-Locked :
      (d : Device)
      → Locked b flash eeprom d
      → Locked b flash eeprom (
          usi_init b
            (on_printer print_delete_str (on_uif (λ u. record u { uif_state = user_input }) d)))
  unfolding usi_init
  start-Locked d v = record {
    state = refl;
    no_write = v.no_write;
    menu = inr refl;
    waiting =
        usi_init-Waiting b flash
          (on_printer print_delete_str (on_uif (λ u. record u { uif_state = user_input }) d))
          v.waiting;
    flash_kept = v.flash_kept;
    eeprom_kept = v.eeprom_kept;
  }
