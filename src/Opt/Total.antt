-- ===== src/Opt/Total.antt =====
-- The menu of options never calls through a missing function.
use memtype.Base.{ℕ, zero, suc, ◌+◌, ◌<◌, ◌≡◌, refl, done, arith}
use memtype.State.{
  Device, Button, left, up, right, down, not_pressed, on_crd, on_printer, on_uif, opt_print_pass,
  opt_print_user,
}
use memtype.Board.{Board}
use memtype.Uif.{uif_increment, uif_decrement}
use memtype.Print.{print_delete_str}
use memtype.Crd.Apply.{crd_user, crd_pass, crd_apply, crd_print_detail}
use memtype.Opt.{
  max_opt_size, opt_apply, opt_previous, opt_next, opt_lock, opt_fsm, opt_print_user_run,
  opt_print_pass_run, call, call_entry, opt_menu_fp,
}

-- What a button leaves as it is, and the index in the menu's bounds.
pub record Kept (d d' : Device) : Type 0 where
  pub flash_kept : d'.flash ≡ d.flash
  pub eeprom_kept : d'.eeprom ≡ d.eeprom
  pub index : d'.uif.options_index < max_opt_size

module _ (b : Board) where
  crd_apply-kept :
      (d : Device)
      → ((crd_apply b d).flash ≡ d.flash)
        × ((crd_apply b d).eeprom ≡ d.eeprom)
        × ((crd_apply b d).uif ≡ d.uif)
  unfolding crd_apply
  crd_apply-kept d = (ground arith, ground arith, ground arith)

  abbrev started : ℕ → ℕ → Device → Device
  started start stop d =
      on_crd (λ c. record c { position = 0; counter = 0; crd_start = start; crd_stop = stop }) d

  crd_print_detail-Kept :
      (start stop : ℕ) (d : Device)
      → d.uif.options_index < max_opt_size
      → Kept d (crd_print_detail b start stop d)
  unfolding crd_print_detail
  crd_print_detail-Kept start stop d h =
      let (fl, ee, ui) = crd_apply-kept (started start stop d) in
      record { flash_kept = fl; eeprom_kept = ee; index = rw ui h }

  call-Kept :
      (i : ℕ) (d : Device)
      → i < max_opt_size
      → d.uif.options_index < max_opt_size
      → (d' : Device) × (call_entry b (opt_menu_fp i) d ≡ done d') × Kept d d'
  unfolding call_entry call opt_print_pass_run opt_print_user_run
  call-Kept zero d h h' =
      let d1 = on_printer print_delete_str (record d { fptr = opt_print_pass }) in
      let k = crd_print_detail-Kept crd_pass (crd_pass + 1) d1 h' in
      (_, refl, record { flash_kept = k.flash_kept; eeprom_kept = k.eeprom_kept; index = k.index })
  call-Kept (suc zero) d h h' =
      let d1 = on_printer print_delete_str (record d { fptr = opt_print_user }) in
      let k = crd_print_detail-Kept crd_user (crd_user + 1) d1 h' in
      (_, refl, record { flash_kept = k.flash_kept; eeprom_kept = k.eeprom_kept; index = k.index })
  call-Kept (suc (suc i)) d h h' = absurd (omega arith)

  opt_apply-Kept :
      (d : Device)
      → d.uif.options_index < max_opt_size
      → (d' : Device) × (opt_apply b d ≡ done d') × Kept d d'
  unfolding opt_apply
  opt_apply-Kept d h = call-Kept d.uif.options_index d h h

  -- While the menu's index is inside the menu, any button comes back from the menu's function: no
  -- call goes through a missing one, both memories are as before, and the index stays inside.
  pub opt_fsm_lem :
      (button : Button) (d : Device)
      → d.uif.options_index < max_opt_size
      → (d' : Device) × (opt_fsm b button d ≡ done d') × Kept d d'
  unfolding opt_fsm opt_previous opt_next opt_lock uif_increment uif_decrement
  opt_fsm_lem left d h = (_, refl, record { flash_kept = refl; eeprom_kept = refl; index = h })
  opt_fsm_lem up d h =
      let i = uif_increment d.uif.options_index max_opt_size in
      let d1 = on_uif (λ u. record u { options_index = i }) (on_printer print_delete_str d) in
      let (d', e, k) = opt_apply-Kept d1 (omega arith) in
      (d', e, record { flash_kept = k.flash_kept; eeprom_kept = k.eeprom_kept; index = k.index })
  opt_fsm_lem right d h = (_, refl, record { flash_kept = refl; eeprom_kept = refl; index = h })
  opt_fsm_lem down d h =
      let i = uif_decrement d.uif.options_index max_opt_size in
      let d1 = on_uif (λ u. record u { options_index = i }) d in
      let (d', e, k) = opt_apply-Kept d1 (ground arith) in
      (d', e, record { flash_kept = k.flash_kept; eeprom_kept = k.eeprom_kept; index = k.index })
  opt_fsm_lem not_pressed d h =
      (_, refl, record { flash_kept = refl; eeprom_kept = refl; index = h })
