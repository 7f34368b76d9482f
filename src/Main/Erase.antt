-- ===== src/Main/Erase.antt =====
-- The erasing PIN, from its confirmation over the watchdog's reset to the next check of a PIN.
use memtype.Base.{
  ℕ, ◌+◌, ◌-◌, ◌≤◌, ◌<◌, ◌≡◌, ◌↔◌, ◌∙◌, refl, sym, ap, Bytes, blit, from, true, false, done, hang,
  >>=-eq-done, arith,
}
use memtype.State.{Device, MenuState, Uif, UcpState, right, on_printer}
use memtype.Board.{Board}
use memtype.Main.{start_up}
use memtype.Osccal.{osccal_init}
use memtype.Print.{print_delete_str}
use memtype.Reset.{reset_state}
use memtype.Ucp.Lock.{ucp_init}
use memtype.Usi.Check.{pin_hash, usi_pin_check_lem}
use memtype.Usi.Fsm.{confirm_pin, usi_fsm}
use memtype.Usi.Pin.{is_erase_pin, usi_pin_check, usi_reset_pin}
use memtype.Main.Unlock.Trace.{crd_load_credential-same, done-injective}

module _ (b : Board) where
  -- The EEPROM with the hash of the flash.
  abbrev pub erased : Device → Bytes
  erased d = blit d.eeprom b.lock_hash 16 (from d.flash b.lock_hash_pgm)

  -- The end of `start_up`, after the credential is loaded.
  abbrev ready : Device → Device
  ready d =
      on_printer (λ p. record p { report_buffer = record (p.report_buffer) { reportid = 1 } })
        (osccal_init b (ucp_init d))

  ready_lem :
      (d : Device)
      → ((ready d).ucp.ucp_state ≡ UcpState.device_locked)
        × ((ready d).uif ≡ d.uif)
        × ((ready d).flash ≡ d.flash)
        × ((ready d).eeprom ≡ d.eeprom)
  unfolding osccal_init
  ready_lem d = (ground arith, ground arith, ground arith, ground arith)

  start_up-kept :
      (f e : Bytes) (osccal : ℕ) (d : Device)
      → start_up b (reset_state f e osccal) ≡ done d
      → (d.ucp.ucp_state ≡ UcpState.device_locked)
        × (d.uif.uif_state ≡ MenuState.start)
        × (d.flash ≡ f)
        × (d.eeprom ≡ e)
  unfolding start_up
  start_up-kept f e osccal d h =
      let (d1, loads, rest) = >>=-eq-done _ _ h in
      let same = crd_load_credential-same b 0 _ d1 loads in
      let last = done-injective b rest in
      let (locked, ui, fl, ee) = ready_lem d1 in
      (
        ap (λ (x : Device). x.ucp.ucp_state) (sym last) ∙ locked,
        ap (λ (x : Device). x.uif.uif_state) (sym last)
            ∙ ap (λ (u : Uif). u.uif_state) ui
            ∙ ap (λ (x : Device). x.uif.uif_state) same,
        ap (λ (x : Device). x.flash) (sym last) ∙ fl ∙ ap (λ (x : Device). x.flash) same,
        ap (λ (x : Device). x.eeprom) (sym last) ∙ ee ∙ ap (λ (x : Device). x.eeprom) same,
      )

  usi_fsm-hang :
      (d : Device)
      → d.usi.user_text_index ≡ 3
      → is_erase_pin d.usi.user_pin ≡ true
      → usi_fsm b right d ≡ hang (usi_reset_pin b (on_printer print_delete_str d))
  unfolding usi_fsm confirm_pin usi_pin_check
  usi_fsm-hang d last erasing = ground (arith, last, erasing)

  erased-from :
      (d : Device) (k : ℕ)
      → k < 16
      → b.lock_hash + 16 ≤ 65536
      → from (erased d) b.lock_hash k ≡ from d.flash b.lock_hash_pgm k
  erased-from d k h small = ground (
    arith,
    ap (from d.flash b.lock_hash_pgm) {x = b.lock_hash + k - b.lock_hash} {y = k} (omega arith),
  )

  -- Confirming the erasing PIN at its last digit never returns, and leaves both memories but for the
  -- hash in EEPROM, which is then that of the flash. When the watchdog has reset the device and it has
  -- started, it is locked on its first screen with the same memories, and the check of any other PIN
  -- returns, and says 1 exactly when the PIN encrypts to the hash of the flash. So it is if the hash
  -- lies inside the 16-bit addresses.
  pub usi_fsm-erase :
      (d later : Device) (osccal : ℕ) (pin : Bytes)
      → d.usi.user_text_index ≡ 3
      → is_erase_pin d.usi.user_pin ≡ true
      → b.lock_hash + 16 ≤ 65536
      → start_up b (reset_state d.flash (erased d) osccal) ≡ done later
      → is_erase_pin pin ≡ false
      → (spin : Device) × (r : ℕ) × (checked : Device) × (usi_fsm b right d ≡ hang spin)
        × (spin.flash ≡ d.flash)
        × (spin.eeprom ≡ erased d)
        × (later.ucp.ucp_state ≡ UcpState.device_locked)
        × (later.uif.uif_state ≡ MenuState.start)
        × (later.flash ≡ d.flash)
        × (later.eeprom ≡ erased d)
        × (usi_pin_check b pin later ≡ done (r, checked))
        × ((r ≡ 1) ↔ ((k : ℕ) → k < 16 → from d.flash b.lock_hash_pgm k ≡ pin_hash b pin later k))
  unfolding usi_reset_pin
  usi_fsm-erase d later osccal pin last erasing small up plain =
      let (locked, menu, fl, ee) = start_up-kept d.flash (erased d) osccal later up in
      let (r, checked, e, iff, _, _, _) = usi_pin_check_lem b pin later plain in
      let hash : (k : ℕ)
          → k < 16
          → from later.eeprom b.lock_hash k ≡ from d.flash b.lock_hash_pgm k =
        λ k h. ap (λ m. from m b.lock_hash k) ee ∙ erased-from d k h small in
      (
        usi_reset_pin b (on_printer print_delete_str d),
        r,
        checked,
        usi_fsm-hang d last erasing,
        refl,
        refl,
        locked,
        menu,
        fl,
        ee,
        e,
        ((λ one k h. sym (hash k h) ∙ iff.0 one k h), (λ same. iff.1 (λ k h. hash k h ∙ same k h))),
      )
