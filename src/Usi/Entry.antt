-- ===== src/Usi/Entry.antt =====
-- What the confirmation of a PIN does: the device unlocked, or a retry used up.
use memtype.Base.{ℕ, ◌<◌, ◌≡◌, refl, ap, from, false, done, arith}
use memtype.State.{Device, UcpState, MenuState, LedStatus, right, on_printer}
use memtype.Board.{Board}
use memtype.Print.{print_delete_str}
use memtype.Crd.Start.{crd_fsm_start}
use memtype.Usi.Pin.{is_erase_pin, spread_pin}
use memtype.Usi.Check.{pin_hash, usi_pin_check_lem}
use memtype.Usi.Fsm.{confirm_pin, usi_fsm}

-- The last digit is shown, and the PIN is not the erasing one.
pub record LastDigit (d : Device) : Type 0 where
  pub index : d.usi.user_text_index ≡ 3
  pub plain_pin : is_erase_pin d.usi.user_pin ≡ false

module _ (b : Board) where
  -- The PIN that was entered has the hash in EEPROM.
  abbrev pub IsRightPin : Device → Type 0
  IsRightPin d = (k : ℕ) → k < 16 → from d.eeprom b.lock_hash k ≡ pin_hash b d.usi.user_pin d k

  -- Confirming the right PIN at its last digit, where it is not the erasing one, enters the menu of
  -- credentials and unlocks the protocol, under the green LED and with the PIN as the cipher's key;
  -- both memories stay as they are.
  pub usi_fsm-right_pin :
      (d : Device)
      → LastDigit d
      → IsRightPin d
      → (d' : Device) × (usi_fsm b right d ≡ done d')
        × (d'.ucp.ucp_state ≡ UcpState.idle)
        × (d'.uif.uif_state ≡ MenuState.credentials)
        × (d'.leds.led ≡ LedStatus.green)
        × (d'.crd.cipher.key ≡ spread_pin d.usi.user_pin d.crd.cipher.key)
        × (d'.eeprom ≡ d.eeprom)
        × (d'.flash ≡ d.flash)
  unfolding usi_fsm confirm_pin
  usi_fsm-right_pin d v h =
      let d1 = on_printer print_delete_str d in
      let (r, d2, e, iff, same, _, key) = usi_pin_check_lem b d.usi.user_pin d1 v.plain_pin in
      let one : r ≡ 1 = iff.1 h in
      (
        crd_fsm_start d2,
        ground (arith, v.index, e, one),
        refl,
        refl,
        refl,
        key,
        ap (λ x. x.eeprom) same,
        ap (λ x. x.flash) same,
      )
