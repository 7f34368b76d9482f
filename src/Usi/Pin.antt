-- ===== src/Usi/Pin.antt =====
-- usi_pinCheck and usi_resetPin of usi.c.
use memtype.Base.{
  ℕ, zero, suc, ◌+◌, ◌%◌, Bool, true, false, ◌&&◌, ◌==◌, ltb, if◌then◌else◌, Bytes, blit, from,
  Outcome, done, hang,
}
use memtype.State.{Device, on_crd}
use memtype.Board.{Board}

-- The digits of `erasePin`.
abbrev pub erase_digit : ℕ
erase_digit = b'9'

abbrev pub is_erase_pin : Bytes → Bool
is_erase_pin pin =
    pin 0 == erase_digit && pin 1 == erase_digit && pin 2 == erase_digit && pin 3 == erase_digit

-- for (i = 0; i < 16; i++): the PIN four times over.
unfoldable pub spread_pin : Bytes → Bytes → Bytes
spread_pin pin old i = if ltb i 16 then pin (i % 4) else old i

-- The comparing loop, from index `i` on for `n` rounds: the index at which it stops.
unfoldable pub compare_loop : ℕ → ℕ → Bytes → Bytes → ℕ
compare_loop zero i hash text = i
compare_loop (suc n) i hash text = elim (hash i == text i) [
  | true ↦ compare_loop n (i + 1) hash text
  | false ↦ i
]

module _ (b : Board) where
  open b use {lock_hash, lock_hash_pgm, noekeon_encrypt}

  -- usi_resetPin
  unfoldable pub usi_reset_pin : Device → Device
  usi_reset_pin d = record d { eeprom = blit d.eeprom lock_hash 16 (from d.flash lock_hash_pgm) }

  -- The PIN as key and text, and the text encrypted.
  unfoldable pub encrypt_pin : Bytes → Device → Device
  unfolding spread_pin
  encrypt_pin pin d =
      let key = spread_pin pin d.crd.cipher.key in
      let text = spread_pin pin d.crd.cipher.plain in
      on_crd (λ c. record c { cipher = record { key = key; plain = noekeon_encrypt key text } }) d

  -- usi_pinCheck: the erasing PIN resets the hash and spins, so that the watchdog resets the device.
  unfoldable pub usi_pin_check : Bytes → Device → Outcome Device (ℕ × Device)
  unfolding usi_reset_pin encrypt_pin compare_loop
  usi_pin_check pin d =
      let d1 = encrypt_pin pin d in
      let i = compare_loop 16 0 (from d1.eeprom lock_hash) d1.crd.cipher.plain in
      if is_erase_pin pin then hang (usi_reset_pin d) else done (if i == 16 then 1 else 0, d1)
