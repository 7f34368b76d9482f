-- ===== src/Usi/Check.antt =====
-- What the check of the PIN decides.
use memtype.Base.{
  ℕ, zero, suc, ◌+◌, ◌-◌, ◌≤◌, ◌<◌, ◌≡◌, ◌⊎◌, ◌↔◌, refl, ap, Bytes, from, true, false, ◌==◌,
  if◌then◌else◌, done, hang, arith,
}
use memtype.State.{Device}
use memtype.Board.{Board}
use memtype.Usi.Pin.{
  is_erase_pin, spread_pin, compare_loop, usi_reset_pin, encrypt_pin, usi_pin_check,
}

-- The comparing loop stops at the first difference, or at the end.
compare_loop_same :
    (n i : ℕ) (hash text : Bytes)
    → ((k : ℕ) → i ≤ k → k < i + n → hash k ≡ text k)
    → compare_loop n i hash text ≡ i + n
unfolding compare_loop
compare_loop_same zero i hash text same = omega arith
compare_loop_same (suc n) i hash text same = ground (
  arith,
  same i (omega arith) (omega arith),
  compare_loop_same n (i + 1) hash text (λ k lo hi. same k (omega arith) (omega arith)),
)

compare_loop_end :
    (n i : ℕ) (hash text : Bytes) (k : ℕ)
    → compare_loop n i hash text ≡ i + n
    → i ≤ k
    → k < i + n
    → hash k ≡ text k
unfolding compare_loop
compare_loop_end zero i hash text k e lo hi = absurd (omega arith)
compare_loop_end (suc n) i hash text k e lo hi =
    ground (arith, compare_loop_end n (i + 1) hash text k)

module _ (b : Board) where
  open b use {lock_hash, lock_hash_pgm, noekeon_encrypt}

  -- What the PIN encrypts to, under itself.
  abbrev pub pin_hash : Bytes → Device → Bytes
  pin_hash pin d =
      noekeon_encrypt (spread_pin pin d.crd.cipher.key) (spread_pin pin d.crd.cipher.plain)

  -- Any PIN but the erasing one is checked, and the check says 1 exactly when its hash is the one in
  -- EEPROM, all sixteen bytes of it. Nothing but the two texts of the cipher changes: its key is then
  -- the PIN, and its plain text what the PIN encrypts to.
  pub usi_pin_check_lem :
      (pin : Bytes) (d : Device)
      → is_erase_pin pin ≡ false
      → (r : ℕ) × (d' : Device) × (usi_pin_check b pin d ≡ done (r, d'))
        × ((r ≡ 1) ↔ ((k : ℕ) → k < 16 → from d.eeprom lock_hash k ≡ pin_hash pin d k))
        × (d' ≡ record d { crd = record (d.crd) { cipher = d'.crd.cipher } })
        × (d'.crd.cipher.plain ≡ pin_hash pin d)
        × (d'.crd.cipher.key ≡ spread_pin pin d.crd.cipher.key)
  unfolding usi_pin_check encrypt_pin
  usi_pin_check_lem pin d h =
      let i = compare_loop 16 0 (from d.eeprom lock_hash) (pin_hash pin d) in
      (
        (if i == 16 then 1 else 0),
        encrypt_pin b pin d,
        rw h,
        (
          (λ e k lt.
              compare_loop_end 16 0 (from d.eeprom lock_hash) (pin_hash pin d) k (ground arith)
                (omega arith) (omega arith)),
          (λ same. ground (
            arith,
            compare_loop_same 16 0 (from d.eeprom lock_hash) (pin_hash pin d)
                (λ k lo hi. same k (omega arith)),
          )),
        ),
        refl,
        refl,
        refl,
      )

  -- The erasing PIN never returns: it puts the hash of flash into the EEPROM, changes nothing else,
  -- and spins until the watchdog resets the device.
  pub usi_pin_check-erase :
      (pin : Bytes) (d : Device)
      → is_erase_pin pin ≡ true
      → (d' : Device) × (usi_pin_check b pin d ≡ hang d')
        × (d' ≡ record d { eeprom = d'.eeprom })
        × ((k : ℕ) → k < 16 → d'.eeprom (lock_hash + k) ≡ from d.flash lock_hash_pgm k)
        × ((j : ℕ) → (j < lock_hash) ⊎ (lock_hash + 16 ≤ j) → d'.eeprom j ≡ d.eeprom j)
  unfolding usi_pin_check usi_reset_pin
  usi_pin_check-erase pin d h = (
    usi_reset_pin b d,
    rw h,
    refl,
    (λ k lt. ground (
      arith,
      ap (from d.flash lock_hash_pgm) {x = lock_hash + k - lock_hash} {y = k} (omega arith),
    )),
    (λ j out. ground arith),
  )
