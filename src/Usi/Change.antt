-- ===== src/Usi/Change.antt =====
-- A new PIN: the SET_PIN session of ucp.c, and the check of usi.c after it.
use memtype.Base.{
  ℕ, ◌+◌, ◌-◌, ◌<◌, ◌≡◌, ◌↔◌, ◌∙◌, sym, ap, Bytes, from, false, ltb, inl, inr, Bool-cases, done,
  arith,
}
use memtype.State.{Device, idle}
use memtype.Board.{Board}
use memtype.Usi.Pin.{is_erase_pin, usi_pin_check}
use memtype.Usi.Check.{pin_hash, usi_pin_check_lem}
use memtype.Ucp.Cmd
use memtype.Ucp.Decode.{ucp_decode}
use memtype.Ucp.SetPin.{set_pin_session}

-- Two texts of sixteen bytes are the same if their halves are.
halves :
    (f g : Bytes)
    → ((k : ℕ) → k < 8 → f k ≡ g k)
    → ((k : ℕ) → k < 8 → f (8 + k) ≡ g (8 + k))
    → (k : ℕ) → k < 16
    → f k ≡ g k
halves f g low high k h = elim (Bool-cases (ltb k 8)) [
  | inl lt ↦ low k (ground (arith, lt))
  | inr ge ↦
      let shift : 8 + (k - 8) ≡ k = ground (arith, ge) in
      sym (ap f shift) ∙ high (k - 8) (omega arith) ∙ ap g shift
]

module _ (b : Board) where
  -- After a SET_PIN session of three packets from the idle state, as long as the EEPROM stays so, the
  -- check of any PIN but the erasing one returns, and says 1 exactly when the PIN encrypts to the
  -- sixteen bytes that the host sent.
  pub set_pin_session-usi_pin_check :
      (packet low high pin : Bytes) (d later : Device)
      → d.ucp.ucp_state ≡ idle
      → packet 0 ≡ Cmd.set_pin
      → b.lock_hash + 16 < 65536
      → later.eeprom ≡ (ucp_decode b high 8 (ucp_decode b low 8 (ucp_decode b packet 8 d))).eeprom
      → is_erase_pin pin ≡ false
      → (r : ℕ) × (d' : Device) × (usi_pin_check b pin later ≡ done (r, d'))
        × ((r ≡ 1) ↔ (
            ((k : ℕ) → k < 8 → pin_hash b pin later k ≡ low k)
            × ((k : ℕ) → k < 8 → pin_hash b pin later (8 + k) ≡ high k)))
  set_pin_session-usi_pin_check packet low high pin d later st cmd small kept plain =
      let (lo, hi, _, _) = set_pin_session b packet low high d st cmd small in
      let (r, d', e, iff, _, _, _) = usi_pin_check_lem b pin later plain in
      let low_byte : (k : ℕ) → k < 8 → from later.eeprom b.lock_hash k ≡ low k =
        λ k h. ap (λ m. from m b.lock_hash k) kept ∙ ground (arith, lo k h) in
      let high_byte : (k : ℕ) → k < 8 → from later.eeprom b.lock_hash (8 + k) ≡ high k =
        λ k h. ap (λ m. from m b.lock_hash (8 + k)) kept ∙ ground (arith, hi k h) in
      (
        r,
        d',
        e,
        (
          (λ one. (
            (λ k h. sym (iff.0 one k (omega arith)) ∙ low_byte k h),
            (λ k h. sym (iff.0 one (8 + k) (omega arith)) ∙ high_byte k h),
          )),
          (λ (same_low, same_high). iff.1 (
              halves (from later.eeprom b.lock_hash) (pin_hash b pin later)
                (λ k h. low_byte k h ∙ sym (same_low k h))
                (λ k h. high_byte k h ∙ sym (same_high k h)))),
        ),
      )
