-- ===== src/Usi/Retries.antt =====
-- What the confirmation of a wrong PIN does: a retry used up, or the hash reset.
use memtype.Base.{
  ℕ, ◌+◌, ◌-◌, ◌≤◌, ◌<◌, ◌≡◌, ap, subst, sym, Bytes, from, false, ◌==◌, add16, Bool-cases, inl, inr,
  ==→eq, ltb, if◌then◌else◌, done, arith,
}
use memtype.State.{Device, right, on_printer}
use memtype.Board.{Board}
use memtype.Print.{print_delete_str}
use memtype.Usi.Pin.{usi_reset_pin}
use memtype.Usi.Check.{usi_pin_check_lem}
use memtype.Usi.Fsm.{wrong_pin, confirm_pin, usi_fsm, usi_pin_retries}
use memtype.Usi.Entry.{IsRightPin, LastDigit}

-- The retries after a wrong PIN.
abbrev pub retries_after : ℕ → ℕ
retries_after n = if ltb 0 n then n - 1 else usi_pin_retries

module _ (b : Board) where
  -- The hash after a wrong PIN.
  abbrev pub hash_after : Device → Bytes
  hash_after d =
      if ltb 0 d.usi.pin_retries then from d.eeprom b.lock_hash else from d.flash b.lock_hash_pgm

  reset_hash :
      (d : Device) (k : ℕ)
      → k < 16
      → b.lock_hash + 16 ≤ 65536
      → from (usi_reset_pin b d).eeprom b.lock_hash k ≡ from d.flash b.lock_hash_pgm k
  unfolding usi_reset_pin
  reset_hash d k h h' =
      let e : add16 b.lock_hash k - b.lock_hash ≡ k = omega arith in
      ground (arith, ap (from d.flash b.lock_hash_pgm) e)

  -- What a wrong PIN leaves of `d`, by the device `d2` after the check.
  abbrev WrongPin : Device → Device → Type 0
  WrongPin d d2 =
      let d' = wrong_pin b d2 in
      (d'.ucp ≡ d.ucp)
      × (d'.uif.uif_state ≡ d.uif.uif_state)
      × (d'.flash ≡ d.flash)
      × (d'.usi.user_text_index ≡ 0)
      × (d'.usi.pin_retries ≡ retries_after d.usi.pin_retries)
      × ((k : ℕ) → k < 16 → from d'.eeprom b.lock_hash k ≡ hash_after d k)

  wrong_pin_lem : (d : Device) → b.lock_hash + 16 ≤ 65536 → WrongPin d d
  unfolding wrong_pin usi_reset_pin
  wrong_pin_lem d small = (
    ground arith,
    ground arith,
    ground arith,
    ground arith,
    ground arith,
    λ k h. ground (arith, reset_hash d k h small),
  )

  -- Confirming a wrong PIN at its last digit, where it is not the erasing one, never unlocks: the
  -- protocol and the menu stay as they were, and the entry starts anew. It uses up a retry if one is
  -- left; if none is, the retries are two again and the hash in EEPROM is replaced by the one in flash.
  -- So it is if the hash lies inside the 16-bit addresses.
  pub usi_fsm-wrong_pin :
      (d : Device)
      → LastDigit d
      → ¬ (IsRightPin b d)
      → b.lock_hash + 16 ≤ 65536
      → (d' : Device) × (usi_fsm b right d ≡ done d')
        × (d'.ucp ≡ d.ucp)
        × (d'.uif.uif_state ≡ d.uif.uif_state)
        × (d'.flash ≡ d.flash)
        × (d'.usi.user_text_index ≡ 0)
        × (d'.usi.pin_retries ≡ retries_after d.usi.pin_retries)
        × ((k : ℕ) → k < 16 → from d'.eeprom b.lock_hash k ≡ hash_after d k)
  unfolding usi_fsm confirm_pin
  usi_fsm-wrong_pin d v wrong small =
      let d1 = on_printer print_delete_str d in
      let (r, d2, e, iff, same, _, _) = usi_pin_check_lem b d.usi.user_pin d1 v.plain_pin in
      let no : (r == 1) ≡ false = elim (Bool-cases (r == 1)) [
        | inl t ↦ absurd (wrong (iff.0 (==→eq _ _ t)))
        | inr f ↦ f
      ] in
      let (p1, p2, p3, p4, p5, p6) =
        subst (WrongPin d) (sym same)
          (wrong_pin_lem (record d1 { crd = record (d1.crd) { cipher = d2.crd.cipher } }) small) in
      (wrong_pin b d2, ground (arith, v.index, e, no), p1, p2, p3, p4, p5, p6)
