-- ===== src/Usi/Guesses.antt =====
-- PINs are guessed at the buttons, between two resets.
use memtype.Base.{
  ℕ, suc, ◌+◌, ◌-◌, ◌%◌, ◌≤◌, ◌<◌, ◌≡◌, ◌∙◌, refl, sym, ap, subst, from, leb, Bool, false, ◌==◌,
  if◌then◌else◌, Outcome, done, Ends, arith,
}
use memtype.State.{Device, Button, left, up, right, down, not_pressed, on_printer}
use memtype.Board.{Board}
use memtype.Print.{print_delete_str}
use memtype.Usi.Entry.{IsRightPin, LastDigit}
use memtype.Usi.Fsm.{
  usi_fsm, usi_init, usi_next, usi_previous, next_digit, usi_print, usi_pin_retries,
}
use memtype.Usi.Retries.{retries_after, hash_after, usi_fsm-wrong_pin}

-- The button confirms the last digit.
abbrev pub confirms : Button → Device → Bool
confirms left d = false
confirms up d = false
confirms right d = d.usi.user_text_index == 3
confirms down d = false
confirms not_pressed d = false

-- The retries after `n` wrong guesses, of `r` at first.
abbrev pub retries_left : ℕ → ℕ → ℕ
retries_left r n = if leb n r then r - n else usi_pin_retries - (n - suc r) % suc usi_pin_retries

module _ (b : Board) where
  -- Buttons at the entry of the PIN, of which `n` confirm a wrong one, the erasing one excepted.
  pub data Guesses (d : Device) : ℕ → Device → Type 0 where
    none : Guesses d 0 d
    move :
        {n : ℕ} {d1 d2 : Device} (button : Button)
        → Guesses d n d1
        → confirms button d1 ≡ false
        → usi_fsm b button d1 ≡ done d2
        → Guesses d n d2
    guess :
        {n : ℕ} {d1 d2 : Device}
        → Guesses d n d1
        → LastDigit d1
        → ¬ (IsRightPin b d1)
        → usi_fsm b right d1 ≡ done d2
        → Guesses d (suc n) d2

  record Stays (d d' : Device) : Type 0 where
    flash_kept : d'.flash ≡ d.flash
    eeprom_kept : d'.eeprom ≡ d.eeprom
    retries_kept : d'.usi.pin_retries ≡ d.usi.pin_retries

  -- A result that is known, at the device that the call returned.
  at_result :
      (Q : Device → Type 0) (m : Outcome Device Device) (d d' : Device)
      → m ≡ done d
      → m ≡ done d'
      → Q d
      → Q d'
  at_result Q m d d' e e' q = subst (Ends (λ s. 0 < 1) Q) (sym e ∙ e') q

  move_lem :
      (button : Button) (d : Device)
      → confirms button d ≡ false
      → (d' : Device) × (usi_fsm b button d ≡ done d') × Stays d d'
  unfolding usi_fsm usi_init usi_next usi_previous next_digit usi_print
  move_lem left d h =
      (_, refl, record { flash_kept = refl; eeprom_kept = refl; retries_kept = refl })
  move_lem up d h = (_, refl, record { flash_kept = refl; eeprom_kept = refl; retries_kept = refl })
  move_lem right d h = (
    next_digit b (on_printer print_delete_str d),
    rw h refl,
    record { flash_kept = refl; eeprom_kept = refl; retries_kept = refl },
  )
  move_lem down d h =
      (_, refl, record { flash_kept = refl; eeprom_kept = refl; retries_kept = refl })
  move_lem not_pressed d h =
      (_, refl, record { flash_kept = refl; eeprom_kept = refl; retries_kept = refl })

  -- What `n` wrong guesses leave.
  pub record Guessed (d : Device) (n : ℕ) (d' : Device) : Type 0 where
    pub flash_kept : d'.flash ≡ d.flash
    pub retries : d'.usi.pin_retries ≡ retries_left d.usi.pin_retries n
    pub hash :
        (k : ℕ)
        → k < 16
        → from d'.eeprom b.lock_hash k ≡ (
            if leb n d.usi.pin_retries
            then from d.eeprom b.lock_hash k
            else from d.flash b.lock_hash_pgm k)

  Stays-Guessed :
      (d : Device) (n : ℕ) (d1 d2 : Device) → Guessed d n d1 → Stays d1 d2 → Guessed d n d2
  Stays-Guessed d n d1 d2 g s = record {
    flash_kept = s.flash_kept ∙ g.flash_kept;
    retries = s.retries_kept ∙ g.retries;
    hash = λ k h. ap (λ m. from m b.lock_hash k) s.eeprom_kept ∙ g.hash k h;
  }

  wrong_Guessed :
      (d : Device) (n : ℕ) (d1 d2 : Device)
      → d.usi.pin_retries ≤ usi_pin_retries
      → Guessed d n d1
      → d2.flash ≡ d1.flash
      → d2.usi.pin_retries ≡ retries_after d1.usi.pin_retries
      → ((k : ℕ) → k < 16 → from d2.eeprom b.lock_hash k ≡ hash_after b d1 k)
      → Guessed d (suc n) d2
  wrong_Guessed d n d1 d2 few g fl re ha = record {
    flash_kept = fl ∙ g.flash_kept;
    retries = ground (arith, re, g.retries);
    hash = λ k h.
        ground
          (arith, ha k h, g.hash k h, g.retries, ap (λ m. from m b.lock_hash_pgm k) g.flash_kept);
  }

  -- Between two resets, however the buttons are pressed at the entry of the PIN, `n` wrong guesses
  -- leave the hash as it was only while `n` is at most the retries at first; from the guess that finds
  -- no retry left on it is the hash of the flash, and the retries go round from two to zero. So it is
  -- if the retries are two at most and the hash lies inside the 16-bit addresses.
  pub guesses_lem :
      (d : Device) {n : ℕ} {d' : Device}
      → d.usi.pin_retries ≤ usi_pin_retries
      → b.lock_hash + 16 ≤ 65536
      → Guesses d n d'
      → Guessed d n d'
  guesses_lem d few small none = record {
    flash_kept = refl;
    retries = ground arith;
    hash = λ k h. ground arith;
  }
  guesses_lem d few small (move {n} {d1} {d2} button g free e) =
      let (d3, e', s) = move_lem button d1 free in
      at_result (Guessed d n) (usi_fsm b button d1) d3 d2 e' e
        (Stays-Guessed d n d1 d3 (guesses_lem d few small g) s)
  guesses_lem d few small (guess {n} {d1} {d2} g last wrong e) =
      let (d3, e', _, _, fl, _, re, ha) = usi_fsm-wrong_pin b d1 last wrong small in
      at_result (Guessed d (suc n)) (usi_fsm b right d1) d3 d2 e' e
        (wrong_Guessed d n d1 d3 few (guesses_lem d few small g) fl re ha)
