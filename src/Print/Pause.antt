-- ===== src/Print/Pause.antt =====
-- The pauses of the keyboard come to an end: that of its start and that inside a string.
use memtype.Base.{ℕ, zero, suc, ◌+◌, ◌<◌, ◌≡◌, ◌⊎◌, inl, inr, ◌∙◌, ap, add8, arith}
use memtype.State.{Device, KbdStatus, init, idle, released, on_printer}
use memtype.Board.{Board}
use memtype.Print.{print_release_key}
use memtype.Print.Update.{print_update, status_step, read_char}

module _ (b : Board) where
  -- So many calls of printUpdate.
  unfoldable pub updates : ℕ → Device → Device
  updates zero d = d
  updates (suc n) d = updates n (print_update b d)

  -- A pause, of which `k` more reports are to be sent.
  pub record Pausing (k : ℕ) (d : Device) : Type 0 where
    pub status : (d.printer.kbd_status ≡ init) ⊎ (d.printer.kbd_status ≡ idle)
    pub left : d.printer.debounce_count + k ≡ 50

  by_status :
      (s : KbdStatus) (d : Device)
      → d.printer.kbd_status ≡ s
      → print_update b d ≡ status_step b s (read_char b d) d
  unfolding print_update
  by_status s d e = ap (λ k. status_step b k (read_char b d) d) e

  waiting : Device → Device
  waiting d =
      on_printer (λ p. record (print_release_key p) { debounce_count = add8 p.debounce_count 1 }) d

  goes_on : (k : ℕ) (d : Device) → Pausing (suc k) d → print_update b d ≡ waiting d
  unfolding status_step waiting print_release_key
  goes_on k d v =
      let more : d.printer.debounce_count < 50 = omega (arith, v.left) in
      elim (v.status) [
        | inl e ↦ by_status init d e ∙ ground (arith, more)
        | inr e ↦ by_status idle d e ∙ ground (arith, more)
      ]

  waiting-Pausing : (k : ℕ) (d : Device) → Pausing (suc k) d → Pausing k (waiting d)
  unfolding waiting print_release_key
  waiting-Pausing k d v = record { status = v.status; left = omega (arith, v.left) }

  over :
      (d : Device)
      → Pausing 0 d
      → ((print_update b d).printer.kbd_status ≡ released)
        × ((print_update b d).printer.debounce_count ≡ 0)
  unfolding status_step
  over d v =
      let full : d.printer.debounce_count ≡ 50 = omega (arith, v.left) in
      elim (v.status) [
        | inl e ↦
            let p = by_status init d e in
            (
              ap (λ x. x.printer.kbd_status) p ∙ ground (arith, full),
              ap (λ x. x.printer.debounce_count) p ∙ ground (arith, full),
            )
        | inr e ↦
            let p = by_status idle d e in
            (
              ap (λ x. x.printer.kbd_status) p ∙ ground (arith, full),
              ap (λ x. x.printer.debounce_count) p ∙ ground (arith, full),
            )
      ]

  -- The pause at the start of the keyboard and the one that a character in a string asks for both end:
  -- with `k` of their fifty reports to go, the call after these has the keyboard ready to type again,
  -- with the counter back at 0.
  pub updates-Pausing :
      (k : ℕ) (d : Device)
      → Pausing k d
      → let d' = updates (suc k) d in
        (d'.printer.kbd_status ≡ released) × (d'.printer.debounce_count ≡ 0)
  unfolding updates
  updates-Pausing zero d v = over d v
  updates-Pausing (suc k) d v =
      let e = goes_on k d v in
      let (s, c) = updates-Pausing k (waiting d) (waiting-Pausing k d v) in
      (
        ap (λ x. (updates (suc k) x).printer.kbd_status) e ∙ s,
        ap (λ x. (updates (suc k) x).printer.debounce_count) e ∙ c,
      )
