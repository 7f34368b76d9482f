-- ===== src/Main/Unlock/Prompt.antt =====
-- What the entry of the PIN puts into the keyboard's queue.
use memtype.Base.{◌+◌, ◌≡◌, inl, inr, Bool-cases, false, ◌==◌, ltb, update, add8, Bytes, arith}
use memtype.State.{Device, Ptr, Info, on_usi, on_uif}
use memtype.Board.{Board}
use memtype.Uif.{uif_increment, uif_decrement}
use memtype.Usi.Pin.{usi_reset_pin}
use memtype.Usi.Fsm.{
  sizeof_usi_keys, usi_print, usi_next, usi_previous, next_digit, usi_init, wrong_pin, show_prompt,
  first_digit,
}
use memtype.Main.Unlock.Waiting.{Waiting, Text, entered, message, locked, pin_reset, print-Queue}

module _ (b : Board) (flash : Bytes) where
  -- The prompt is shown with a digit.
  usi_print-Waiting : (d : Device) → Waiting b flash d → Waiting b flash (usi_print b d)
  unfolding usi_print
  usi_print-Waiting d (queue, (place, text_end)) = (
    print-Queue b flash (Ptr.user_text 0) Info.ram d.printer (entered (omega arith)) queue,
    (place, ground (arith, place, text_end)),
  )

  pub usi_next-Waiting : (d : Device) → Waiting b flash d → Waiting b flash (usi_next b d)
  unfolding usi_next
  usi_next-Waiting d w =
      usi_print-Waiting
        (on_uif
          (λ u. record u { user_input_index = uif_increment u.user_input_index sizeof_usi_keys }) d)
        w

  pub usi_previous-Waiting : (d : Device) → Waiting b flash d → Waiting b flash (usi_previous b d)
  unfolding usi_previous
  usi_previous-Waiting d w =
      usi_print-Waiting
        (on_uif
          (λ u. record u { user_input_index = uif_decrement u.user_input_index sizeof_usi_keys }) d)
        w

  pub next_digit-Waiting :
      (d : Device)
      → (d.usi.user_text_index == 3) ≡ false
      → Waiting b flash d
      → Waiting b flash (next_digit b d)
  unfolding next_digit
  next_digit-Waiting d more (queue, (place, text_end)) =
      usi_print-Waiting
        (on_usi
          (λ u. record u {
            user_text = update u.user_text (5 + u.user_text_index) b'*';
            user_text_index = add8 u.user_text_index 1;
          })
          d)
        (queue, (ground (arith, more, place), ground (arith, more, place, text_end)))

  -- The entry of the PIN starts again.
  restarted-Text :
      (d : Device) → Text b flash d.usi → Text b flash (show_prompt b (first_digit b d)).usi
  restarted-Text d (place, text_end) = (omega arith, ground (arith, text_end))

  pub usi_init-Waiting : (d : Device) → Waiting b flash d → Waiting b flash (usi_init b d)
  unfolding usi_init
  usi_init-Waiting d (queue, t) =
      usi_print-Waiting (show_prompt b (first_digit b d)) (queue, restarted-Text d t)

  -- The message about a wrong PIN joins the queue.
  pub wrong_pin-Waiting : (d : Device) → Waiting b flash d → Waiting b flash (wrong_pin b d)
  unfolding wrong_pin usi_reset_pin
  wrong_pin-Waiting d (queue, t) = elim (Bool-cases (ltb 0 d.usi.pin_retries)) [
    | inl some_left ↦ rw some_left (
      print-Queue b flash (Ptr.flash_at b.locked_str) Info.flash d.printer (message locked) queue,
      restarted-Text d t,
    )
    | inr spent ↦ rw spent (
      print-Queue b flash (Ptr.flash_at b.pinreset_str) Info.flash d.printer (message pin_reset)
          queue,
      restarted-Text d t,
    )
  ]
