-- ===== src/Usi/Fsm.antt =====
-- USI_Init and USI_fsm of usi.c: a button while the PIN is entered.
use memtype.Base.{
  ℕ, ◌+◌, ◌-◌, ◌==◌, ltb, if◌then◌else◌, update, blit, from, add8, add16, Outcome, done, ◌>>=◌,
}
use memtype.State.{
  Device, Button, left, up, right, down, not_pressed, Ptr, on_printer, on_usi, on_uif,
}
use memtype.Board.{Board}
use memtype.Print.{print_str_ram, print_str_flash, print_delete_str}
use memtype.Uif.{uif_increment, uif_decrement}
use memtype.Ucp.Lock.{ucp_lock}
use memtype.Crd.Start.{crd_fsm_start}
use memtype.Usi.Pin.{usi_pin_check, usi_reset_pin}

abbrev pub usi_pin_retries : ℕ
usi_pin_retries = 2

-- sizeof(PIN_str), sizeof(userPin) and sizeof(USI_keys)
abbrev pub sizeof_pin_str : ℕ
sizeof_pin_str = 6

abbrev pub sizeof_user_pin : ℕ
sizeof_user_pin = 4

abbrev pub sizeof_usi_keys : ℕ
sizeof_usi_keys = 10

module _ (b : Board) where
  open b use {pin_str, locked_str, pinreset_str, usi_keys}

  -- memcpy_P(userText, PIN_str, sizeof(PIN_str))
  abbrev pub show_prompt : Device → Device
  show_prompt d =
      on_usi
        (λ u. record u { user_text = blit u.user_text 0 sizeof_pin_str (from d.flash pin_str) }) d

  -- usi_print
  unfoldable pub usi_print : Device → Device
  usi_print d =
      let i = d.usi.user_text_index in
      let digit = d.flash (add16 usi_keys d.uif.user_input_index) in
      let at = sizeof_pin_str - 1 + i in
      on_printer (print_str_ram (Ptr.user_text 0)) (
        on_usi
          (λ u. record u {
            user_pin = update u.user_pin i digit;
            user_text = update (update u.user_text at digit) (at + 1) 0;
          })
          d)

  unfoldable pub usi_previous : Device → Device
  unfolding usi_print uif_decrement
  usi_previous d = usi_print (
      on_uif (λ u. record u { user_input_index = uif_decrement u.user_input_index sizeof_usi_keys })
        d)

  unfoldable pub usi_next : Device → Device
  unfolding usi_print uif_increment
  usi_next d = usi_print (
      on_uif (λ u. record u { user_input_index = uif_increment u.user_input_index sizeof_usi_keys })
        d)

  -- userTextIndex = 0; UIF_userInputIndex = 0
  abbrev pub first_digit : Device → Device
  first_digit d =
      on_uif (λ u. record u { user_input_index = 0 })
        (on_usi (λ u. record u { user_text_index = 0 }) d)

  -- USI_Init
  unfoldable pub usi_init : Device → Device
  unfolding usi_print
  usi_init d = ucp_lock (usi_print (show_prompt (first_digit d)))

  -- A wrong PIN: the message, the retries, and the entry from the start.
  unfoldable pub wrong_pin : Device → Device
  wrong_pin d =
      let d1 =
        (if ltb 0 d.usi.pin_retries
          then on_usi (λ u. record u { pin_retries = u.pin_retries - 1 })
              (on_printer (print_str_flash locked_str) d)
          else on_usi (λ u. record u { pin_retries = usi_pin_retries })
              (usi_reset_pin b (on_printer (print_str_flash pinreset_str) d))) in
      show_prompt (on_usi (λ u. record u { user_pin = update u.user_pin 0 b'0' }) (first_digit d1))

  -- The last digit is confirmed.
  unfoldable pub confirm_pin : Device → Outcome Device Device
  confirm_pin d = do
    (correct, d1) ← usi_pin_check b d.usi.user_pin d
    done (if correct == 1 then crd_fsm_start d1 else wrong_pin d1)

  -- Another digit is confirmed.
  unfoldable pub next_digit : Device → Device
  unfolding usi_print
  next_digit d = usi_print (
      on_usi
        (λ u. record u {
          user_text = update u.user_text (sizeof_pin_str - 1 + u.user_text_index) b'*';
          user_text_index = add8 u.user_text_index 1;
        })
        d)

  -- USI_fsm
  unfoldable pub usi_fsm : Button → Device → Outcome Device Device
  usi_fsm left d = done (usi_init (on_printer print_delete_str d))
  usi_fsm up d = done (usi_next (on_printer print_delete_str d))
  usi_fsm right d =
      let d1 = on_printer print_delete_str d in
      if d1.usi.user_text_index == sizeof_user_pin - 1 then confirm_pin d1 else done (next_digit d1)
  usi_fsm down d = done (usi_previous (on_printer print_delete_str d))
  usi_fsm not_pressed d = done d
