-- ===== src/Opt.antt =====
-- opt.h and opt.c: the menu of what can be typed of a credential.
pub mod Total
pub mod Reports
use memtype.Base.{ℕ, zero, suc, ◌+◌, Option, none, some, Outcome, done, hang}
use memtype.State.{
  Device, Fp, opt_print_pass, opt_print_user, MenuState, on_printer, on_uif, on_leds, Button, left,
  up, right, down, not_pressed, off, blink_red, blink_green, blink_both,
}
use memtype.Board.{Board}
use memtype.Led.{set_led}
use memtype.Print.{print_delete_str, print_str_flash}
use memtype.Uif.{uif_init, uif_increment, uif_decrement}
use memtype.Crd.Apply.{crd_print_detail, crd_user, crd_pass}
use memtype.Crd.Start.{crd_fsm_start}

-- MAX_OPT_SIZE
abbrev pub max_opt_size : ℕ
max_opt_size = 2

-- `opt_menuFp`; an index past its end has no function.
abbrev pub opt_menu_fp : ℕ → Option Fp
opt_menu_fp zero = some opt_print_pass
opt_menu_fp (suc zero) = some opt_print_user
opt_menu_fp _ = none

module _ (b : Board) where
  -- OPT_fsmStart
  unfoldable pub opt_fsm_start : Device → Device
  opt_fsm_start d = on_leds (set_led blink_both) (
      on_printer (λ p. print_str_flash b.opt_start_str (print_delete_str p))
        (on_uif (λ u. record u { uif_state = MenuState.options; options_index = 0 }) d))

  -- opt_printUser and opt_printPass
  unfoldable pub opt_print_user_run : Device → Device
  opt_print_user_run d =
      on_leds (set_led blink_green)
        (crd_print_detail b crd_user (crd_user + 1) (on_printer print_delete_str d))

  unfoldable pub opt_print_pass_run : Device → Device
  opt_print_pass_run d =
      on_leds (set_led blink_red)
        (crd_print_detail b crd_pass (crd_pass + 1) (on_printer print_delete_str d))

  unfoldable pub call : Fp → Device → Outcome Device Device
  unfolding opt_print_user_run opt_print_pass_run
  call Fp.null d = hang d
  call opt_print_pass d = done (opt_print_pass_run d)
  call opt_print_user d = done (opt_print_user_run d)

  unfoldable pub call_entry : Option Fp → Device → Outcome Device Device
  unfolding call
  call_entry none d = hang d
  call_entry (some f) d = call f (record d { fptr = f })

  -- opt_apply. A jump through no function does not come back.
  unfoldable pub opt_apply : Device → Outcome Device Device
  unfolding call_entry
  opt_apply d = call_entry (opt_menu_fp d.uif.options_index) d

  unfoldable pub opt_previous : Device → Outcome Device Device
  unfolding opt_apply uif_increment
  opt_previous d = opt_apply (
      on_uif (λ u. record u { options_index = uif_increment u.options_index max_opt_size })
        (on_printer print_delete_str d))

  unfoldable pub opt_next : Device → Outcome Device Device
  unfolding opt_apply uif_decrement
  opt_next d =
      opt_apply
        (on_uif (λ u. record u { options_index = uif_decrement u.options_index max_opt_size }) d)

  unfoldable pub opt_lock : Device → Device
  opt_lock d = on_leds (set_led off) (uif_init b (on_printer print_delete_str d))

  -- OPT_fsm
  unfoldable pub opt_fsm : Button → Device → Outcome Device Device
  unfolding opt_lock opt_previous opt_next
  opt_fsm left d = done (opt_lock d)
  opt_fsm up d = opt_previous d
  opt_fsm right d = done (crd_fsm_start d)
  opt_fsm down d = opt_next d
  opt_fsm not_pressed d = done d
