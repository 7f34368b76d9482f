-- ===== src/Crd/Fsm.antt =====
-- CRD_fsm of crd.c: a button in the menu of credentials.
use memtype.Base.{Outcome, done}
use memtype.State.{Device, Button, left, up, right, down, not_pressed, on_printer}
use memtype.Board.{Board}
use memtype.Print.{print_delete_str}
use memtype.Crd.Apply.{crd_print_detail, crd_user, crd_end}
use memtype.Crd.Menu.{crd_next, crd_previous}
use memtype.Opt.{opt_fsm_start}

module _ (b : Board) where
  button_step : Button → Device → Outcome Device Device
  unfolding crd_next crd_previous opt_fsm_start crd_print_detail
  button_step left d = done (opt_fsm_start b d)
  button_step up d = crd_previous b d
  button_step right d = done (crd_print_detail b crd_user crd_end d)
  button_step down d = crd_next b d
  button_step not_pressed d = done d

  unfoldable pub crd_fsm : Button → Device → Outcome Device Device
  unfolding button_step
  crd_fsm button d = button_step button (on_printer print_delete_str d)
