-- ===== src/Uif/Task.antt =====
-- UIF_Task of uif.c: a button that was pressed goes to the menu that is shown.
use memtype.Base.{◌==◌, if◌then◌else◌, Outcome, done}
use memtype.State.{
  Device, MenuState, start, credentials, options, user_input, Button, not_pressed, on_printer,
  on_uif,
}
use memtype.Board.{Board}
use memtype.Uib.{same_button}
use memtype.Print.{print_delete_str}
use memtype.Crd.Fsm.{crd_fsm}
use memtype.Opt.{opt_fsm}
use memtype.Usi.Fsm.{usi_init, usi_fsm}

module _ (b : Board) where
  unfoldable pub dispatch : MenuState → Button → Device → Outcome Device Device
  unfolding crd_fsm opt_fsm usi_init usi_fsm
  dispatch start button d = done (
      usi_init b
        (on_printer print_delete_str (on_uif (λ u. record u { uif_state = user_input }) d)))
  dispatch options button d = opt_fsm b button d
  dispatch user_input button d = usi_fsm b button d
  dispatch credentials button d = crd_fsm b button d

  -- UIF_Task
  unfoldable pub uif_task : Device → Outcome Device Device
  unfolding dispatch same_button
  uif_task d =
      if d.uib.button_changed == 1
      then (if same_button d.uib.button_pressed not_pressed
          then done d
          else dispatch d.uif.uif_state d.uib.button_pressed d)
      else done d
