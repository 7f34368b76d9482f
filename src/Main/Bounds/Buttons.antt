-- ===== src/Main/Bounds/Buttons.antt =====
-- A button keeps the indices in bounds, in every menu.
use memtype.Base.{
  ℕ, ◌+◌, ◌<◌, ◌==◌, inl, inr, Bool-cases, Option, none, some, Outcome, Ends, Ends-mono, arith,
}
use memtype.State.{
  Device, Ptr, Info, MenuState, start, user_input, credentials, options, Button, left, up, right,
  down, not_pressed, Fp, opt_print_pass, opt_print_user, on_printer, on_uif, on_leds, on_crd,
  LedStatus,
}
use memtype.Board.{Board}
use memtype.Uif.{uif_increment, uif_decrement}
use memtype.Uif.Task.{dispatch, uif_task}
use memtype.Uib.{same_button}
use memtype.Print.{print_delete_str}
use memtype.Crd.Fsm.{crd_fsm}
use memtype.Crd.Apply.{crd_print_detail, crd_apply, crd_user, crd_pass, crd_end}
use memtype.Opt.{
  opt_fsm, opt_lock, opt_apply, opt_previous, opt_next, call, call_entry, opt_menu_fp,
  opt_print_pass_run, opt_print_user_run,
}
use memtype.Led.{set_led}
use memtype.Crd.Menu.{crd_previous, crd_next}
use memtype.Main.Bounds.Defs.{InBounds, SameIndices, SameIndices-InBounds}
use memtype.Main.Bounds.Loading.{crd_previous-SameIndices, crd_next-SameIndices}
use memtype.Main.Bounds.Pin.{
  queued, deleting, usi_init-InBounds, crd_fsm_start-InBounds, opt_fsm_start-InBounds,
  usi_fsm-InBounds,
}
use memtype.Main.Bounds.Typing.{crd_apply-SameIndices}

module _ (b : Board) where
  crd_print_detail-InBounds :
      (from_field to_field : ℕ) (d : Device)
      → InBounds d
      → InBounds (crd_print_detail b from_field to_field d)
  unfolding crd_print_detail
  crd_print_detail-InBounds from_field to_field d v =
      let d1 =
        on_crd
          (λ c. record c { position = 0; counter = 0; crd_start = from_field; crd_stop = to_field })
          d in
      let s = crd_apply-SameIndices b d1 in
      SameIndices-InBounds d (crd_apply b d1)
        (record {
          uif_kept = s.uif_kept;
          digit_kept = s.digit_kept;
          place_kept = s.place_kept;
          retries_kept = s.retries_kept;
          entry_kept = s.entry_kept;
          pause_kept = s.pause_kept;
        })
        v

  -- The LEDs are set.
  pub lit : (d : Device) (s : LedStatus) → InBounds d → InBounds (on_leds (set_led s) d)
  lit d s v = record {
    option = v.option;
    digit = v.digit;
    place = v.place;
    retries = v.retries;
    entry = v.entry;
    pause = v.pause;
  }

  called : (d : Device) (f : Fp) → InBounds d → InBounds (record d { fptr = f })
  called d f v = record {
    option = v.option;
    digit = v.digit;
    place = v.place;
    retries = v.retries;
    entry = v.entry;
    pause = v.pause;
  }

  call_entry-InBounds :
      (o : Option Fp) (d : Device) → InBounds d → Ends InBounds InBounds (call_entry b o d)
  unfolding call_entry call opt_print_pass_run opt_print_user_run
  call_entry-InBounds none d v = v
  call_entry-InBounds (some Fp.null) d v = called d Fp.null v
  call_entry-InBounds (some opt_print_pass) d v =
      let d1 = record d { fptr = opt_print_pass } in
      lit _ _ (
        crd_print_detail-InBounds crd_pass (crd_pass + 1) (on_printer print_delete_str d1)
          (deleting b d1 (called d opt_print_pass v)))
  call_entry-InBounds (some opt_print_user) d v =
      let d1 = record d { fptr = opt_print_user } in
      lit _ _ (
        crd_print_detail-InBounds crd_user (crd_user + 1) (on_printer print_delete_str d1)
          (deleting b d1 (called d opt_print_user v)))

  opt_apply-InBounds : (d : Device) → InBounds d → Ends InBounds InBounds (opt_apply b d)
  unfolding opt_apply
  opt_apply-InBounds d v = call_entry-InBounds (opt_menu_fp d.uif.options_index) d v

  -- Another option is chosen.
  at_option :
      (d : Device) (k : ℕ)
      → k < 2
      → InBounds d
      → InBounds (on_uif (λ u. record u { options_index = k }) d)
  at_option d k lt v = record {
    option = lt;
    digit = v.digit;
    place = v.place;
    retries = v.retries;
    entry = v.entry;
    pause = v.pause;
  }

  -- Another menu is shown.
  pub in_menu :
      (d : Device) (m : MenuState)
      → InBounds d
      → InBounds (on_uif (λ u. record u { uif_state = m }) d)
  in_menu d m v = record {
    option = v.option;
    digit = v.digit;
    place = v.place;
    retries = v.retries;
    entry = v.entry;
    pause = v.pause;
  }

  opt_fsm-InBounds :
      (button : Button) (d : Device) → InBounds d → Ends InBounds InBounds (opt_fsm b button d)
  unfolding opt_fsm opt_lock opt_previous opt_next
  opt_fsm-InBounds left d v = lit _ _ (
      queued b _ (Ptr.flash_at b.uif_init_str) Info.flash 0
        (in_menu _ MenuState.start (deleting b d v)))
  opt_fsm-InBounds up d v =
      let d1 = on_printer print_delete_str d in
      opt_apply-InBounds _
        (at_option d1 (uif_increment d.uif.options_index 2) (ground arith) (deleting b d v))
  opt_fsm-InBounds right d v = crd_fsm_start-InBounds b d v
  opt_fsm-InBounds down d v =
      opt_apply-InBounds _
        (at_option d (uif_decrement d.uif.options_index 2) (ground (arith, v.option)) v)
  opt_fsm-InBounds not_pressed d v = v

  pub kept :
      (d : Device) (out : Outcome Device Device)
      → InBounds d
      → Ends (SameIndices d) (SameIndices d) out
      → Ends InBounds InBounds out
  kept d out v h =
      Ends-mono (SameIndices d) (SameIndices d) InBounds InBounds out
        (λ d' s. SameIndices-InBounds d d' s v) (λ d' s. SameIndices-InBounds d d' s v) h

  crd_fsm-InBounds :
      (button : Button) (d : Device) → InBounds d → Ends InBounds InBounds (crd_fsm b button d)
  unfolding crd_fsm
  crd_fsm-InBounds left d v = opt_fsm_start-InBounds b _ (deleting b d v)
  crd_fsm-InBounds up d v =
      let d1 = on_printer print_delete_str d in
      kept d1 (crd_previous b d1) (deleting b d v) (crd_previous-SameIndices b d1)
  crd_fsm-InBounds right d v =
      crd_print_detail-InBounds crd_user crd_end (on_printer print_delete_str d) (deleting b d v)
  crd_fsm-InBounds down d v =
      let d1 = on_printer print_delete_str d in
      kept d1 (crd_next b d1) (deleting b d v) (crd_next-SameIndices b d1)
  crd_fsm-InBounds not_pressed d v = deleting b d v

  dispatch-InBounds :
      (m : MenuState) (button : Button) (d : Device)
      → InBounds d
      → Ends InBounds InBounds (dispatch b m button d)
  unfolding dispatch
  dispatch-InBounds start button d v = usi_init-InBounds b _ (deleting b _ (in_menu d user_input v))
  dispatch-InBounds options button d v = opt_fsm-InBounds button d v
  dispatch-InBounds user_input button d v = usi_fsm-InBounds b button d v
  dispatch-InBounds credentials button d v = crd_fsm-InBounds button d v

  pub uif_task-InBounds : (d : Device) → InBounds d → Ends InBounds InBounds (uif_task b d)
  unfolding uif_task
  uif_task-InBounds d v = elim (Bool-cases (d.uib.button_changed == 1)) [
    | inr quiet ↦ rw quiet v
    | inl changed ↦ rw changed (elim (Bool-cases (same_button d.uib.button_pressed not_pressed)) [
      | inl none_pressed ↦ rw none_pressed v
      | inr some_pressed ↦
          rw some_pressed (dispatch-InBounds d.uif.uif_state d.uib.button_pressed d v)
    ])
  ]
