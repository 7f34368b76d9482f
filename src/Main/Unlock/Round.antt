-- ===== src/Main/Unlock/Round.antt =====
-- A round of the main loop on a locked device.
use memtype.Base.{
  ℕ, ◌%◌, add8, ◌≡◌, ◌⊎◌, inl, inr, refl, ap, subst, Bool, true, false, Bool-cases, ◌==◌,
  if◌then◌else◌, Bytes, Option, some, none, Outcome, Ends, done, ◌>>=◌, hang, arith,
}
use memtype.State.{
  Device, KeyboardReport, MenuState, Button, not_pressed, start, user_input, credentials, options,
  on_leds,
}
use memtype.Board.{Board}
use memtype.Main.{usb_poll, Input, main_round, report_step}
use memtype.Uib.{same_button, uib_task}
use memtype.Uif.Task.{uif_task, dispatch}
use memtype.Adm.{Sample, adm_task}
use memtype.Sch.{sch_task, sch_task_10ms}
use memtype.Led.{led_task}
use memtype.Ucp.Write.{ucp_write_task}
use memtype.Print.Update.{print_update, read_char}
use memtype.Main.Host.{status_step-Same}
use memtype.Main.Unlock.Waiting.{print_update-Waiting}
use memtype.Main.Unlock.Defs.{EntryMenu, Locked, PinEntered, CallOutcome, kept}
use memtype.Main.Unlock.Poll.{Polled, usb_poll-Polled, Polled-Locked, Polled-PinEntered}
use memtype.Main.Unlock.Entry.{usi_fsm-Locked, start-Locked}

module _ (b : Board) where
  module _ (flash eeprom : Bytes) where
    not_open :
        (d : Device) (m : MenuState) → Locked b flash eeprom d → d.uif.uif_state ≡ m → EntryMenu m
    not_open d m v e = subst EntryMenu e v.menu

    dispatch-Locked :
        (m : MenuState) (button : Button) (d : Device)
        → Locked b flash eeprom d
        → d.uif.uif_state ≡ m
        → CallOutcome b flash eeprom d (dispatch b m button d)
    unfolding dispatch
    dispatch-Locked start button d v e = inl (_, refl, start-Locked b flash eeprom d v)
    dispatch-Locked user_input button d v e = usi_fsm-Locked b flash eeprom button d v e
    dispatch-Locked credentials button d v e =
        absurd (elim (not_open d credentials v e) [ inl h ↦ cc | inr h ↦ cc ])
    dispatch-Locked options button d v e =
        absurd (elim (not_open d options v e) [ inl h ↦ cc | inr h ↦ cc ])

    uif_task-Locked :
        (d : Device) → Locked b flash eeprom d → CallOutcome b flash eeprom d (uif_task b d)
    unfolding uif_task
    uif_task-Locked d v = elim (Bool-cases (d.uib.button_changed == 1)) [
      | inr quiet ↦ inl (d, rw quiet refl, v)
      | inl changed ↦ rw changed (elim (Bool-cases (same_button d.uib.button_pressed not_pressed)) [
        | inl none_pressed ↦ inl (d, rw none_pressed refl, v)
        | inr some_pressed ↦
            rw some_pressed (dispatch-Locked d.uif.uif_state d.uib.button_pressed d v refl)
      ])
    ]

    -- The device when UIF_Task is called, with the sampled buttons.
    abbrev sampled : ℕ → Sample → Device → Device
    sampled timer sample d =
        let v = adm_task sample d.adm_adc_value in
        record d {
          sch = record { last_timer_val = timer; tick = add8 d.sch.tick 1 };
          adm_adc_value = v;
          uib = uib_task v d.uib;
        }

    sch_task-Locked :
        (timer : ℕ) (sample : Sample) (d : Device)
        → Locked b flash eeprom d
        → CallOutcome b flash eeprom d (sch_task b timer sample d)
    unfolding sch_task sch_task_10ms
    sch_task-Locked timer sample d v =
        let d1 = sampled timer sample d in
        let ticked = record d {
          sch = record { last_timer_val = timer; tick = add8 d.sch.tick 1 };
        } in
        elim (Bool-cases (d.sch.last_timer_val == timer)) [
          | inl same ↦ inl (d, rw same refl, v)
          | inr later ↦ rw later (elim (Bool-cases (add8 d.sch.tick 1 % 10 == 0)) [
            | inr between ↦ inl (
              ticked,
              rw between refl,
              kept b flash eeprom d ticked refl refl refl refl v.waiting v,
            )
            | inl due ↦
                rw due
                  (elim (uif_task-Locked d1
                    (kept b flash eeprom d d1 refl refl refl refl v.waiting v)) [
                      | inl returns ↦ inl returns
                      | inr (inl hangs) ↦ inr (inl hangs)
                      | inr (inr p) ↦
                          inr (
                            inr
                              (record { menu = p.menu; index = p.index; right_pin = p.right_pin }))
                    ])
          ])
        ]

    -- A round of the main loop.
    abbrev pub RoundOutcome : Device → Outcome Device (Option KeyboardReport × Device) → Type 0
    RoundOutcome d out =
        ((r : Option KeyboardReport) × (d' : Device) × (out ≡ done (r, d'))
          × Locked b flash eeprom d')
        ⊎ (((d' : Device) × (out ≡ hang d') × Locked b flash eeprom d') ⊎ PinEntered b d)

    report_step-Locked :
        (d : Device)
        → Locked b flash eeprom d
        → (r : Option KeyboardReport) × (d' : Device) × (report_step b d ≡ done (r, d'))
          × Locked b flash eeprom d'
    unfolding report_step ucp_write_task print_update
    report_step-Locked d v =
        let d1 = on_leds led_task d in
        let (uc, fl, ee, ui) = status_step-Same b d1.printer.kbd_status (read_char b d1) d1 in
        let d2 = print_update b d1 in
        (
          some d2.printer.report_buffer,
          d2,
          ground (arith, v.no_write),
          kept b flash eeprom d d2 uc fl ee (ap (λ u. u.uif_state) ui)
              (print_update-Waiting b flash d1 v.flash_kept v.waiting) v,
        )

    after_report :
        (ready : Bool) (d0 d : Device)
        → Locked b flash eeprom d
        → RoundOutcome d0 (if ready then report_step b d else done (none, d))
    after_report false d0 d v = inl (none, d, refl, v)
    after_report true d0 d v = inl (report_step-Locked d v)

    -- After usbPoll, which may not come back.
    after_poll :
        (i : Input) (d : Device) (out : Outcome Device Device)
        → Locked b flash eeprom d
        → Ends (Polled b d) (Polled b d) out
        → RoundOutcome d (
            out >>= λ d1. sch_task b i.timer i.sample d1 >>= λ d2.
            if i.interrupt_is_ready then report_step b d2 else done (none, d2))
    after_poll i d (hang d1) v p = inr (inl (d1, refl, Polled-Locked b flash eeprom d d1 p v))
    after_poll i d (done d1) v p =
        elim (sch_task-Locked i.timer i.sample d1 (Polled-Locked b flash eeprom d d1 p v)) [
          | inl (d2, out, v2) ↦ rw out (after_report i.interrupt_is_ready d d2 v2)
          | inr (inl (d2, out, v2)) ↦ inr (inl (d2, rw out refl, v2))
          | inr (inr e) ↦ inr (inr (Polled-PinEntered b d d1 p e))
        ]

    pub main_round-Locked :
        (i : Input) (d : Device) → Locked b flash eeprom d → RoundOutcome d (main_round b i d)
    unfolding main_round
    main_round-Locked i d v =
        after_poll i d (usb_poll b i.events d) v (usb_poll-Polled b i.events d v.state)
