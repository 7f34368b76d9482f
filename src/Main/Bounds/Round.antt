-- ===== src/Main/Bounds/Round.antt =====
-- Every round keeps the indices in bounds, from the start of the firmware on.
use memtype.Base.{
  ℕ, ◌%◌, ◌≡◌, subst, ◌==◌, add8, inl, inr, Bool-cases, Bytes, Option, Outcome, done, Ends,
  Ends-bind, Ends-mono, arith,
}
use memtype.State.{Device, Info, Ptr, MenuState, KeyboardReport, on_leds, on_printer}
use memtype.Board.{Board}
use memtype.Adm.{Sample, adm_task}
use memtype.Uib.{uib_task}
use memtype.Uif.{uif_init}
use memtype.Sch.{sch_init, sch_task, sch_task_10ms}
use memtype.Led.{led_task}
use memtype.Crd.Load.{crd_init}
use memtype.Ucp.Lock.{ucp_init}
use memtype.Ucp.Write.{ucp_write_task}
use memtype.Osccal.{osccal_init}
use memtype.Reset.{reset_state}
use memtype.Main.{Input, usb_poll, report_step, start_up, main_round}
use memtype.Main.Bounds.Defs.{InBounds, SameIndices}
use memtype.Main.Bounds.Loading.{OtherCrd, OtherCrd-SameIndices, crd_load_credential-OtherCrd}
use memtype.Main.Bounds.Typing.{print_update-InBounds}
use memtype.Main.Bounds.Writing.{ucp_write_task-SameIndices, usb_poll-InBounds}
use memtype.Main.Bounds.Pin.{queued}
use memtype.Main.Bounds.Buttons.{uif_task-InBounds, in_menu, kept}

module _ (b : Board) where
  -- The device in which the firmware is, after its start with any memories and any rounds.
  pub data Running : Device → Type 0 where
    booted :
        {d : Device} (flash eeprom : Bytes) (osccal : ℕ)
        → start_up b (reset_state flash eeprom osccal) ≡ done d
        → Running d
    round :
        {d d' : Device} (i : Input) (r : Option KeyboardReport)
        → Running d
        → main_round b i d ≡ done (r, d')
        → Running d'

  -- Variables of the scheduler, the converter and the buttons are other.
  abbrev sampled : ℕ → ℕ → Sample → Device → Device
  sampled timer tick sample d =
      let v = adm_task sample d.adm_adc_value in
      record d {
        sch = record { last_timer_val = timer; tick = tick };
        adm_adc_value = v;
        uib = uib_task v d.uib;
      }

  sampled-InBounds :
      (timer tick : ℕ) (sample : Sample) (d : Device)
      → InBounds d
      → InBounds (sampled timer tick sample d)
  sampled-InBounds timer tick sample d v = record {
    option = v.option;
    digit = v.digit;
    place = v.place;
    retries = v.retries;
    entry = v.entry;
    pause = v.pause;
  }

  ticked-InBounds :
      (timer tick : ℕ) (d : Device)
      → InBounds d
      → InBounds (record d { sch = record { last_timer_val = timer; tick = tick } })
  ticked-InBounds timer tick d v = record {
    option = v.option;
    digit = v.digit;
    place = v.place;
    retries = v.retries;
    entry = v.entry;
    pause = v.pause;
  }

  sch_task-InBounds :
      (timer : ℕ) (sample : Sample) (d : Device)
      → InBounds d
      → Ends InBounds InBounds (sch_task b timer sample d)
  unfolding sch_task sch_task_10ms
  sch_task-InBounds timer sample d v =
      let tick = add8 d.sch.tick 1 in
      elim (Bool-cases (d.sch.last_timer_val == timer)) [
        | inl same ↦ rw same v
        | inr later ↦ rw later (elim (Bool-cases (tick % 10 == 0)) [
          | inl due ↦ rw due (
              uif_task-InBounds b (sampled timer tick sample d)
                (sampled-InBounds timer tick sample d v))
          | inr between ↦ rw between (ticked-InBounds timer tick d v)
        ])
      ]

  -- What a round gives: a report for the host, or none, and the device.
  abbrev Sent : Option KeyboardReport × Device → Type 0
  Sent (r, d) = InBounds d

  report_step-InBounds : (d : Device) → InBounds d → Ends InBounds Sent (report_step b d)
  unfolding report_step
  report_step-InBounds d v =
      Ends-bind InBounds InBounds Sent (ucp_write_task b d) _
        (kept b d (ucp_write_task b d) v (ucp_write_task-SameIndices b d))
        (λ d1 v1. print_update-InBounds b (on_leds led_task d1) (record {
          option = v1.option;
          digit = v1.digit;
          place = v1.place;
          retries = v1.retries;
          entry = v1.entry;
          pause = v1.pause;
        }))

  main_round-InBounds :
      (i : Input) (d : Device) → InBounds d → Ends InBounds Sent (main_round b i d)
  unfolding main_round
  main_round-InBounds i d v =
      Ends-bind InBounds InBounds Sent (usb_poll b i.events d) _ (usb_poll-InBounds b i.events d v)
        (λ d1 v1.
          Ends-bind InBounds InBounds Sent (sch_task b i.timer i.sample d1) _
            (sch_task-InBounds i.timer i.sample d1 v1)
            (λ d2 v2. elim (Bool-cases i.interrupt_is_ready) [
              | inl free ↦ rw free (report_step-InBounds d2 v2)
              | inr busy ↦ rw busy v2
            ]))

  reset-InBounds : (flash eeprom : Bytes) (osccal : ℕ) → InBounds (reset_state flash eeprom osccal)
  reset-InBounds flash eeprom osccal = record {
    option = omega arith;
    digit = omega arith;
    place = omega arith;
    retries = omega arith;
    entry = omega arith;
    pause = omega arith;
  }

  -- The end of `start_up`.
  ready-InBounds :
      (d : Device)
      → InBounds d
      → InBounds (
          on_printer
            (λ p. record p { report_buffer = record (p.report_buffer) { reportid = 1 } })
            (osccal_init b (ucp_init d)))
  unfolding osccal_init
  ready-InBounds d v = record {
    option = ground (arith, v.option);
    digit = ground (arith, v.digit);
    place = ground (arith, v.place);
    retries = ground (arith, v.retries);
    entry = ground (arith, v.entry);
    pause = ground (arith, v.pause);
  }

  start_up-InBounds :
      (flash eeprom : Bytes) (osccal : ℕ)
      → Ends InBounds InBounds (start_up b (reset_state flash eeprom osccal))
  unfolding start_up
  start_up-InBounds flash eeprom osccal =
      let d0 = record (reset_state flash eeprom osccal) { sch = sch_init } in
      let d1 = uif_init b d0 in
      let v1 =
        queued b _ (Ptr.flash_at b.uif_init_str) Info.flash 0
          (in_menu b d0 MenuState.start (reset-InBounds flash eeprom osccal)) in
      Ends-bind InBounds InBounds InBounds (crd_init b d1) _
        (kept b d1 (crd_init b d1) v1 (
          Ends-mono (OtherCrd d1) (OtherCrd d1) (SameIndices d1) (SameIndices d1) (crd_init b d1)
            (OtherCrd-SameIndices d1) (OtherCrd-SameIndices d1)
            (crd_load_credential-OtherCrd b 0 d1)))
        ready-InBounds

  ended {ℓ} :
      {A : Type ℓ} (P : A → Type 0) (out : Outcome Device A) (x : A)
      → Ends InBounds P out
      → out ≡ done x
      → P x
  ended P out x h e = subst (Ends InBounds P) e h

  -- From the start of the firmware on, with whatever memories, inputs and packets, the menus' indices,
  -- the place and the digit of the PIN and the entry of the queue that is typed are inside their
  -- arrays, no more than two attempts are left, and the pause of the keyboard is at most fifty reports.
  pub running-InBounds : (d : Device) → Running d → InBounds d
  running-InBounds d (booted flash eeprom osccal up) =
      ended InBounds _ d (start_up-InBounds flash eeprom osccal) up
  running-InBounds d (round {d = d0} i r run e) =
      ended Sent _ (r, d) (main_round-InBounds i d0 (running-InBounds d0 run)) e
