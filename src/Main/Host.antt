-- ===== src/Main/Host.antt =====
-- What a host can do to a locked device: calls through the USB driver, and reports that it takes.
use memtype.Base.{ℕ, ◌≡◌, ◌∙◌, refl, sym, subst, ap, hang, List, Option, some, Outcome, done, arith}
use memtype.State.{
  Device, KeyboardReport, KbdStatus, init, pressed, released, idle, delete, delete_pressed,
  device_locked, on_printer, on_leds,
}
use memtype.Board.{Board}
use memtype.Crd.Apply.{crd_apply}
use memtype.Led.{led_task}
use memtype.Print.Strokes.{Sends, stop, update}
use memtype.Ucp.Task.{ucp_task}
use memtype.Ucp.Decode.{ucp_decode}
use memtype.Ucp.Write.{ucp_write_task}
use memtype.Print.Update.{print_update, status_step, released_step, call_back, free_act, read_char}
use memtype.Main.{
  UsbCall, setup, write, usb_call, usb_function_setup, usb_function_write, report_step,
}

-- The device is locked, no packet waits to be written, and both memories are those of `d0`.
pub record Safe (d0 d : Device) : Type 0 where
  pub state : d.ucp.ucp_state ≡ device_locked
  pub no_write : d.ucp.usb_write ≡ 0
  pub flash_kept : d.flash ≡ d0.flash
  pub eeprom_kept : d.eeprom ≡ d0.eeprom

module _ (b : Board) where
  -- What the host makes the device do: a call of the driver, or a keyboard report.
  pub data HostStep : Device → Device → Type 0 where
    called : (c : UsbCall) (d : Device) → HostStep d (usb_call b c d)
    reported :
        (d d' : Device) (r : Option KeyboardReport) → report_step b d ≡ done (r, d') → HostStep d d'

  pub data HostSteps : Device → Device → Type 0 where
    none : (d : Device) → HostSteps d d
    next : {d d1 d2 : Device} → HostSteps d d1 → HostStep d1 d2 → HostSteps d d2

  pub crd_apply-same :
      (d : Device)
      → ((crd_apply b d).ucp ≡ d.ucp)
        × ((crd_apply b d).flash ≡ d.flash)
        × ((crd_apply b d).eeprom ≡ d.eeprom)
        × ((crd_apply b d).uif ≡ d.uif)
  unfolding crd_apply
  crd_apply-same d = (ground arith, ground arith, ground arith, ground arith)

  -- printUpdate leaves the protocol, the memories and the menus alone.
  abbrev pub Same : Device → Device → Type 0
  Same d d' = (d'.ucp ≡ d.ucp) × (d'.flash ≡ d.flash) × (d'.eeprom ≡ d.eeprom) × (d'.uif ≡ d.uif)

  released_step-Same : (c : ℕ) (d : Device) → Same d (released_step b d c)
  unfolding released_step call_back
  released_step-Same c d =
      let (uc, fl, ee, ui) = crd_apply-same (on_printer free_act d) in
      (ground (arith, uc), ground (arith, fl), ground (arith, ee), ground (arith, ui))

  pub status_step-Same : (s : KbdStatus) (c : ℕ) (d : Device) → Same d (status_step b s c d)
  unfolding status_step
  status_step-Same init c d = (refl, refl, refl, refl)
  status_step-Same pressed c d = (refl, refl, refl, refl)
  status_step-Same released c d = released_step-Same c d
  status_step-Same idle c d = (refl, refl, refl, refl)
  status_step-Same delete c d = (refl, refl, refl, refl)
  status_step-Same delete_pressed c d = (refl, refl, refl, refl)

  Same-trans : (d d1 d2 : Device) → Same d d1 → Same d1 d2 → Same d d2
  Same-trans d d1 d2 (u, f, e, m) (u', f', e', m') = (u' ∙ u, f' ∙ f, e' ∙ e, m' ∙ m)

  pub Sends-Same : {d d' : Device} {rs : List KeyboardReport} → Sends b d rs d' → Same d d'
  unfolding print_update
  Sends-Same stop = (refl, refl, refl, refl)
  Sends-Same (update {d} {d'} s) =
      Same-trans d (print_update b d) d' (status_step-Same d.printer.kbd_status (read_char b d) d)
        (Sends-Same s)

  usb_call-Safe : (d0 : Device) (c : UsbCall) (d : Device) → Safe d0 d → Safe d0 (usb_call b c d)
  unfolding usb_call usb_function_setup usb_function_write ucp_task ucp_decode
  usb_call-Safe d0 (setup rq) d v = record {
    state = ground (arith, v.state);
    no_write = ground (arith, v.state, v.no_write);
    flash_kept = ground (arith, v.flash_kept);
    eeprom_kept = ground (arith, v.eeprom_kept);
  }
  usb_call-Safe d0 (write packet len) d v = record {
    state = ground (arith, v.state);
    no_write = ground (arith, v.state, v.no_write);
    flash_kept = ground (arith, v.state, v.flash_kept);
    eeprom_kept = ground (arith, v.state, v.eeprom_kept);
  }

  -- A report goes out, and nothing is written.
  report_step-Safe :
      (d0 d : Device)
      → Safe d0 d
      → (r : Option KeyboardReport) × (d' : Device) × (report_step b d ≡ done (r, d')) × Safe d0 d'
  unfolding report_step ucp_write_task print_update
  report_step-Safe d0 d v =
      let d1 = on_leds led_task d in
      let (uc, fl, ee, _) = status_step-Same d1.printer.kbd_status (read_char b d1) d1 in
      let d2 = print_update b d1 in
      (
        some d2.printer.report_buffer,
        d2,
        ground (arith, v.no_write),
        record {
          state = rw uc v.state;
          no_write = rw uc v.no_write;
          flash_kept = fl ∙ v.flash_kept;
          eeprom_kept = ee ∙ v.eeprom_kept;
        },
      )

  -- The device after a call that returned.
  abbrev returned : Device → Outcome Device (Option KeyboardReport × Device) → Device
  returned d0 (done (r, d)) = d
  returned d0 (hang d) = d0

  HostStep-Safe : (d0 : Device) {d d' : Device} → HostStep d d' → Safe d0 d → Safe d0 d'
  HostStep-Safe d0 (called c d) v = usb_call-Safe d0 c d v
  HostStep-Safe d0 (reported d d' r e) v =
      let (_, d1, e', v') = report_step-Safe d0 d v in
      subst (Safe d0) (ap (returned d0) (sym e' ∙ e)) v'

  HostSteps-Safe : {d0 d : Device} → HostSteps d0 d → Safe d0 d0 → Safe d0 d
  HostSteps-Safe (none d) v = v
  HostSteps-Safe (next s h) v = HostStep-Safe _ h (HostSteps-Safe s v)

  -- However a host calls a locked device, with whatever packets, in whatever order and between
  -- whatever reports, as long as no packet waits to be written at first: the device stays locked, both
  -- memories stay as they are, and its next report goes out.
  pub host_locked :
      {d0 d : Device}
      → d0.ucp.ucp_state ≡ device_locked
      → d0.ucp.usb_write ≡ 0
      → HostSteps d0 d
      → (d.ucp.ucp_state ≡ device_locked)
        × (d.flash ≡ d0.flash)
        × (d.eeprom ≡ d0.eeprom)
        × ((r : Option KeyboardReport) × (d' : Device) × (report_step b d ≡ done (r, d')))
  host_locked {d0} {d} st free steps =
      let v =
        HostSteps-Safe steps
          (record { state = st; no_write = free; flash_kept = refl; eeprom_kept = refl }) in
      let (r, d', e, _) = report_step-Safe d0 d v in
      (v.state, v.flash_kept, v.eeprom_kept, (r, d', e))
