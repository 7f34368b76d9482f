-- ===== src/Main/Unlock/Poll.antt =====
-- What usbPoll does to a locked device.
use memtype.Base.{
  ℕ, ◌≡◌, ◌≢◌, ◌∙◌, refl, sym, ap, subst, Bytes, List, [], ◌∷◌, true, false, add16, Ends, Ends-bind,
  Ends-mono, arith,
}
use memtype.State.{Device, Hid, device_locked}
use memtype.Board.{Board}
use memtype.Ucp.Task.{ucp_task}
use memtype.Ucp.Decode.{ucp_decode}
use memtype.Osccal.Start.{osccal_start}
use memtype.Osccal.Ends.{Calibrated, osccal_start-Calibrated}
use memtype.Usi.Check.{pin_hash}
use memtype.Main.{
  UsbCall, setup, write, PollEvent, call, reset_hook, usb_call, usb_event, usb_reset_hook, usb_poll,
  usb_function_setup, usb_function_write,
}
use memtype.Main.Unlock.Waiting.{Waiting}
use memtype.Main.Unlock.Defs.{EntryMenu, Locked, PinEntered}

module _ (b : Board) where
  -- The device with another report for the host, other variables of the USB callbacks, and another
  -- calibration.
  pub record Polled (d d' : Device) : Type 0 where
    pub same : d' ≡ record d {
      ucp = record (d.ucp) { custom_report = d'.ucp.custom_report };
      hid = d'.hid;
      osccal = d'.osccal;
      eeprom = d'.eeprom;
    }
    pub kept : (j : ℕ) → j ≢ b.osccal_eep_value → d'.eeprom j ≡ d.eeprom j

  abbrev polled : Bytes → Hid → ℕ → Bytes → Device → Device
  polled report h osccal eeprom d = record d {
    ucp = record (d.ucp) { custom_report = report };
    hid = h;
    osccal = osccal;
    eeprom = eeprom;
  }

  Polled-refl : (d : Device) → Polled d d
  Polled-refl d = record { same = refl; kept = λ j ne. refl }

  Polled-trans : (d d1 d2 : Device) → Polled d d1 → Polled d1 d2 → Polled d d2
  Polled-trans d d1 d2 p q = record {
    same = q.same ∙ ap (polled d2.ucp.custom_report d2.hid d2.osccal d2.eeprom) p.same;
    kept = λ j ne. q.kept j ne ∙ p.kept j ne;
  }

  Polled-locked :
      (d d' : Device)
      → Polled d d'
      → d.ucp.ucp_state ≡ device_locked
      → d'.ucp.ucp_state ≡ device_locked
  Polled-locked d d' p st = ap (λ (x : Device). x.ucp.ucp_state) p.same ∙ st

  usb_call-Polled :
      (c : UsbCall) (d : Device) → d.ucp.ucp_state ≡ device_locked → Polled d (usb_call b c d)
  unfolding usb_call usb_function_setup usb_function_write ucp_task ucp_decode
  usb_call-Polled (setup rq) d st = record { same = ground arith; kept = λ j ne. ground arith }
  usb_call-Polled (write packet len) d st = record {
    same = ground arith;
    kept = λ j ne. ground arith;
  }

  Calibrated-Polled : (d d' : Device) → Calibrated b d d' → Polled d d'
  Calibrated-Polled d d' e = record {
    same = e ∙ ap (λ (x : Device). polled x.ucp.custom_report x.hid d'.osccal x.eeprom d) (sym e);
    kept = λ j ne. ap (λ (x : Device). x.eeprom j) e ∙ ground (arith, ne);
  }

  usb_event-Polled :
      (e : PollEvent) (d : Device)
      → d.ucp.ucp_state ≡ device_locked
      → Ends (Polled d) (Polled d) (usb_event b e d)
  unfolding usb_event usb_reset_hook
  usb_event-Polled (call c) d st = usb_call-Polled c d st
  usb_event-Polled (reset_hook true measure) d st = Polled-refl d
  usb_event-Polled (reset_hook false measure) d st =
      Ends-mono (λ s. s ≡ d) (Calibrated b d) (Polled d) (Polled d) (osccal_start measure b d)
        (λ s e. subst (Polled d) (sym e) (Polled-refl d)) (λ d' e. Calibrated-Polled d d' e)
        (osccal_start-Calibrated measure b d)

  pub usb_poll-Polled :
      (es : List PollEvent) (d : Device)
      → d.ucp.ucp_state ≡ device_locked
      → Ends (Polled d) (Polled d) (usb_poll b es d)
  unfolding usb_poll
  usb_poll-Polled [] d st = Polled-refl d
  usb_poll-Polled (e ∷ es) d st =
      Ends-bind (Polled d) (Polled d) (Polled d) (usb_event b e d) _ (usb_event-Polled e d st)
        (λ d1 p.
          Ends-mono (Polled d1) (Polled d1) (Polled d) (Polled d) (usb_poll b es d1)
            (λ x q. Polled-trans d d1 x p q) (λ x q. Polled-trans d d1 x p q)
            (usb_poll-Polled es d1 (Polled-locked d d1 p st)))

  pub Polled-Locked :
      (flash eeprom : Bytes) (d d' : Device)
      → Polled d d'
      → Locked b flash eeprom d
      → Locked b flash eeprom d'
  Polled-Locked flash eeprom d d' p v = record {
    state = Polled-locked d d' p v.state;
    no_write = ap (λ (x : Device). x.ucp.usb_write) p.same ∙ v.no_write;
    menu = subst EntryMenu (sym (ap (λ (x : Device). x.uif.uif_state) p.same)) v.menu;
    waiting = subst (Waiting b flash) (sym p.same) v.waiting;
    flash_kept = ap (λ (x : Device). x.flash) p.same ∙ v.flash_kept;
    eeprom_kept = λ j out. p.kept j out.1 ∙ v.eeprom_kept j out;
  }

  -- usbPoll does not enter the PIN.
  pub Polled-PinEntered : (d d' : Device) → Polled d d' → PinEntered b d' → PinEntered b d
  Polled-PinEntered d d' p e = record {
    menu = sym (ap (λ (x : Device). x.uif.uif_state) p.same) ∙ e.menu;
    index = sym (ap (λ (x : Device). x.usi.user_text_index) p.same) ∙ e.index;
    right_pin = λ k lt.
        sym (p.kept (add16 b.lock_hash k) (b.osccal_apart k lt))
        ∙ e.right_pin k lt
        ∙ ap (λ (x : Device). pin_hash b x.usi.user_pin x k) p.same;
  }
