-- ===== src/Main.antt =====
-- main.c: the callbacks of the USB driver, the start, and the main loop.
mod Usbrq
pub mod Host
pub mod Unlock
pub mod Bounds
pub mod Descriptor
pub mod Settings
pub mod Ports
pub mod Erase
use memtype.Base.{
  ℕ, ◌*◌, bit_and, Bool, true, false, not, ◌==◌, if◌then◌else◌, Bytes, List, [], ◌∷◌, Option, none,
  some, Outcome, done, ◌>>=◌,
}
use memtype.State.{Device, Hid, MsgPtr, idle_rate, protocol_version, report_buffer, custom_report}
use memtype.State.{on_leds, KeyboardReport, on_printer}
use memtype.Board.{Board}
use memtype.Adm.{Sample}
use memtype.Led.{led_task}
use memtype.Sch.{sch_init, sch_task}
use memtype.Uif.{uif_init}
use memtype.Crd.Load.{crd_init}
use memtype.Ucp.Lock.{ucp_init}
use memtype.Ucp.Task.{ucp_task}
use memtype.Ucp.Decode.{ucp_decode}
use memtype.Ucp.Write.{ucp_write_task}
use memtype.Osccal.{osccal_init}
use memtype.Osccal.Start.{osccal_start}
use memtype.Print.Update.{print_update}

-- `usbRequest_t`, as far as the callback reads it: wValue by its bytes.
pub record UsbRequest : Type 0 where
  pub bm_request_type : ℕ
  pub b_request : ℕ
  pub value_low : ℕ
  pub value_high : ℕ

-- What a setup request is answered with: so many bytes, or the data phase that follows.
pub data Reply : Type 0 where
  bytes : ℕ → Reply
  no_msg : Reply

-- A call from the USB driver.
pub data UsbCall : Type 0 where
  setup : UsbRequest → UsbCall
  write : Bytes → ℕ → UsbCall

-- What usbPoll does to the firmware: a call, or USB_RESET_HOOK of usbconfig.h, with its argument and
-- what usbMeasureFrameLength() gives at each value of OSCCAL.
pub data PollEvent : Type 0 where
  call : UsbCall → PollEvent
  reset_hook : Bool → (ℕ → ℕ) → PollEvent

-- What one round of the main loop finds: the events of usbPoll, the timer, the converter, and
-- usbInterruptIsReady().
pub record Input : Type 0 where
  pub events : List PollEvent
  pub timer : ℕ
  pub sample : Sample
  pub interrupt_is_ready : Bool

abbrev on_hid : (Hid → Hid) → Device → Device
on_hid f d = record d { hid = f d.hid }

abbrev send : MsgPtr → ℕ → Device → Reply × Device
send p n d = (bytes n, on_hid (λ h. record h { usb_msg_ptr = p }) d)

module _ (b : Board) where
  -- usbFunctionSetup
  unfoldable pub usb_function_setup : UsbRequest → Device → Reply × Device
  unfolding ucp_task
  usb_function_setup rq d =
      if not (bit_and rq.bm_request_type Usbrq.type_mask == Usbrq.type_class)
      then (bytes 0, d)
      else if rq.b_request == Usbrq.get_idle
      then send idle_rate 1 d
      else if rq.b_request == Usbrq.set_idle
      then (bytes 0, on_hid (λ h. record h { idle_rate = rq.value_high }) d)
      else if rq.b_request == Usbrq.get_protocol
      then send protocol_version 1 d
      else if rq.b_request == Usbrq.set_protocol
      then (bytes 0, on_hid (λ h. record h { protocol_version = rq.value_high }) d)
      else if rq.b_request == Usbrq.get_report
      then (if rq.value_low == 1
          then send report_buffer 3 d
          else if rq.value_low == 2
          then send custom_report 8 (ucp_task b d)
          else (bytes 0, d))
      else if rq.b_request == Usbrq.set_report
      then (if rq.value_low == 2 then (no_msg, d) else (bytes 0, d))
      else (bytes 0, d)

  -- usbFunctionWrite; it always answers that this was the last chunk.
  unfoldable pub usb_function_write : Bytes → ℕ → Device → ℕ × Device
  unfolding ucp_decode
  usb_function_write packet len d = (1, ucp_decode b packet len d)

  -- A call that usbPoll makes into the firmware.
  unfoldable pub usb_call : UsbCall → Device → Device
  unfolding usb_function_setup usb_function_write
  usb_call (setup rq) d = (usb_function_setup rq d).1
  usb_call (write packet len) d = (usb_function_write packet len d).1

  -- USB_RESET_HOOK: the oscillator is calibrated when a reset is over.
  unfoldable pub usb_reset_hook : Bool → (ℕ → ℕ) → Device → Outcome Device Device
  unfolding osccal_start
  usb_reset_hook reset_starts measure d =
      if not reset_starts then osccal_start measure b d else done d

  unfoldable pub usb_event : PollEvent → Device → Outcome Device Device
  unfolding usb_call usb_reset_hook
  usb_event (call c) d = done (usb_call c d)
  usb_event (reset_hook reset_starts measure) d = usb_reset_hook reset_starts measure d

  -- What one usbPoll does.
  unfoldable pub usb_poll : List PollEvent → Device → Outcome Device Device
  unfolding usb_event
  usb_poll [] d = done d
  usb_poll (e ∷ es) d = usb_event e d >>= λ d1. usb_poll es d1

  -- main, up to its loop.
  unfoldable pub start_up : Device → Outcome Device Device
  unfolding osccal_init
  start_up d = crd_init b (uif_init b (record d { sch = sch_init })) >>= λ d1. done (
      on_printer (λ p. record p { report_buffer = record (p.report_buffer) { reportid = 1 } })
        (osccal_init b (ucp_init d1)))

  -- What runs when the driver can take a keyboard report, and the report that it gets.
  unfoldable pub report_step : Device → Outcome Device (Option KeyboardReport × Device)
  unfolding ucp_write_task led_task print_update
  report_step d = ucp_write_task b d >>= λ d1.
      (let d2 = print_update b (on_leds led_task d1) in done (some d2.printer.report_buffer, d2))

  -- One round of the loop of main.
  unfoldable pub main_round : Input → Device → Outcome Device (Option KeyboardReport × Device)
  unfolding usb_poll sch_task report_step
  main_round i d = usb_poll i.events d >>= λ d0. sch_task b i.timer i.sample d0 >>= λ d1.
      if i.interrupt_is_ready then report_step d1 else done (none, d1)
