-- ===== src/Main/Bounds/Writing.antt =====
-- UCP_WriteTask and the calls of the host leave the indices alone.
use memtype.Base.{
  subst, true, false, ℕ, zero, suc, ◌+◌, ◌≡◌, refl, sym, ap, ap₂, ◌∙◌, List, [], ◌∷◌, ◌==◌, leb,
  inl, inr, Bool-cases, or_hang, Ends, Ends-bind, Ends-mono, or_hang-Ends, arith,
}
use memtype.State.{Device, Printer, Ptr, Info, UcpState, on_ucp}
use memtype.Board.{Board}
use memtype.Crd.Load.{crd_init}
use memtype.Fls.{fls_write}
use memtype.Ucp.Task.{ucp_task}
use memtype.Ucp.Decode.{ucp_decode}
use memtype.Ucp.Write.{store_byte, flush_due, flush, store_loop, ucp_write_task}
use memtype.Osccal.Start.{osccal_start}
use memtype.Osccal.Ends.{Calibrated, osccal_start-Calibrated}
use memtype.Main.{
  UsbCall, setup, write, PollEvent, call, reset_hook, usb_call, usb_event, usb_reset_hook, usb_poll,
  usb_function_setup, usb_function_write,
}
use memtype.Print.Queue.{print-same}
use memtype.Main.Bounds.Defs.{InBounds, SameIndices, SameIndices-InBounds}
use memtype.Main.Bounds.Loading.{OtherCrd, crd_load_credential-OtherCrd}

-- Only the flash and the variables of ucp.c and crd.c are other.
abbrev Wrote : Device → Device → Type 0
Wrote d d' = d' ≡ record d { flash = d'.flash; ucp = d'.ucp; crd = d'.crd }

Wrote-trans : (d d1 d2 : Device) → Wrote d d1 → Wrote d1 d2 → Wrote d d2
Wrote-trans d d1 d2 e e' =
    e' ∙ ap (λ (x : Device). record x { flash = d2.flash; ucp = d2.ucp; crd = d2.crd }) e

module _ (b : Board) where
  flush-Wrote : (d : Device) → Ends (Wrote d) (Wrote d) (flush b d)
  unfolding flush
  flush-Wrote d =
      let u = d.ucp in
      let P = Wrote d in
      let found = or_hang d (fls_write b.spm d.flash u.temp_buff u.flash_write_addr u.buff_index) in
      Ends-bind P (λ _. P d) P found _ (or_hang-Ends P (λ _. P d) d _ refl (λ off. refl))
        (λ f h. refl)

  OtherCrd-Wrote : (d d' : Device) → OtherCrd d d' → Wrote d d'
  OtherCrd-Wrote d d' e =
      e
      ∙ ap₂ (λ f u. record d { flash = f; ucp = u; crd = d'.crd })
          (sym (ap (λ (x : Device). x.flash) e)) (sym (ap (λ (x : Device). x.ucp) e))

  flush-from : (d0 d : Device) → Wrote d0 d → Ends (Wrote d0) (Wrote d0) (flush b d)
  flush-from d0 d e =
      Ends-mono (Wrote d) (Wrote d) (Wrote d0) (Wrote d0) (flush b d)
        (λ d1 h. Wrote-trans d0 d d1 e h) (λ d1 h. Wrote-trans d0 d d1 e h) (flush-Wrote d)

  -- The credentials are loaded anew.
  reload-Wrote :
      (d0 d : Device)
      → Wrote d0 d
      → Ends
          (Wrote d0)
          (Wrote d0)
          (crd_init b (on_ucp (λ u. record u { ucp_state = UcpState.idle }) d))
  reload-Wrote d0 d e =
      let d1 = on_ucp (λ u. record u { ucp_state = UcpState.idle }) d in
      let step : (d2 : Device) → OtherCrd d1 d2 → Wrote d0 d2 =
        λ d2 h. Wrote-trans d0 d1 d2 (Wrote-trans d0 d d1 e refl) (OtherCrd-Wrote d1 d2 h) in
      Ends-mono (OtherCrd d1) (OtherCrd d1) (Wrote d0) (Wrote d0) (crd_init b d1) step step
        (crd_load_credential-OtherCrd b 0 d1)

  store_loop-Wrote :
      (n i : ℕ) (d0 d : Device) → Wrote d0 d → Ends (Wrote d0) (Wrote d0) (store_loop b n i d)
  unfolding store_loop
  store_loop-Wrote zero i d0 d e = e
  store_loop-Wrote (suc n) i d0 d e =
      let d1 = on_ucp (store_byte i) d in
      let P = Wrote d0 in
      let e1 : Wrote d0 d1 = Wrote-trans d0 d d1 e refl in
      elim (Bool-cases (flush_due d1.ucp)) [
        | inr early ↦ rw (early, store_loop) (store_loop-Wrote n (i + 1) d0 d1 e1)
        | inl due ↦
            rw (due, store_loop)
              (Ends-bind P P P (flush b d1) _ (flush-from d0 d1 e1) (λ d2 e2.
                elim (Bool-cases (leb d2.ucp.read_end d2.ucp.read_offset)) [
                  | inl last ↦ rw last (reload-Wrote d0 d2 e2)
                  | inr more ↦ rw more (store_loop-Wrote n (i + 1) d0 d2 e2)
                ]))
      ]

  written-Wrote :
      (d0 d : Device) → Wrote d0 d → Wrote d0 (on_ucp (λ u. record u { usb_write = 0 }) d)
  written-Wrote d0 d e = Wrote-trans d0 d _ e refl

  ucp_write_task-Wrote : (d : Device) → Ends (Wrote d) (Wrote d) (ucp_write_task b d)
  unfolding ucp_write_task
  ucp_write_task-Wrote d = elim (Bool-cases (d.ucp.usb_write == 1)) [
    | inl waits ↦ rw waits (
        Ends-bind (Wrote d) (Wrote d) (Wrote d) (store_loop b 8 0 d) _
          (store_loop-Wrote 8 0 d d refl) (λ d1 e. written-Wrote d d1 e))
    | inr free ↦ rw free refl
  ]

  Wrote-SameIndices : (d d' : Device) → Wrote d d' → SameIndices d d'
  Wrote-SameIndices d d' e = record {
    uif_kept = ap (λ (x : Device). x.uif.options_index) e;
    digit_kept = ap (λ (x : Device). x.uif.user_input_index) e;
    place_kept = ap (λ (x : Device). x.usi.user_text_index) e;
    retries_kept = ap (λ (x : Device). x.usi.pin_retries) e;
    entry_kept = ap (λ (x : Device). x.printer.act_string) e;
    pause_kept = ap (λ (x : Device). x.printer.debounce_count) e;
  }

  pub ucp_write_task-SameIndices :
      (d : Device) → Ends (SameIndices d) (SameIndices d) (ucp_write_task b d)
  ucp_write_task-SameIndices d =
      Ends-mono (Wrote d) (Wrote d) (SameIndices d) (SameIndices d) (ucp_write_task b d)
        (Wrote-SameIndices d) (Wrote-SameIndices d) (ucp_write_task-Wrote d)

  -- A call of the host: at most the first screen is shown.
  SameIndices-refl : (d : Device) → SameIndices d d
  SameIndices-refl d = record {
    uif_kept = refl;
    digit_kept = refl;
    place_kept = refl;
    retries_kept = refl;
    entry_kept = refl;
    pause_kept = refl;
  }

  usb_call-SameIndices : (c : UsbCall) (d : Device) → SameIndices d (usb_call b c d)
  unfolding usb_call usb_function_setup usb_function_write ucp_task ucp_decode
  usb_call-SameIndices (setup rq) d = record {
    uif_kept = ground arith;
    digit_kept = ground arith;
    place_kept = ground arith;
    retries_kept = ground arith;
    entry_kept = ground arith;
    pause_kept = ground arith;
  }
  usb_call-SameIndices (write packet len) d =
      let e = print-same (Ptr.flash_at b.uif_init_str) Info.flash 0 d.printer in
      record {
        uif_kept = ground arith;
        digit_kept = ground arith;
        place_kept = ground arith;
        retries_kept = ground arith;
        entry_kept = ground (arith, ap (λ (p : Printer). p.act_string) e);
        pause_kept = ground (arith, ap (λ (p : Printer). p.debounce_count) e);
      }

  usb_event-SameIndices :
      (e : PollEvent) (d : Device) → Ends (SameIndices d) (SameIndices d) (usb_event b e d)
  unfolding usb_event usb_reset_hook
  usb_event-SameIndices (call c) d = usb_call-SameIndices c d
  usb_event-SameIndices (reset_hook true measure) d = SameIndices-refl d
  usb_event-SameIndices (reset_hook false measure) d =
      Ends-mono (λ s. s ≡ d) (Calibrated b d) (SameIndices d) (SameIndices d)
        (osccal_start measure b d) (λ s e. subst (SameIndices d) (sym e) (SameIndices-refl d))
        (λ d' e. subst (SameIndices d) (sym e) (record {
          uif_kept = refl;
          digit_kept = refl;
          place_kept = refl;
          retries_kept = refl;
          entry_kept = refl;
          pause_kept = refl;
        }))
        (osccal_start-Calibrated measure b d)

  pub usb_poll-InBounds :
      (es : List PollEvent) (d : Device) → InBounds d → Ends InBounds InBounds (usb_poll b es d)
  unfolding usb_poll
  usb_poll-InBounds [] d v = v
  usb_poll-InBounds (e ∷ es) d v =
      Ends-bind InBounds InBounds InBounds (usb_event b e d) _
        (Ends-mono (SameIndices d) (SameIndices d) InBounds InBounds (usb_event b e d)
          (λ x s. SameIndices-InBounds d x s v) (λ x s. SameIndices-InBounds d x s v)
          (usb_event-SameIndices e d))
        (λ d1 v1. usb_poll-InBounds es d1 v1)
