-- ===== src/Main/Ports.antt =====
-- Port B and the converter as ADM_Init, LED_Init and the calls of LED_Task leave them.
use memtype.Base.{ℕ, ◌%◌, ◌≡◌, ◌≤◌, ◌<◌, ◌∙◌, refl, ap, ltb, ◌==◌, if◌then◌else◌}
use memtype.State.{LedStatus}
use memtype.Adm.{Registers, adm_init}
use memtype.Adm.Pins.{pin, clear_pin_2-pin, clear_pin_2-byte}
use memtype.Led.Port.{led_output, led_output-pin, led_tasks_port, led_tasks_port-led_tasks}

-- The registers after ADM_Init, LED_Init and `n` calls of LED_Task for a status.
abbrev pub set_up : LedStatus → ℕ → ℕ → Registers → Registers
set_up s i n r =
    let r1 = adm_init r in
    record r1 {
      ddrb = led_output r1.ddrb;
      portb = (led_tasks_port n (record { led = s; i = i; portb = r1.portb })).portb;
    }

-- After ADM_Init, LED_Init and any number of calls of LED_Task, the pins of the LEDs (0 and 1) are
-- outputs; pin 2, that of the buttons, is an input whose pull-up is off; and the other pins, those of
-- the USB lines among them, have the direction and the level that they had. The converter is switched
-- on, started, triggered by its own end and without its interrupt, divides the clock by 128, and reads
-- channel 1 left adjusted against the supply.
pub set_up-pin :
    (s : LedStatus) (i n j k : ℕ) (r : Registers)
    → r.ddrb < 256
    → r.portb < 256
    → j < 8
    → 2 ≤ k
    → k < 8
    → let r' = set_up s i n r in
      (pin j r'.ddrb ≡ (if ltb j 2 then 1 else if j == 2 then 0 else pin j r.ddrb))
      × (pin k r'.portb ≡ (if k == 2 then 0 else pin k r.portb))
      × (pin 7 r'.adcsra ≡ 1)
      × (pin 6 r'.adcsra ≡ 1)
      × (pin 5 r'.adcsra ≡ 1)
      × (pin 3 r'.adcsra ≡ 0)
      × (r'.adcsra % 8 ≡ 7)
      × (r'.adcsrb ≡ 0)
      × (r'.admux ≡ 33)
unfolding adm_init
set_up-pin s i n j k r hd hp h lo hi =
    let r1 = adm_init r in
    let (_, _, others) =
      led_tasks_port-led_tasks n (record { led = s; i = i; portb = r1.portb })
        (clear_pin_2-byte r.portb hp) in
    (
      led_output-pin r1.ddrb j (clear_pin_2-byte r.ddrb hd) h
          ∙ ap (λ x. if ltb j 2 then 1 else x) (clear_pin_2-pin r.ddrb j hd h),
      others k lo hi ∙ clear_pin_2-pin r.portb k hp hi,
      refl,
      refl,
      refl,
      refl,
      refl,
      refl,
      refl,
    )
