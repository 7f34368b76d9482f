-- ===== src/Tests/Pins.antt =====
-- The registers at the start.
use memtype.Base.{ℕ, ◌%◌, ◌≡◌, ◌≤◌, ◌<◌, arith}
use memtype.State.{blink_both}
use memtype.Led.Blink.{led_tasks}
use memtype.Led.Port.{PortLeds, leds_of, led_tasks_port, led_tasks_port-led_tasks}
use memtype.Adm.{Registers}
use memtype.Main.Ports.{set_up, set_up-pin}
use memtype.Adm.Pins.{pin}

-- All pins are outputs, and high.
abbrev all_out : Registers
all_out = record { ddrb = 255; portb = 255; admux = 0; adcsra = 0; adcsrb = 0 }

set_up-pin_example :
    let r' = set_up blink_both 0 33 all_out in
    (pin 4 r'.ddrb ≡ 1)
    × (pin 2 r'.portb ≡ 0)
    × (pin 7 r'.adcsra ≡ 1)
    × (pin 6 r'.adcsra ≡ 1)
    × (pin 5 r'.adcsra ≡ 1)
    × (pin 3 r'.adcsra ≡ 0)
    × (r'.adcsra % 8 ≡ 7)
    × (r'.adcsrb ≡ 0)
    × (r'.admux ≡ 33)
set_up-pin_example =
    set_up-pin blink_both 0 33 4 2 all_out (omega arith) (omega arith) (omega arith) (omega arith)
      (omega arith)

-- Both LEDs blink, and the red one and the USB lines are high.
abbrev blinking : PortLeds
blinking = record { led = blink_both; i = 0; portb = 26 }

led_tasks_port-led_tasks_example :
    let r' = led_tasks_port 33 blinking in
    (leds_of r' ≡ led_tasks 33 (leds_of blinking))
    × (r'.portb < 256)
    × ((j : ℕ) → 2 ≤ j → j < 8 → pin j r'.portb ≡ pin j 26)
led_tasks_port-led_tasks_example = led_tasks_port-led_tasks 33 blinking (omega arith)
