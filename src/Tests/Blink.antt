-- ===== src/Tests/Blink.antt =====
-- A blinking LED.
use memtype.Base.{◌≡◌, refl, true, false}
use memtype.State.{Leds, blink_red}
use memtype.Led.Blink.{led_tasks, driven, led_tasks-driven}

abbrev blinking : Leds
blinking = record { led = blink_red; i = 0; port_red = false; port_green = true }

led_tasks-driven_example : led_tasks 33 blinking ≡ driven 33 3 blinking
led_tasks-driven_example = led_tasks-driven 33 blinking refl
