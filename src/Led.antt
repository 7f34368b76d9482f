-- ===== src/Led.antt =====
-- led.h and led.c: the two LEDs.
pub mod Blink
pub mod Port
use memtype.Base.{◌%◌, true, false, not, ◌==◌, if◌then◌else◌, add8}
use memtype.State.{Leds, LedStatus, off, red, green, blink_red, blink_green, blink_both}

-- LED_Off() to LED_BlinkBoth().
abbrev pub set_led : LedStatus → Leds → Leds
set_led s l = record l { led = s }

-- The two port bits after the branch of LED_Task for a status.
unfoldable show_status : LedStatus → Leds → Leds
show_status red l = record l { port_red = true; port_green = false }
show_status green l = record l { port_red = false; port_green = true }
show_status blink_both l = record l { port_red = not l.port_red; port_green = not l.port_green }
show_status blink_red l = record l { port_red = not l.port_red; port_green = false }
show_status blink_green l = record l { port_red = false; port_green = not l.port_green }
show_status off l = record l { port_red = false; port_green = false }

-- LED_Task: every sixteenth call drives the port.
unfoldable pub led_task : Leds → Leds
unfolding show_status
led_task l =
    let l' = record l { i = add8 l.i 1 } in if l.i % 16 == 0 then show_status l.led l' else l'
