-- ===== src/Led/Port.antt =====
-- led.h: the LEDs on the register of port B, and LED_Task on that register.
use memtype.Base.{
  ℕ, zero, suc, ◌-◌, ◌*◌, ◌%◌, ◌^◌, ◌≤◌, ◌<◌, ◌≡◌, ◌∙◌, refl, sym, ap, ap₂, bit_and, bit_or,
  bit_xor, Bool, true, false, ◌==◌, ltb, ◌&&◌, if◌then◌else◌, add8, table_holds, table_holds_lem,
  inl, inr, Bool-cases, arith,
}
use memtype.State.{Leds, LedStatus, off, red, green, blink_red, blink_green, blink_both}
use memtype.Adm.Pins.{pin}
use memtype.Led.{show_status, led_task}
use memtype.Led.Blink.{led_tasks}

-- LED_RED and LED_GREEN
abbrev led_red : ℕ
led_red = 1

abbrev led_green : ℕ
led_green = 0

-- LED_HIGH (also LED_ON), LED_LOW (also LED_OFF) and LED_TOGGLE, on PORTB.
abbrev led_high : ℕ → ℕ → ℕ
led_high led portb = bit_or portb (1 * 2 ^ led)

abbrev led_low : ℕ → ℕ → ℕ
led_low led portb = bit_and portb (255 - 1 * 2 ^ led)

abbrev led_toggle : ℕ → ℕ → ℕ
led_toggle led portb = bit_xor portb (1 * 2 ^ led)

-- LED_OUTPUT (also LED_Init), on DDRB.
abbrev pub led_output : ℕ → ℕ
led_output ddrb = bit_or ddrb (bit_or (1 * 2 ^ led_red) (1 * 2 ^ led_green))

-- The branches of LED_Task, on PORTB.
unfoldable drive : LedStatus → ℕ → ℕ
drive red p = led_low led_green (led_high led_red p)
drive green p = led_high led_green (led_low led_red p)
drive blink_both p = led_toggle led_green (led_toggle led_red p)
drive blink_red p = led_low led_green (led_toggle led_red p)
drive blink_green p = led_toggle led_green (led_low led_red p)
drive off p = led_low led_green (led_low led_red p)

-- What LED_Task keeps, and the register.
pub record PortLeds : Type 0 where
  pub led : LedStatus
  pub i : ℕ
  pub portb : ℕ

-- LED_Task
unfoldable pub led_task_port : PortLeds → PortLeds
unfolding drive
led_task_port r =
    let r' = record r { i = add8 r.i 1 } in
    if r.i % 16 == 0 then record r' { portb = drive r.led r.portb } else r'

unfoldable pub led_tasks_port : ℕ → PortLeds → PortLeds
led_tasks_port zero r = r
led_tasks_port (suc n) r = led_task_port (led_tasks_port n r)

-- The LEDs that the register shows.
abbrev pub leds_of : PortLeds → Leds
leds_of r = record {
  led = r.led;
  i = r.i;
  port_red = pin led_red r.portb == 1;
  port_green = pin led_green r.portb == 1;
}

abbrev bit : Bool → ℕ
bit x = if x then 1 else 0

bit-==_lem : (x : Bool) (p : ℕ) → p ≡ bit x → (p == 1) ≡ x
bit-==_lem true p e = ground (arith, e)
bit-==_lem false p e = ground (arith, e)

-- What a branch is to do at pin `j`, and that it keeps to the byte.
wanted : LedStatus → ℕ → ℕ → Bool
wanted s p j =
    let l = show_status s (leds_of (record { led = s; i = 0; portb = p })) in
    ltb (drive s p) 256
    && (pin j (drive s p) == (
        if j == led_red
        then bit l.port_red
        else if j == led_green
        then bit l.port_green
        else pin j p))

all_wanted : (s : LedStatus) → table_holds (λ p. table_holds (wanted s p) 8) 256 ≡ true
unfolding table_holds wanted drive show_status
all_wanted off = refl
all_wanted red = refl
all_wanted green = refl
all_wanted blink_red = refl
all_wanted blink_green = refl
all_wanted blink_both = refl

is_wanted : (s : LedStatus) (p j : ℕ) → p < 256 → j < 8 → wanted s p j ≡ true
is_wanted s p j small inside =
    table_holds_lem (wanted s p) 8 j
      (table_holds_lem (λ x. table_holds (wanted s x) 8) 256 p (all_wanted s) small) inside

-- The register stays a byte with the pins from 2 on as they were.
record Kept (p q : ℕ) : Type 0 where
  small : q < 256
  others : (j : ℕ) → 2 ≤ j → j < 8 → pin j q ≡ pin j p

drive-Kept : (s : LedStatus) (p : ℕ) → p < 256 → Kept p (drive s p)
unfolding wanted
drive-Kept s p h = record {
  small = ground (arith, is_wanted s p 0 h (omega arith));
  others = λ j lo hi. ground (arith, is_wanted s p j h hi);
}

-- The LEDs of a branch do not depend on the counter.
abbrev shown : LedStatus → ℕ → Leds
shown s p = show_status s (leds_of (record { led = s; i = 0; portb = p }))

show_status-shown :
    (s : LedStatus) (i p : ℕ)
    → show_status s (leds_of (record { led = s; i = i; portb = p }))
      ≡ record (shown s p) { led = s; i = i }
unfolding show_status
show_status-shown off i p = refl
show_status-shown red i p = refl
show_status-shown green i p = refl
show_status-shown blink_red i p = refl
show_status-shown blink_green i p = refl
show_status-shown blink_both i p = refl

drive-show_status :
    (s : LedStatus) (i p : ℕ)
    → p < 256
    → leds_of (record { led = s; i = i; portb = drive s p })
      ≡ show_status s (leds_of (record { led = s; i = i; portb = p }))
unfolding wanted
drive-show_status s i p h =
    let is_red =
      bit-==_lem (shown s p).port_red _ (ground (arith, is_wanted s p 1 h (omega arith))) in
    let is_green =
      bit-==_lem (shown s p).port_green _ (ground (arith, is_wanted s p 0 h (omega arith))) in
    ap₂ (λ x y. record { led = s; i = i; port_red = x; port_green = y }) is_red is_green
    ∙ sym (show_status-shown s i p)

led_task_port-led_task :
    (r : PortLeds)
    → r.portb < 256
    → (leds_of (led_task_port r) ≡ led_task (leds_of r)) × Kept r.portb (led_task_port r).portb
unfolding led_task_port led_task
led_task_port-led_task r h = elim (Bool-cases (r.i % 16 == 0)) [
  | inl now ↦ rw now (drive-show_status r.led (add8 r.i 1) r.portb h, drive-Kept r.led r.portb h)
  | inr waits ↦ rw waits (refl, record { small = h; others = λ j lo hi. refl })
]

-- LED_Task on the register of port B does what the LEDs are to show, after any number of calls, and
-- leaves every other pin as it was: those of the USB lines (3 and 4) and of the buttons (2).
pub led_tasks_port-led_tasks :
    (n : ℕ) (r : PortLeds)
    → r.portb < 256
    → let r' = led_tasks_port n r in
      (leds_of r' ≡ led_tasks n (leds_of r))
      × (r'.portb < 256)
      × ((j : ℕ) → 2 ≤ j → j < 8 → pin j r'.portb ≡ pin j r.portb)
unfolding led_tasks_port led_tasks
led_tasks_port-led_tasks zero r h = (refl, h, λ j lo hi. refl)
led_tasks_port-led_tasks (suc n) r h =
    let (same, small, others) = led_tasks_port-led_tasks n r h in
    let (step, k) = led_task_port-led_task (led_tasks_port n r) small in
    (step ∙ ap led_task same, k.small, λ j lo hi. k.others j lo hi ∙ others j lo hi)

-- LED_Init makes the pins of the LEDs outputs and leaves the other pins as they are.
output_as_wanted : ℕ → ℕ → Bool
output_as_wanted r j = pin j (led_output r) == (if ltb j 2 then 1 else pin j r)

led_output_table : table_holds (λ r. table_holds (output_as_wanted r) 8) 256 ≡ true
unfolding table_holds output_as_wanted
led_output_table = refl

pub led_output-pin :
    (r j : ℕ) → r < 256 → j < 8 → pin j (led_output r) ≡ (if ltb j 2 then 1 else pin j r)
unfolding output_as_wanted
led_output-pin r j small inside =
    let row =
      table_holds_lem (λ x. table_holds (output_as_wanted x) 8) 256 r led_output_table small in
    let cell = table_holds_lem (output_as_wanted r) 8 j row inside in ground (arith, cell)
