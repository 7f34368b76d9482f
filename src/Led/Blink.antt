-- ===== src/Led/Blink.antt =====
-- What the LEDs show after any number of calls of LED_Task.
use memtype.Base.{
  ℕ, zero, suc, ◌+◌, ◌/◌, ◌%◌, ◌≡◌, ◌∙◌, refl, ap, ap₂, Bool, true, false, not, ◌==◌, ==_false→ne,
  inl, inr, Bool-cases, arith,
}
use memtype.State.{Leds, LedStatus, off, red, green, blink_red, blink_green, blink_both}
use memtype.Led.{show_status, led_task}

-- The red and the green LED after the port was driven `k` times for a status.
unfoldable pub red_after : LedStatus → ℕ → Bool → Bool
red_after s zero x = x
red_after off (suc k) x = false
red_after red (suc k) x = true
red_after green (suc k) x = false
red_after blink_red (suc k) x = not (red_after blink_red k x)
red_after blink_green (suc k) x = false
red_after blink_both (suc k) x = not (red_after blink_both k x)

unfoldable pub green_after : LedStatus → ℕ → Bool → Bool
green_after s zero x = x
green_after off (suc k) x = false
green_after red (suc k) x = false
green_after green (suc k) x = true
green_after blink_red (suc k) x = false
green_after blink_green (suc k) x = not (green_after blink_green k x)
green_after blink_both (suc k) x = not (green_after blink_both k x)

unfoldable pub led_tasks : ℕ → Leds → Leds
led_tasks zero l = l
led_tasks (suc n) l = led_task (led_tasks n l)

-- `n` calls of which the port was driven in `k`.
abbrev pub driven : ℕ → ℕ → Leds → Leds
driven n k l = record l {
  i = n % 256;
  port_red = red_after l.led k l.port_red;
  port_green = green_after l.led k l.port_green;
}

show_status-driven :
    (s : LedStatus) (n k : ℕ) (l : Leds)
    → show_status s (record (driven n k (record l { led = s })) { i = suc n % 256 })
      ≡ driven (suc n) (suc k) (record l { led = s })
unfolding show_status red_after green_after
show_status-driven off n k l = refl
show_status-driven red n k l = refl
show_status-driven green n k l = refl
show_status-driven blink_red n k l = refl
show_status-driven blink_green n k l = refl
show_status-driven blink_both n k l = refl

led_task-driven :
    (n : ℕ) (l : Leds)
    → led_task (driven n ((n + 15) / 16) l) ≡ driven (suc n) ((suc n + 15) / 16) l
unfolding led_task
led_task-driven n l =
    let k = (n + 15) / 16 in
    let ei : (n % 256 + 1) % 256 ≡ suc n % 256 = omega arith in
    elim (Bool-cases (n % 256 % 16 == 0)) [
      | inl now ↦
          let z : n % 256 % 16 ≡ 0 = ground (arith, now) in
          let ek : suc k ≡ (suc n + 15) / 16 = omega (arith, z) in
          let first : led_task (driven n k l)
              ≡ show_status l.led (record (driven n k l) { i = suc n % 256 }) =
            rw now (ap (λ x. show_status l.led (record (driven n k l) { i = x })) ei) in
          first ∙ show_status-driven l.led n k l ∙ ap (λ x. driven (suc n) x l) ek
      | inr waits ↦
          let ek : k ≡ (suc n + 15) / 16 = omega (arith, ==_false→ne (n % 256 % 16) 0 waits) in
          rw waits (ap₂ (λ x y. record (driven n y l) { i = x }) ei ek)
    ]

-- LED_Task drives the port at the first call and at every sixteenth call after it, also when its
-- counter wraps: the LEDs of a status are on or off from the first call on, and blinking ones change
-- at each of these calls and at no other.
pub led_tasks-driven : (n : ℕ) (l : Leds) → l.i ≡ 0 → led_tasks n l ≡ driven n ((n + 15) / 16) l
unfolding led_tasks red_after green_after
led_tasks-driven zero l z = ap (λ k. record l { i = k }) z
led_tasks-driven (suc n) l z = ap led_task (led_tasks-driven n l z) ∙ led_task-driven n l
