-- ===== src/Uib.antt =====
-- uib.h and uib.c: the four buttons on one analogue input, and their debouncing.
pub mod Hold
use memtype.Base.{ℕ, ◌-◌, ◌*◌, ◌/◌, Bool, true, false, ltb, leb, if◌then◌else◌, add16}
use memtype.State.{
  Uib, Button, not_pressed, down, right, up, left, UibState, init_debounce, second_debounce,
  repeat_debounce,
}

abbrev pub adc_max : ℕ
adc_max = 0xff

abbrev pub num_of_but : ℕ
num_of_but = 4

abbrev pub adc_span : ℕ
adc_span = adc_max / num_of_but

-- RANGE1 to RANGE4
abbrev pub range : ℕ → ℕ
range k = k * adc_span - adc_span / 2

-- uib_INIT_DEBOUNCE, uib_SECOND_DEBOUNCE and uib_REPEAT_DEBOUNCE
abbrev pub debounce : UibState → ℕ
debounce init_debounce = 5
debounce second_debounce = 100
debounce repeat_debounce = 25

-- `uib_state++` where the code makes it.
abbrev pub next_state : UibState → UibState
next_state init_debounce = second_debounce
next_state second_debounce = repeat_debounce
next_state repeat_debounce = repeat_debounce

-- The chain of comparisons of UIB_Task.
unfoldable pub button_of : ℕ → Button
button_of v =
    if ltb (range 4) v
    then right
    else if ltb (range 3) v
    then up
    else if ltb (range 2) v
    then down
    else if ltb (range 1) v
    then left
    else not_pressed

unfoldable pub same_button : Button → Button → Bool
same_button not_pressed not_pressed = true
same_button down down = true
same_button right right = true
same_button up up = true
same_button left left = true
same_button _ _ = false

-- The switch of UIB_Task.
unfoldable pub debounce_step : Uib → Uib
debounce_step u =
    if leb (debounce u.uib_state) u.debounce_ctr
    then record u { button_changed = 1; debounce_ctr = 0; uib_state = next_state u.uib_state }
    else u

-- UIB_Task, with the value of ADM_GetAdcValue().
unfoldable pub uib_task : ℕ → Uib → Uib
uib_task v u =
    let b = button_of v in
    let u1 = record u { last_button_pressed = u.button_pressed; button_pressed = b } in
    let u2 =
      (if same_button u.button_pressed b
        then record u1 { debounce_ctr = add16 u.debounce_ctr 1 }
        else record u1 { uib_state = init_debounce; debounce_ctr = 0 }) in
    debounce_step (record u2 { button_changed = 0 })
