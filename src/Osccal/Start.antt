-- ===== src/Osccal/Start.antt =====
-- OSCCAL_Start of osccal.c: the search for the oscillator's calibration.
use memtype.Base.{
  ℕ, zero, suc, ◌+◌, ◌-◌, ◌/◌, ◌%◌, Bool, true, false, ltb, leb, ◌==◌, if◌then◌else◌, update, add8,
  Option, none, some, Outcome, done, ◌>>=◌, or_hang,
}
use memtype.State.{Device}
use memtype.Board.{Board}

-- targetValue, for a clock of 16.5 MHz.
abbrev pub target_value : ℕ
target_value = 2356

-- An int of 16 bits is its bit pattern, below 65536; `x < y` compares the signed numbers.
abbrev pub below : ℕ → ℕ → Bool
below x y = ltb ((x + 32768) % 65536) ((y + 32768) % 65536)

-- The deviation of a measurement: the difference, which is unsigned and becomes an int, and its
-- negation if that is negative.
unfoldable pub deviation : ℕ → ℕ
deviation x =
    let y = (x + 65536 - target_value) % 65536 in if below y 0 then (65536 - y) % 65536 else y

-- The first round's step and its number of rounds.
abbrev pub first_step : ℕ
first_step = 128

abbrev pub search_rounds : ℕ
search_rounds = 8

abbrev pub neighbour_rounds : ℕ
neighbour_rounds = 257

-- `measure` is usbMeasureFrameLength() at a value of OSCCAL, of which its type keeps 16 bits.
module _ (measure : ℕ → ℕ) where
  -- The binary search: `trialValue` and `x` at its end.
  unfoldable pub search_loop : ℕ → ℕ → ℕ → Option (ℕ × ℕ)
  search_loop zero step trial = none
  search_loop (suc n) step trial =
      let osccal = add8 trial step in
      let x = measure osccal % 65536 in
      let trial' = if below x target_value then osccal else trial in
      elim (step / 2 == 0) [ true ↦ some (trial', x) | false ↦ search_loop n (step / 2) trial' ]

  -- The search of the neighbours, from register value `osccal` on, with the best value so far and its
  -- deviation. `trialValue + 1` is not cut to eight bits, and the register is.
  unfoldable pub neighbour_loop : ℕ → ℕ → ℕ → ℕ → ℕ → Option ℕ
  neighbour_loop zero trial osccal best dev = none
  neighbour_loop (suc n) trial osccal best dev = elim (leb osccal (trial + 1)) [
    | true ↦
        let x = deviation (measure osccal % 65536) in
        elim (below x dev) [
          | true ↦ neighbour_loop n trial (add8 osccal 1) osccal x
          | false ↦ neighbour_loop n trial (add8 osccal 1) best dev
        ]
    | false ↦ some best
  ]

  -- OSCCAL_Start
  unfoldable pub osccal_start : Board → Device → Outcome Device Device
  osccal_start b d = or_hang d (search_loop search_rounds first_step 0) >>= λ (trial, x).
      or_hang d (neighbour_loop neighbour_rounds trial (add8 trial 255) trial x) >>= λ best.
      done (record d { osccal = best; eeprom = update d.eeprom b.osccal_eep_value best })
