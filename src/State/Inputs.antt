-- ===== src/State/Inputs.antt =====
-- The variables of led.c, uib.c and sch.c.
use memtype.Base.{ℕ, Bool}

-- `ledStatus_t`
pub data LedStatus : Type 0 where
  off red green blink_red blink_green blink_both : LedStatus

-- `led`, the counter of LED_Task, and the two LED bits of PORTB.
pub record Leds : Type 0 where
  pub led : LedStatus
  pub i : ℕ
  pub port_red : Bool
  pub port_green : Bool

-- `buttonStates` of uib.h
pub data Button : Type 0 where
  not_pressed down right up left : Button

-- `UIB_states` of uib.c
pub data UibState : Type 0 where
  init_debounce second_debounce repeat_debounce : UibState

pub record Uib : Type 0 where
  pub button_pressed : Button
  pub button_changed : ℕ
  pub last_button_pressed : Button
  pub debounce_ctr : ℕ
  pub uib_state : UibState

pub record Sch : Type 0 where
  pub last_timer_val : ℕ
  pub tick : ℕ
