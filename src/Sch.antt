-- ===== src/Sch.antt =====
-- sch.h and sch.c: the tasks that run every 10 ms.
use memtype.Base.{ℕ, ◌%◌, ◌==◌, if◌then◌else◌, bit_or, add8, Outcome, done}
use memtype.State.{Device, Sch}
use memtype.Board.{Board}
use memtype.Adm.{Sample, adm_task}
use memtype.Uib.{uib_task}
use memtype.Uif.Task.{uif_task}

-- The timer's registers TCCR1 and GTCCR, as SCH_Init writes them: the fields CTC, PWM, CP and PR, of
-- which PR divides the clock by 16384.
pub record Registers : Type 0 where
  pub tccr1 : ℕ
  pub gtccr : ℕ

abbrev sch_ctc : ℕ
sch_ctc = 0x00

abbrev sch_pwm : ℕ
sch_pwm = 0x00

abbrev sch_cp : ℕ
sch_cp = 0x00

abbrev sch_pr : ℕ
sch_pr = 0x0f

abbrev sch_value : ℕ
sch_value = 0x00

abbrev sch_init_registers : Registers
sch_init_registers = record {
  tccr1 = bit_or (bit_or (bit_or sch_ctc sch_pwm) sch_cp) sch_pr;
  gtccr = sch_value;
}

-- SCH_Init, on its variables.
abbrev pub sch_init : Sch
sch_init = record { last_timer_val = 0; tick = 0 }

module _ (b : Board) where
  -- sch_Task_10ms, with what the converter shows.
  unfoldable pub sch_task_10ms : Sample → Device → Outcome Device Device
  unfolding adm_task uib_task uif_task
  sch_task_10ms sample d =
      let v = adm_task sample d.adm_adc_value in
      uif_task b (record d { adm_adc_value = v; uib = uib_task v d.uib })

  -- SCH_Task, with the value of the timer.
  unfoldable pub sch_task : ℕ → Sample → Device → Outcome Device Device
  unfolding sch_task_10ms
  sch_task timer sample d =
      let tick = add8 d.sch.tick 1 in
      let d1 = record d { sch = record { last_timer_val = timer; tick = tick } } in
      if d.sch.last_timer_val == timer
      then done d
      else if tick % 10 == 0
      then sch_task_10ms sample d1
      else done d1
