-- ===== src/Adm.antt =====
-- adm.c: the analogue input of the buttons.
pub mod Pins
use memtype.Base.{ℕ, ◌-◌, ◌*◌, ◌^◌, bit_and, bit_or, Bool, if◌then◌else◌}

-- What the converter shows at a call of ADM_Task: ADIF (a new value is there) and ADCH.
pub record Sample : Type 0 where
  pub new_val : Bool
  pub adch : ℕ

-- ADM_Task, on `adm_ADCValue`.
unfoldable pub adm_task : Sample → ℕ → ℕ
adm_task s adc_value = if s.new_val then s.adch else adc_value

-- The registers that ADM_Init writes: the port of the input, and the converter's ADMUX, ADCSRA and
-- ADCSRB.
pub record Registers : Type 0 where
  pub ddrb : ℕ
  pub portb : ℕ
  pub admux : ℕ
  pub adcsra : ℕ
  pub adcsrb : ℕ

-- The fields of ADMUX.
abbrev adm_vref : ℕ
adm_vref = 0x00

abbrev adm_adlar : ℕ
adm_adlar = 1 * 2 ^ 5

abbrev adm_adcch : ℕ
adm_adcch = 0x01

-- The fields of ADCSRA.
abbrev adm_enable : ℕ
adm_enable = 1 * 2 ^ 7

abbrev adm_start : ℕ
adm_start = 1 * 2 ^ 6

abbrev adm_trg : ℕ
adm_trg = 1 * 2 ^ 5

abbrev adm_valrdy : ℕ
adm_valrdy = 1 * 2 ^ 4

abbrev adm_inten : ℕ
adm_inten = 0 * 2 ^ 3

abbrev adm_convtime : ℕ
adm_convtime = 0x07

-- The fields of ADCSRB.
abbrev adm_bin : ℕ
adm_bin = 0x00

abbrev adm_ipr : ℕ
adm_ipr = 0x00

abbrev adm_trgsrc : ℕ
adm_trgsrc = 0x00

-- `r &= ~(1 << 2)` on a register of eight bits.
unfoldable pub clear_pin_2 : ℕ → ℕ
clear_pin_2 r = bit_and (0xff - 1 * 2 ^ 2) r

-- ADM_Init
unfoldable pub adm_init : Registers → Registers
unfolding clear_pin_2
adm_init r = record {
  ddrb = clear_pin_2 r.ddrb;
  portb = clear_pin_2 r.portb;
  admux = bit_or (bit_or adm_vref adm_adlar) adm_adcch;
  adcsra =
      bit_or (bit_or (bit_or (bit_or (bit_or adm_enable adm_start) adm_trg) adm_valrdy) adm_inten)
        adm_convtime;
  adcsrb = bit_or (bit_or adm_bin adm_ipr) adm_trgsrc;
}
