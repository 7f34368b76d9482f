-- ===== src/State.antt =====
-- The firmware's global variables, one record for each source file, and the record of them all.
mod Printing
mod Menus
mod Protocol
mod Inputs
pub use Printing.*
pub use Menus.*
pub use Protocol.*
pub use Inputs.*
use memtype.Base.{Bytes, ℕ}

-- Everything that the firmware can change: the two persistent memories and the variables in RAM.
pub record Device : Type 0 where
  pub flash : Bytes
  pub eeprom : Bytes
  pub osccal : ℕ
  pub leds : Leds
  pub adm_adc_value : ℕ
  pub uib : Uib
  pub sch : Sch
  pub printer : Printer
  pub crd : Crd
  pub usi : Usi
  pub uif : Uif
  pub fptr : Fp
  pub ucp : Ucp
  pub hid : Hid

-- A change of one file's variables.
abbrev pub on_printer : (Printer → Printer) → Device → Device
on_printer f d = record d { printer = f d.printer }

abbrev pub on_crd : (Crd → Crd) → Device → Device
on_crd f d = record d { crd = f d.crd }

abbrev pub on_usi : (Usi → Usi) → Device → Device
on_usi f d = record d { usi = f d.usi }

abbrev pub on_uif : (Uif → Uif) → Device → Device
on_uif f d = record d { uif = f d.uif }

abbrev pub on_ucp : (Ucp → Ucp) → Device → Device
on_ucp f d = record d { ucp = f d.ucp }

abbrev pub on_leds : (Leds → Leds) → Device → Device
on_leds f d = record d { leds = f d.leds }
