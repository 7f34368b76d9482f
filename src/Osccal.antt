-- ===== src/Osccal.antt =====
-- osccal.h and osccal.c: the calibration of the oscillator, as the start loads it. The search for it
-- is in Osccal/Start.
pub mod Start
pub mod Plain
pub mod Search
pub mod Best
pub mod Ends
use memtype.Base.{ℕ, ◌==◌, if◌then◌else◌}
use memtype.State.{Device}
use memtype.Board.{Board}

abbrev pub osccal_invalid : ℕ
osccal_invalid = 0xff

-- OSCCAL_Init
unfoldable pub osccal_init : Board → Device → Device
osccal_init b d =
    let calib = d.eeprom b.osccal_eep_value in
    if calib == osccal_invalid then d else record d { osccal = calib }
