-- ===== src/Board.antt =====
-- What the firmware is linked with and runs on: the addresses that the linker gives to its
-- constants, the self-programming instruction of the controller (avr/boot.h), the assembler routines
-- of noekeon.S, and the RAM around the variables.
mod Pages
pub use Pages.*
use memtype.Base.{ℕ, ◌<◌, ◌≢◌, add16, Bytes}
use memtype.State.{Device, Ptr}

pub record Board : Type 0 where
  -- Flash addresses: `credentials`, the strings and tables that are marked PROGMEM.
  pub credentials : ℕ
  pub uif_init_str : ℕ
  pub opt_start_str : ℕ
  pub pin_str : ℕ
  pub locked_str : ℕ
  pub pinreset_str : ℕ
  pub usi_keys : ℕ
  pub lock_hash_pgm : ℕ
  pub info_data : ℕ
  -- EEPROM addresses: `LOCK_HASH`, `keyboardLUT_ES`, `OSCCAL_EEP_VALUE`.
  pub lock_hash : ℕ
  pub keyboard_lut : ℕ
  pub osccal_eep_value : ℕ
  -- The linker lays `OSCCAL_EEP_VALUE` outside `LOCK_HASH`.
  pub osccal_apart : (k : ℕ) → k < 16 → add16 lock_hash k ≢ osccal_eep_value
  -- RAM as the linker lays the variables out, and a read past the end of an object.
  pub ram : Device → Bytes
  pub beyond : Device → Ptr → ℕ
  -- noekeon_encrypt and noekeon_decrypt: from key and text to text.
  pub noekeon_encrypt : Bytes → Bytes → Bytes
  pub noekeon_decrypt : Bytes → Bytes → Bytes
  pub spm : Spm
