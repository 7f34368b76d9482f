-- ===== src/Usi.antt =====
-- usi.h and usi.c: the PIN is entered digit by digit, checked against the hash in EEPROM, and reset.
pub mod Pin
pub mod Fsm
pub mod Check
pub mod Change
pub mod Entry
pub mod Retries
pub mod Guesses
pub mod Known
