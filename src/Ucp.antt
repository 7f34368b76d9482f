-- ===== src/Ucp.antt =====
-- ucp.h and ucp.c: the protocol that the host speaks over the HID feature report.
pub mod Cmd
pub mod Err
pub mod Lock
pub mod Task
pub mod Decode
pub mod Write
pub mod Keyboard
pub mod SetPin
pub mod Read
pub mod ReadBack
