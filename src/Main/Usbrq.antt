-- ===== src/Main/Usbrq.antt =====
-- The numbers of the HID class requests, and the type bits of a request (USB HID 1.11, 7.2).
use memtype.Base.{ℕ}

abbrev pub type_mask : ℕ
type_mask = 0x60

abbrev pub type_class : ℕ
type_class = 0x20

abbrev pub get_report : ℕ
get_report = 0x01

abbrev pub get_idle : ℕ
get_idle = 0x02

abbrev pub get_protocol : ℕ
get_protocol = 0x03

abbrev pub set_report : ℕ
set_report = 0x09

abbrev pub set_idle : ℕ
set_idle = 0x0a

abbrev pub set_protocol : ℕ
set_protocol = 0x0b
