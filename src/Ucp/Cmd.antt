-- ===== src/Ucp/Cmd.antt =====
-- The commands of ucp.h.
use memtype.Base.{ℕ}

abbrev pub error : ℕ
error = 0x00

abbrev pub reset : ℕ
reset = 0x01

abbrev pub read : ℕ
read = 0x02

abbrev pub write : ℕ
write = 0x03

abbrev pub data_cmd : ℕ
data_cmd = 0x04

abbrev pub info : ℕ
info = 0x05

abbrev pub set_pin : ℕ
set_pin = 0x07

abbrev pub read_pin : ℕ
read_pin = 0x08

abbrev pub keyboard : ℕ
keyboard = 0x09
