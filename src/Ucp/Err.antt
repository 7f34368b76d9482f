-- ===== src/Ucp/Err.antt =====
-- The error codes of ucp.h that the firmware sends.
use memtype.Base.{ℕ}

abbrev pub protocol : ℕ
protocol = 0xf5

abbrev pub cmd : ℕ
cmd = 0xf2

abbrev pub size : ℕ
size = 0xf4

abbrev pub locked : ℕ
locked = 0xf6
