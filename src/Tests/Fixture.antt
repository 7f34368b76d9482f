-- ===== src/Tests/Fixture.antt =====
-- A board whose flash behaves as the data sheet says, and a device on it.
use memtype.Base.{
  ℕ, ◌+◌, ◌-◌, ◌/◌, ◌%◌, ◌≡◌, ◌≢◌, ◌<◌, Bytes, List, [], ◌∷◌, zero, suc, ◌==◌, if◌then◌else◌, arith,
}
use memtype.State.{Device, UcpState, on_ucp}
use memtype.Board.{Board, Spm}
use memtype.Reset.{reset_state}

-- The bytes of a packet.
abbrev pub packet_of : List ℕ → Bytes
packet_of [] i = 0
packet_of (x ∷ xs) zero = x
packet_of (x ∷ xs) (suc i) = packet_of xs i

abbrev erase : ℕ → Bytes → Bytes
erase a f j = if j / 64 == a / 64 then 255 else f j

abbrev fill : ℕ → ℕ → Bytes → Bytes
fill a w p j = if j == a % 64 then w % 256 else if j == a % 64 + 1 then w / 256 else p j

abbrev program : ℕ → Bytes → Bytes → Bytes
program a p f j = if j / 64 == a / 64 then p (j % 64) else f j

pub erase_page_law : (a : ℕ) (f : Bytes) (j : ℕ) → j / 64 ≡ a / 64 → erase a f j ≡ 255
erase_page_law a f j h = ground arith

pub erase_other_law : (a : ℕ) (f : Bytes) (j : ℕ) → j / 64 ≢ a / 64 → erase a f j ≡ f j
erase_other_law a f j h = ground arith

pub fill_low_law : (a w : ℕ) (p : Bytes) (j : ℕ) → a % 2 ≡ 0 → j ≡ a % 64 → fill a w p j ≡ w % 256
fill_low_law a w p j h e = ground arith

pub fill_high_law :
    (a w : ℕ) (p : Bytes) (j : ℕ) → a % 2 ≡ 0 → j ≡ a % 64 + 1 → w < 65536 → fill a w p j ≡ w / 256
fill_high_law a w p j h e lt = ground arith

pub fill_other_law :
    (a w : ℕ) (p : Bytes) (j : ℕ) → a % 2 ≡ 0 → j ≢ a % 64 → j ≢ a % 64 + 1 → fill a w p j ≡ p j
fill_other_law a w p j h e e' = ground arith

pub program_page_law :
    (a : ℕ) (p f : Bytes) (j : ℕ) → j / 64 ≡ a / 64 → f j ≡ 255 → program a p f j ≡ p (j % 64)
program_page_law a p f j h e = ground arith

pub program_other_law : (a : ℕ) (p f : Bytes) (j : ℕ) → j / 64 ≢ a / 64 → program a p f j ≡ f j
program_other_law a p f j h = ground arith

abbrev pub data_sheet : Spm
data_sheet = record {
  page_erase = erase;
  page_fill = fill;
  page_write = program;
  erase_page = erase_page_law;
  erase_other = erase_other_law;
  fill_low = fill_low_law;
  fill_high = fill_high_law;
  fill_other = fill_other_law;
  write_page = program_page_law;
  write_other = program_other_law;
}

abbrev pub test_board : Board
test_board = record {
  credentials = 1024;
  uif_init_str = 100;
  opt_start_str = 120;
  pin_str = 140;
  locked_str = 150;
  pinreset_str = 160;
  usi_keys = 180;
  lock_hash_pgm = 200;
  info_data = 220;
  lock_hash = 16;
  keyboard_lut = 64;
  osccal_eep_value = 0;
  osccal_apart = λ k lt e. omega (arith, lt, e);
  ram = λ d i. 0;
  beyond = λ d p. 0;
  noekeon_encrypt = λ key text i. (text i + key i) % 256;
  noekeon_decrypt = λ key text i. (text i + 256 - key i % 256) % 256;
  spm = data_sheet;
}

-- Memories that hold zeros, after a reset.
abbrev pub fresh : Device
fresh = reset_state (λ i. 0) (λ i. 0) 0

abbrev pub locked : Device
locked = on_ucp (λ u. record u { ucp_state = UcpState.device_locked }) fresh
