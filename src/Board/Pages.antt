-- ===== src/Board/Pages.antt =====
-- avr/boot.h: the flash is written a page of 64 bytes at a time, through a page buffer. The laws are
-- those of the data sheet: an erased page reads 0xFF, a fill sets one word of the buffer, a write
-- puts the buffer into an erased page, and no operation touches another page.
use memtype.Base.{ℕ, ◌+◌, ◌/◌, ◌%◌, ◌≡◌, ◌≢◌, ◌<◌, Bytes}

abbrev pub spm_pagesize : ℕ
spm_pagesize = 64

pub record Spm : Type 0 where
  -- boot_page_erase_safe(a), on the flash
  pub page_erase : ℕ → Bytes → Bytes
  -- boot_page_fill(a, w), on the page buffer
  pub page_fill : ℕ → ℕ → Bytes → Bytes
  -- boot_page_write_safe(a), from the page buffer to the flash
  pub page_write : ℕ → Bytes → Bytes → Bytes
  pub erase_page : (a : ℕ) (f : Bytes) (j : ℕ) → j / 64 ≡ a / 64 → page_erase a f j ≡ 255
  pub erase_other : (a : ℕ) (f : Bytes) (j : ℕ) → j / 64 ≢ a / 64 → page_erase a f j ≡ f j
  pub fill_low :
      (a w : ℕ) (p : Bytes) (j : ℕ) → a % 2 ≡ 0 → j ≡ a % 64 → page_fill a w p j ≡ w % 256
  pub fill_high :
      (a w : ℕ) (p : Bytes) (j : ℕ)
      → a % 2 ≡ 0
      → j ≡ a % 64 + 1
      → w < 65536
      → page_fill a w p j ≡ w / 256
  pub fill_other :
      (a w : ℕ) (p : Bytes) (j : ℕ)
      → a % 2 ≡ 0
      → j ≢ a % 64
      → j ≢ a % 64 + 1
      → page_fill a w p j ≡ p j
  pub write_page :
      (a : ℕ) (p f : Bytes) (j : ℕ) → j / 64 ≡ a / 64 → f j ≡ 255 → page_write a p f j ≡ p (j % 64)
  pub write_other : (a : ℕ) (p f : Bytes) (j : ℕ) → j / 64 ≢ a / 64 → page_write a p f j ≡ f j
