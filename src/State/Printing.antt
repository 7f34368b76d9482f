-- ===== src/State/Printing.antt =====
-- The variables of print.c and the report of print.h.
use memtype.Base.{ℕ}

-- What a `char*` points to, with the offset from there: nothing, `userText` of usi.c,
-- `cipher.plain` of crd.h, the literal "" of crd.c, or a flash address.
pub data Ptr : Type 0 where
  null user_text plain empty_str flash_at : ℕ → Ptr

-- EMPTY, RAM and FLASH of print.h.
pub data Info : Type 0 where
  empty ram flash : Info

-- `strPtr_t`
pub record StrPtr : Type 0 where
  pub str_ptr : Ptr
  pub info : Info
  pub len : ℕ
  pub callback : ℕ

-- `kbd_status_t`
pub data KbdStatus : Type 0 where
  init pressed released idle delete delete_pressed : KbdStatus

-- `keyboard_report_t`
pub record KeyboardReport : Type 0 where
  pub reportid : ℕ
  pub modifier : ℕ
  pub keycode : ℕ

pub record Printer : Type 0 where
  pub str_buf : ℕ → StrPtr
  pub act_string : ℕ
  pub c_count : ℕ
  pub eos : ℕ
  pub debounce_count : ℕ
  pub report_buffer : KeyboardReport
  pub kbd_status : KbdStatus
