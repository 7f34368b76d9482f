-- ===== src/State/Protocol.antt =====
-- The variables of ucp.c, and those of the USB callbacks in main.c.
use memtype.Base.{ℕ, Bytes}

-- `ucpStates` of ucp.h
pub data UcpState : Type 0 where
  idle reading_cmd reading writting device_locked write_eeprom : UcpState

pub record Ucp : Type 0 where
  pub ucp_state : UcpState
  pub custom_report : Bytes
  pub temp_buff : Bytes
  pub flash_write_addr : ℕ
  pub buff_index : ℕ
  pub usb_write : ℕ
  pub usb_write_accepted : ℕ
  pub lock_after_set_pin : ℕ
  pub read_offset : ℕ
  pub read_end : ℕ
  pub read_type : ℕ

-- What `usbMsgPtr` points to.
pub data MsgPtr : Type 0 where
  null idle_rate protocol_version report_buffer custom_report : MsgPtr

pub record Hid : Type 0 where
  pub idle_rate : ℕ
  pub protocol_version : ℕ
  pub usb_msg_ptr : MsgPtr
