-- ===== src/Ucp/Task.antt =====
-- UCP_Task of ucp.c: what is made ready before the host reads the report.
use memtype.Base.{ℕ, ltb, leb, ◌==◌, if◌then◌else◌, Bytes, update, blit, from, add16}
use memtype.State.{
  Device, Ucp, UcpState, idle, reading_cmd, reading, writting, device_locked, write_eeprom, on_ucp,
}
use memtype.Board.{Board}
use memtype.Ucp.Cmd
use memtype.Ucp.Err

-- customReport.buf[0] = UCP_CMD_ERROR; customReport.buf[1] = code
abbrev pub error_report : ℕ → Ucp → Ucp
error_report code u = record u {
  custom_report = update (update u.custom_report 0 Cmd.error) 1 code;
}

-- UCP_state = IDLE and the error UCP_ERR_PROTOCOL.
abbrev pub protocol_error : Ucp → Ucp
protocol_error u = error_report Err.protocol (record u { ucp_state = idle })

module _ (b : Board) where
  open b use {credentials, ram}

  -- The eight bytes of the memory that `readType` names, from `readOffset` on.
  read_memory : Device → Bytes
  read_memory d =
      let a = d.ucp.read_offset in
      if d.ucp.read_type == 0
      then from d.flash (add16 credentials a)
      else if d.ucp.read_type == 1
      then from (ram d) a
      else from d.eeprom a

  reading_step : Device → Ucp → Ucp
  unfolding read_memory
  reading_step d u =
      let next = add16 u.read_offset 8 in
      let u1 = record u {
        custom_report = blit u.custom_report 0 8 (read_memory d);
        read_offset = next;
      } in
      if ltb u.read_offset u.read_end
      then (if leb u.read_end next then record u1 { ucp_state = idle } else u1)
      else protocol_error u

  task_step : UcpState → Device → Ucp → Ucp
  unfolding reading_step
  task_step write_eeprom d u = u
  task_step idle d u = u
  task_step device_locked d u = u
  task_step reading_cmd d u = record u { ucp_state = reading }
  task_step reading d u = reading_step d u
  task_step writting d u =
      if u.usb_write_accepted == 1 then record u { usb_write = 1; usb_write_accepted = 0 } else u

  -- UCP_Task
  unfoldable pub ucp_task : Device → Device
  unfolding task_step
  ucp_task d = on_ucp (task_step d.ucp.ucp_state d) d
