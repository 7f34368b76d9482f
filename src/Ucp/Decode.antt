-- ===== src/Ucp/Decode.antt =====
-- UCP_Decode of ucp.c: a packet from the host.
use memtype.Base.{
  ℕ, Bool, true, false, ◌&&◌, ◌==◌, ltb, leb, if◌then◌else◌, Bytes, blit, from, word_at, add16,
}
use memtype.State.{
  Device, Ucp, UcpState, idle, reading_cmd, reading, writting, device_locked, write_eeprom, on_ucp,
}
use memtype.Board.{Board}
use memtype.Ucp.Cmd
use memtype.Ucp.Err
use memtype.Ucp.Task.{error_report, protocol_error}
use memtype.Uif.{uif_init}

-- KEYBOARD_SIZE, and the sizes of a PIN's hash and of INFO_data.
abbrev pub keyboard_size : ℕ
keyboard_size = 128

abbrev pub hash_size : ℕ
hash_size = 16

abbrev pub sizeof_info_data : ℕ
sizeof_info_data = 7

-- A packet while a flash write is under way.
decode_writting : Ucp → Ucp
decode_writting u =
    if u.usb_write == 0 && ltb u.read_offset u.read_end
    then record u { usb_write_accepted = 1 }
    else record (protocol_error u) { usb_write_accepted = 0; usb_write = 0 }

-- readOffset and readEnd, for `size` bytes from `offset` on.
abbrev pub set_range : ℕ → ℕ → Ucp → Ucp
set_range offset size u = record u { read_offset = offset; read_end = add16 offset size }

unfoldable pub is_idle : UcpState → Bool
is_idle idle = true
is_idle reading_cmd = false
is_idle reading = false
is_idle writting = false
is_idle device_locked = false
is_idle write_eeprom = false

module _ (b : Board) where
  open b use {credentials, lock_hash, keyboard_lut, info_data}

  -- A packet while the EEPROM is being written.
  decode_eeprom : Device → Device
  decode_eeprom d =
      let u = d.ucp in
      let next = add16 u.read_offset 8 in
      let d1 = record d {
        eeprom = blit d.eeprom u.read_offset 8 u.custom_report;
        ucp = record u { read_offset = next };
      } in
      if ltb u.read_offset u.read_end
      then (if leb u.read_end next
          then (if u.lock_after_set_pin == 0
              then on_ucp (λ v. record v { ucp_state = idle }) d1
              else on_ucp (λ v. record v { lock_after_set_pin = 0 }) (uif_init b d1))
          else d1)
      else on_ucp protocol_error d

  cmd_read : Bytes → Ucp → Ucp
  unfolding is_idle
  cmd_read packet u =
      if is_idle u.ucp_state
      then record (set_range (word_at packet 1) (word_at packet 3) u) {
        ucp_state = reading_cmd;
        read_type = packet 5;
      }
      else protocol_error u

  cmd_write : Bytes → Ucp → Ucp
  unfolding is_idle
  cmd_write packet u =
      if is_idle u.ucp_state
      then record (set_range (word_at packet 1) (word_at packet 3) u) {
        ucp_state = writting;
        buff_index = 0;
        flash_write_addr = add16 (word_at packet 1) credentials;
      }
      else protocol_error u

  -- The switch over the commands.
  decode_command : Bytes → Device → Ucp → Ucp
  unfolding cmd_read cmd_write
  decode_command packet d u =
      let cmd = packet 0 in
      if cmd == Cmd.reset
      then u
      else if cmd == Cmd.read
      then cmd_read packet u
      else if cmd == Cmd.write
      then cmd_write packet u
      else if cmd == Cmd.set_pin
      then record (set_range lock_hash hash_size u) {
        ucp_state = write_eeprom;
        lock_after_set_pin = 1;
      }
      else if cmd == Cmd.read_pin
      then record (set_range lock_hash hash_size u) { ucp_state = reading_cmd; read_type = 2 }
      else if cmd == Cmd.keyboard
      then record (set_range keyboard_lut keyboard_size u) { ucp_state = write_eeprom }
      else if cmd == Cmd.data_cmd
      then u
      else if cmd == Cmd.info
      then record u {
        custom_report = blit u.custom_report 1 sizeof_info_data (from d.flash info_data);
      }
      else error_report Err.cmd u

  -- The branches of UCP_Decode for a packet of eight bytes.
  decode_in : UcpState → Bytes → Device → Device
  unfolding decode_writting decode_eeprom decode_command
  decode_in device_locked packet d = on_ucp (error_report Err.locked) d
  decode_in writting packet d = on_ucp decode_writting d
  decode_in write_eeprom packet d = decode_eeprom d
  decode_in idle packet d = on_ucp (decode_command packet d) d
  decode_in reading_cmd packet d = on_ucp (decode_command packet d) d
  decode_in reading packet d = on_ucp (decode_command packet d) d

  -- UCP_Decode. The report first holds the packet.
  unfoldable pub ucp_decode : Bytes → ℕ → Device → Device
  unfolding decode_in
  ucp_decode packet len d =
      let d1 = on_ucp (λ u. record u { custom_report = blit u.custom_report 0 8 packet }) d in
      if len == 8 then decode_in d.ucp.ucp_state packet d1 else on_ucp (error_report Err.size) d1
