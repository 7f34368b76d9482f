-- ===== src/Ucp/Write/Late.antt =====
-- A packet that still waits to be written when a button locks the device.
use memtype.Base.{
  ℕ, ◌+◌, ◌%◌, ◌<◌, ◌≡◌, ◌∙◌, refl, ap, fun_ext, update, add16, Bytes, leb, true, done, ◌>>=◌,
  arith,
}
use memtype.State.{Device, UcpState, on_ucp}
use memtype.Board.{Board}
use memtype.Crd.Eos.{Text, loaded, crd_load_credential-Text}
use memtype.Fls.Page.{IsBytes}
use memtype.Fls.Write.{written, fls_write_lem}
use memtype.Ucp.Lock.{ucp_lock}
use memtype.Ucp.Write.{store_byte, flush_due, flush, store_loop, ucp_write_task}
use memtype.Ucp.Write.Packet.{store_loop-last, written_out}

-- The last byte of a write waits in the report, behind fewer than a page of others in the buffer.
pub record LastByte (d : Device) : Type 0 where
  pub waits : d.ucp.usb_write ≡ 1
  pub more : d.ucp.read_offset < d.ucp.read_end
  pub last : d.ucp.read_end ≡ d.ucp.read_offset + 1
  pub offsets : d.ucp.read_end < 65536
  pub few : d.ucp.buff_index < 64
  pub addresses : d.ucp.flash_write_addr + d.ucp.buff_index + 1 < 65536
  pub flash_bytes : IsBytes d.flash
  pub buffer_bytes : IsBytes d.ucp.temp_buff
  pub report_byte : d.ucp.custom_report 0 < 256

module _ (b : Board) where
  -- The buffer with the last byte.
  abbrev pub last_buffer : Device → Bytes
  last_buffer d = update d.ucp.temp_buff d.ucp.buff_index (d.ucp.custom_report 0)

  -- The flash that comes of it.
  abbrev pub last_flash : Device → Bytes
  last_flash d = written d.flash (last_buffer d) d.ucp.flash_write_addr (d.ucp.buff_index + 1)

  flush-LastByte :
      (d : Device)
      → LastByte d
      → (d2 : Device) × (flush b (on_ucp (store_byte 0) d) ≡ done d2)
        × (d2.flash ≡ last_flash d)
        × (d2.ucp.read_offset ≡ d.ucp.read_end)
        × (d2.ucp.read_end ≡ d.ucp.read_end)
  unfolding flush store_byte
  flush-LastByte d v =
      let d1 = on_ucp (store_byte 0) d in
      let u = d1.ucp in
      let size : u.buff_index ≡ d.ucp.buff_index + 1 = omega (arith, v.few) in
      let bytes : IsBytes u.temp_buff = λ j. ground (arith, v.buffer_bytes j, v.report_byte) in
      let (f, e, _, after) =
        fls_write_lem b.spm u.flash_write_addr u.buff_index (omega (arith, v.few))
          (omega (arith, v.addresses, v.few)) bytes d.flash v.flash_bytes in
      (
        record d1 {
          flash = f;
          ucp = record u {
            flash_write_addr = add16 u.flash_write_addr u.buff_index;
            buff_index = 0;
          };
        },
        rw e refl,
        fun_ext after ∙ ap (written d.flash (last_buffer d) d.ucp.flash_write_addr) size,
        omega (arith, v.last, v.offsets),
        refl,
      )

  locked-LastByte : (d : Device) → LastByte d → LastByte (ucp_lock d)
  locked-LastByte d v = record {
    waits = v.waits;
    more = v.more;
    last = v.last;
    offsets = v.offsets;
    few = v.few;
    addresses = v.addresses;
    flash_bytes = v.flash_bytes;
    buffer_bytes = v.buffer_bytes;
    report_byte = v.report_byte;
  }

  due :
      (d : Device)
      → leb d.ucp.read_end (add16 d.ucp.read_offset 1) ≡ true
      → flush_due (on_ucp (store_byte 0) d).ucp ≡ true
  unfolding flush_due store_byte
  due d h = ground (arith, h)

  waiting_lem :
      (d : Device)
      → d.ucp.usb_write ≡ 1
      → ucp_write_task b d ≡ (store_loop b 8 0 d >>= λ x. done (written_out x))
  unfolding ucp_write_task
  waiting_lem d h = ground (arith, h)

  leb_refl : (n : ℕ) → leb n n ≡ true
  leb_refl n = ground arith

  -- UCP_WriteTask does not ask for the state: when the device is locked while the last byte of a write
  -- waits, the byte is written and the protocol is idle, which unlocks it.
  pub ucp_write_task-unlocks :
      (d : Device) (n : ℕ)
      → LastByte d
      → Text (last_flash d) (b.credentials % 65536) n
      → (d' : Device) × (ucp_write_task b (ucp_lock d) ≡ done d')
        × ((ucp_lock d).ucp.ucp_state ≡ UcpState.device_locked)
        × (d'.ucp.ucp_state ≡ UcpState.idle)
        × (d'.flash ≡ last_flash d)
  ucp_write_task-unlocks d n v txt =
      let u = d.ucp in
      let d1 = ucp_lock d in
      let next : add16 u.read_offset 1 ≡ u.read_end = omega (arith, v.last, v.offsets) in
      let (d2, e, fl, off, end) = flush-LastByte d1 (locked-LastByte d v) in
      let d3 = on_ucp (λ x. record x { ucp_state = UcpState.idle }) d2 in
      let ea : add16 0 b.credentials ≡ b.credentials % 65536 = omega arith in
      let txt' : Text d3.flash (add16 0 b.credentials) n = rw (fl, ea) txt in
      let ends =
        store_loop-last b 7 0 d1 d2 (due d1 (rw next (leb_refl u.read_end))) e
          (rw (off, end) (leb_refl u.read_end)) in
      (
        written_out (loaded (add16 0 b.credentials) n d3),
        waiting_lem d1 v.waits
            ∙ ap (λ o. o >>= λ x. done (written_out x))
                (ends ∙ crd_load_credential-Text b 0 n d3 txt'),
        refl,
        refl,
        fl,
      )
