-- ===== src/Ucp/Write.antt =====
-- UCP_WriteTask of ucp.c: a packet goes into the page's buffer, and full buffers into the flash.
pub mod Store
pub mod Packet
pub mod Session
pub mod Late
use memtype.Base.{
  ℕ, zero, suc, ◌+◌, ◌%◌, Bool, true, false, ◌||◌, ◌==◌, leb, if◌then◌else◌, update, add8, add16,
  Outcome, done, ◌>>=◌, or_hang,
}
use memtype.State.{Device, Ucp, UcpState, on_ucp}
use memtype.Board.{Board, spm_pagesize}
use memtype.Fls.{fls_write}
use memtype.Crd.Load.{crd_init}

-- tempBuff[buffIndex++] = customReport.buf[i]; readOffset++
unfoldable pub store_byte : ℕ → Ucp → Ucp
store_byte i u = record u {
  temp_buff = update u.temp_buff u.buff_index (u.custom_report i);
  buff_index = add8 u.buff_index 1;
  read_offset = add16 u.read_offset 1;
}

-- The buffer is due: the end of a page, or of the write.
unfoldable pub flush_due : Ucp → Bool
flush_due u = u.read_offset % spm_pagesize == 0 || leb u.read_end u.read_offset

module _ (b : Board) where
  -- FLS_write(tempBuff, flashWriteAddr, buffIndex), and the two updates after it.
  unfoldable pub flush : Device → Outcome Device Device
  flush d =
      let u = d.ucp in
      or_hang d (fls_write b.spm d.flash u.temp_buff u.flash_write_addr u.buff_index) >>= λ f.
      done (record d {
        flash = f;
        ucp = record u { flash_write_addr = add16 u.flash_write_addr u.buff_index; buff_index = 0 };
      })

  -- The loop of UCP_WriteTask, from byte `i` on for `n` rounds.
  unfoldable pub store_loop : ℕ → ℕ → Device → Outcome Device Device
  store_loop zero i d = done d
  store_loop (suc n) i d =
      let d1 = on_ucp (store_byte i) d in
      elim (flush_due d1.ucp) [
        | true ↦ flush d1 >>= λ d2. elim (leb d2.ucp.read_end d2.ucp.read_offset) [
          | true ↦ crd_init b (on_ucp (λ u. record u { ucp_state = UcpState.idle }) d2)
          | false ↦ store_loop n (i + 1) d2
        ]
        | false ↦ store_loop n (i + 1) d1
      ]

  -- UCP_WriteTask
  unfoldable pub ucp_write_task : Device → Outcome Device Device
  ucp_write_task d =
      if d.ucp.usb_write == 1
      then (store_loop 8 0 d >>= λ d1. done (on_ucp (λ u. record u { usb_write = 0 }) d1))
      else done d
