-- ===== src/Ucp/Write/Store.antt =====
-- One byte of a flash write: stored in the page's buffer, and the buffer flushed when it is due.
use memtype.Base.{ℕ, ◌+◌, ◌%◌, ◌≤◌, ◌<◌, ◌≡◌, ◌≢◌, ◌∙◌, Bytes, update, false, add16, done, arith}
use memtype.State.{Device, writting, on_ucp}
use memtype.Board.{Board}
use memtype.Fls.Page.{IsBytes}
use memtype.Fls.Write.{written, written-add_one, written-update_end, fls_write_lem}
use memtype.Ucp.Write.{store_byte, flush_due, flush}

-- A flash write of `len` bytes of `content` from flash address `a` on, which the host numbers from
-- `o` on, into a flash that held `f`.
pub record Job : Type 0 where
  pub before : Bytes
  pub content : Bytes
  pub a : ℕ
  pub o : ℕ
  pub len : ℕ

-- A job that the address space and the 16-bit offsets hold.
pub record Fits (w : Job) : Type 0 where
  pub offsets : w.o + w.len < 65536
  pub addresses : w.a + w.len < 65536
  pub bytes : IsBytes w.content

-- After `k` bytes of the job, with the report `r` at hand: the flash together with what waits in the
-- buffer is the old flash with those `k` bytes.
pub record Written (w : Job) (k : ℕ) (r : Bytes) (d : Device) : Type 0 where
  pub offset : d.ucp.read_offset ≡ w.o + k
  pub end : d.ucp.read_end ≡ w.o + w.len
  pub address : d.ucp.flash_write_addr + d.ucp.buff_index ≡ w.a + k
  pub few : d.ucp.buff_index ≤ (w.o + k) % 64
  pub report : d.ucp.custom_report ≡ r
  pub state : d.ucp.ucp_state ≡ writting
  pub flash_bytes : IsBytes d.flash
  pub buffer_bytes : IsBytes d.ucp.temp_buff
  pub contents :
      (j : ℕ)
      → written d.flash d.ucp.temp_buff d.ucp.flash_write_addr d.ucp.buff_index j
        ≡ written w.before w.content w.a k j

-- The byte is in the buffer, which may hold a whole page now.
pub record Stored (w : Job) (k : ℕ) (r : Bytes) (d : Device) : Type 0 where
  pub offset : d.ucp.read_offset ≡ w.o + k
  pub end : d.ucp.read_end ≡ w.o + w.len
  pub address : d.ucp.flash_write_addr + d.ucp.buff_index ≡ w.a + k
  pub few : d.ucp.buff_index ≤ 64
  pub room : (w.o + k) % 64 ≢ 0 → d.ucp.buff_index ≤ (w.o + k) % 64
  pub report : d.ucp.custom_report ≡ r
  pub state : d.ucp.ucp_state ≡ writting
  pub flash_bytes : IsBytes d.flash
  pub buffer_bytes : IsBytes d.ucp.temp_buff
  pub contents :
      (j : ℕ)
      → written d.flash d.ucp.temp_buff d.ucp.flash_write_addr d.ucp.buff_index j
        ≡ written w.before w.content w.a k j

module _ (b : Board) (w : Job) (fits : Fits w) where
  pub store_byte-Stored :
      (k i : ℕ) (r : Bytes) (d : Device)
      → Written w k r d
      → k < w.len
      → r i ≡ w.content k
      → Stored w (k + 1) r (on_ucp (store_byte i) d)
  unfolding store_byte
  store_byte-Stored k i r d v lt e =
      let u = d.ucp in
      let x : u.custom_report i ≡ w.content k = (λ t. v.report t i) ∙ e in
      record {
        offset = ground (arith, v.offset, fits.offsets);
        end = v.end;
        address = ground (arith, v.address, v.few);
        few = ground (arith, v.few);
        room = λ h. ground (arith, v.few);
        report = v.report;
        state = v.state;
        flash_bytes = v.flash_bytes;
        buffer_bytes = λ j. ground (arith, v.buffer_bytes j, fits.bytes k, x);
        contents = λ j. ground (
          arith,
          v.contents j,
          v.address,
          v.few,
          x,
          written-add_one d.flash (update u.temp_buff u.buff_index (u.custom_report i))
              u.flash_write_addr u.buff_index j,
          written-update_end d.flash u.temp_buff u.flash_write_addr u.buff_index (u.custom_report i)
              j,
          written-add_one w.before w.content w.a k j,
        );
      }

  -- A byte that is not due for a flush.
  pub Stored-Written :
      (k : ℕ) (r : Bytes) (d : Device)
      → Stored w k r d
      → flush_due d.ucp ≡ false
      → Written w k r d × (k < w.len)
  unfolding flush_due
  Stored-Written k r d v h =
      let off : (w.o + k) % 64 ≢ 0 = ground (arith, v.offset) in
      (
        record {
          offset = v.offset;
          end = v.end;
          address = v.address;
          few = v.room off;
          report = v.report;
          state = v.state;
          flash_bytes = v.flash_bytes;
          buffer_bytes = v.buffer_bytes;
          contents = v.contents;
        },
        ground (arith, v.offset, v.end),
      )

  -- A flush puts the buffer into the flash.
  pub flush-Stored :
      (k : ℕ) (r : Bytes) (d : Device)
      → Stored w k r d
      → k ≤ w.len
      → (d' : Device) × (flush b d ≡ done d')
        × Written w k r d'
        × ((j : ℕ) → d'.flash j ≡ written w.before w.content w.a k j)
  unfolding flush
  flush-Stored k r d v le =
      let u = d.ucp in
      let (f', e, hf', after) =
        fls_write_lem b.spm u.flash_write_addr u.buff_index (omega (arith, v.few))
          (omega (arith, v.address, fits.addresses)) v.buffer_bytes d.flash v.flash_bytes in
      let all : (j : ℕ) → f' j ≡ written w.before w.content w.a k j = λ j. after j ∙ v.contents j in
      (
        record d {
          flash = f';
          ucp = record u {
            flash_write_addr = add16 u.flash_write_addr u.buff_index;
            buff_index = 0;
          };
        },
        ground (arith, e),
        record {
          offset = v.offset;
          end = v.end;
          address = omega (arith, v.address, fits.addresses);
          few = omega arith;
          report = v.report;
          state = v.state;
          flash_bytes = hf';
          buffer_bytes = v.buffer_bytes;
          contents = λ j. ground (arith, all j);
        },
        all,
      )
