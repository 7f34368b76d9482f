-- ===== src/Ucp/SetPin.antt =====
-- A session that sets the PIN: a SET_PIN packet, and the two packets that carry the new hash.
use memtype.Base.{ℕ, ◌+◌, ◌-◌, ◌≤◌, ◌<◌, ◌≡◌, ◌⊎◌, ap, Bytes, blit, arith}
use memtype.State.{Device, idle, write_eeprom, start}
use memtype.Board.{Board}
use memtype.Ucp.Cmd
use memtype.Ucp.Err
use memtype.Ucp.Decode.{ucp_decode}

-- What the last eight bytes leave.
pub record PinSet (d0 d : Device) : Type 0 where
  pub state : d.ucp.ucp_state ≡ write_eeprom
  pub offset : d.ucp.read_offset ≡ d.ucp.read_end
  pub locks : d.ucp.lock_after_set_pin ≡ 0
  pub menu : d.uif.uif_state ≡ start
  pub flash_kept : d.flash ≡ d0.flash

module _ (b : Board) where
  -- The session is open at EEPROM address `o`.
  record Setting (o : ℕ) (d0 d : Device) : Type 0 where
    state : d.ucp.ucp_state ≡ write_eeprom
    offset : d.ucp.read_offset ≡ o
    end : d.ucp.read_end ≡ b.lock_hash + 16
    locks : d.ucp.lock_after_set_pin ≡ 1
    flash_kept : d.flash ≡ d0.flash

  open_set_pin :
      (packet : Bytes) (d : Device)
      → d.ucp.ucp_state ≡ idle
      → packet 0 ≡ Cmd.set_pin
      → b.lock_hash + 16 < 65536
      → Setting b.lock_hash d (ucp_decode b packet 8 d)
        × ((ucp_decode b packet 8 d).eeprom ≡ d.eeprom)
  unfolding ucp_decode
  open_set_pin packet d st cmd small = (
    record {
      state = ground arith;
      offset = ground arith;
      end = ground arith;
      locks = ground arith;
      flash_kept = ground arith;
    },
    ground arith,
  )

  -- The first eight bytes.
  first_half :
      (packet : Bytes) (d0 d : Device)
      → Setting b.lock_hash d0 d
      → b.lock_hash + 16 < 65536
      → Setting (b.lock_hash + 8) d0 (ucp_decode b packet 8 d)
        × ((j : ℕ) → (ucp_decode b packet 8 d).eeprom j ≡ blit d.eeprom b.lock_hash 8 packet j)
  unfolding ucp_decode
  first_half packet d0 d v small = (
    record {
      state = ground (arith, v.state, v.offset, v.end);
      offset = ground (arith, v.state, v.offset, v.end);
      end = ground (arith, v.state, v.offset, v.end);
      locks = ground (arith, v.state, v.offset, v.end, v.locks);
      flash_kept = ground (arith, v.state, v.flash_kept);
    },
    λ j. ground (arith, v.state, v.offset),
  )

  second_half :
      (packet : Bytes) (d0 d : Device)
      → Setting (b.lock_hash + 8) d0 d
      → b.lock_hash + 16 < 65536
      → PinSet d0 (ucp_decode b packet 8 d)
        × ((j : ℕ)
            → (ucp_decode b packet 8 d).eeprom j ≡ blit d.eeprom (b.lock_hash + 8) 8 packet j)
  unfolding ucp_decode
  second_half packet d0 d v small = (
    record {
      state = ground (arith, v.state, v.offset, v.end, v.locks);
      offset = ground (arith, v.state, v.offset, v.end, v.locks);
      locks = ground (arith, v.state, v.offset, v.end, v.locks);
      menu = ground (arith, v.state, v.offset, v.end, v.locks);
      flash_kept = ground (arith, v.state, v.flash_kept);
    },
    λ j. ground (arith, v.state, v.offset),
  )

  -- From the idle state, a SET_PIN packet and two more put their sixteen bytes over the hash in EEPROM
  -- and change no other byte of either memory; the first screen is shown. The protocol is then neither
  -- locked nor idle: it still writes the EEPROM, with nothing left to write.
  pub set_pin_session :
      (packet low high : Bytes) (d : Device)
      → d.ucp.ucp_state ≡ idle
      → packet 0 ≡ Cmd.set_pin
      → b.lock_hash + 16 < 65536
      → let d' = ucp_decode b high 8 (ucp_decode b low 8 (ucp_decode b packet 8 d)) in
        ((k : ℕ) → k < 8 → d'.eeprom (b.lock_hash + k) ≡ low k)
        × ((k : ℕ) → k < 8 → d'.eeprom (b.lock_hash + 8 + k) ≡ high k)
        × ((j : ℕ) → (j < b.lock_hash) ⊎ (b.lock_hash + 16 ≤ j) → d'.eeprom j ≡ d.eeprom j)
        × PinSet d d'
  set_pin_session packet low high d st cmd small =
      let d1 = ucp_decode b packet 8 d in
      let d2 = ucp_decode b low 8 d1 in
      let (v1, e1) = open_set_pin packet d st cmd small in
      let (v2, e2) = first_half low d d1 v1 small in
      let (v3, e3) = second_half high d d2 v2 small in
      (
        λ k h. ground (
          arith,
          e3 (b.lock_hash + k),
          e2 (b.lock_hash + k),
          ap low {x = b.lock_hash + k - b.lock_hash} {y = k} (omega arith),
        ),
        λ k h. ground (
          arith,
          e3 (b.lock_hash + 8 + k),
          ap high {x = b.lock_hash + 8 + k - (b.lock_hash + 8)} {y = k} (omega arith),
        ),
        λ j out. ground (arith, e3 j, e2 j, ap (λ f. f j) e1),
        v3,
      )

  -- After a session that set the PIN, the next packet of eight bytes is refused with a protocol error,
  -- whatever it holds, and the protocol is idle, which is unlocked; neither memory changes.
  pub ucp_decode-PinSet :
      (packet : Bytes) (d0 d : Device)
      → PinSet d0 d
      → let d' = ucp_decode b packet 8 d in
        (d'.ucp.ucp_state ≡ idle)
        × (d'.ucp.custom_report 0 ≡ Cmd.error)
        × (d'.ucp.custom_report 1 ≡ Err.protocol)
        × (d'.flash ≡ d.flash)
        × (d'.eeprom ≡ d.eeprom)
  unfolding ucp_decode
  ucp_decode-PinSet packet d0 d v = (
    ground (arith, v.state, v.offset),
    ground (arith, v.state, v.offset),
    ground (arith, v.state, v.offset),
    ground (arith, v.state, v.offset),
    ground (arith, v.state, v.offset),
  )
