-- ===== src/Ucp/Keyboard.antt =====
-- A session that sets the keyboard layout: a KEYBOARD packet, and the sixteen packets of the layout.
pub mod Packets
use memtype.Base.{
  ℕ, zero, suc, ◌+◌, ◌-◌, ◌*◌, ◌≤◌, ◌<◌, ◌≡◌, ◌⊎◌, ◌∙◌, refl, ap, subst, leb, ◌==◌, if◌then◌else◌,
  Bytes, blit, add16, arith,
}
use memtype.State.{Device, Printer, Uif, UcpState, idle, write_eeprom, start}
use memtype.Board.{Board}
use memtype.Print.{print_press_key}
use memtype.Ucp.Cmd
use memtype.Ucp.Err
use memtype.Ucp.Lock.{ucp_lock, ucp_unlock}
use memtype.Ucp.Decode.{ucp_decode, keyboard_size}
use Packets.{send_layout, open_keyboard, send_layout-Loaded}

module _ (b : Board) where
  -- From the idle state with no PIN to be set, a KEYBOARD packet and sixteen more put their 128 bytes
  -- over the layout in EEPROM, change no other byte of either memory, keep the menus and end idle;
  -- from then on a character below 128 is typed by the key that the host sent for it. So it is if the
  -- layout ends below address 65528.
  pub keyboard_session :
      (packet content : Bytes) (d : Device)
      → d.ucp.ucp_state ≡ idle
      → packet 0 ≡ Cmd.keyboard
      → d.ucp.lock_after_set_pin ≡ 0
      → b.keyboard_lut + keyboard_size < 65528
      → let d' = send_layout b 16 0 content (ucp_decode b packet 8 d) in
        ((c : ℕ) → c < keyboard_size → d'.eeprom (b.keyboard_lut + c) ≡ content c)
        × ((j : ℕ)
            → (j < b.keyboard_lut) ⊎ (b.keyboard_lut + keyboard_size ≤ j)
            → d'.eeprom j ≡ d.eeprom j)
        × (d'.flash ≡ d.flash)
        × (d'.uif ≡ d.uif)
        × (d'.ucp.ucp_state ≡ idle)
        × ((c : ℕ) (p : Printer)
            → c < keyboard_size
            → print_press_key d'.eeprom b.keyboard_lut c p ≡ print_press_key content 0 c p)
  unfolding print_press_key
  keyboard_session packet content d st cmd locks small =
      let d1 = ucp_decode b packet 8 d in
      let d' = send_layout b 16 0 content d1 in
      let v =
        send_layout-Loaded b 16 0 content d.ucp.lock_after_set_pin d d1 (omega arith) small
          (open_keyboard b packet content d st cmd (omega arith)) in
      (
        λ c h. v.written c (omega arith),
        v.kept,
        v.flash_kept,
        v.menu ∙ ground arith,
        v.state ∙ ground arith,
        λ c p h.
            let same : d'.eeprom (add16 b.keyboard_lut c) ≡ content (add16 0 c) =
              ap d'.eeprom {x = add16 b.keyboard_lut c} {y = b.keyboard_lut + c} (omega arith)
              ∙ v.written c (omega arith)
              ∙ ap content {x = c} {y = add16 0 c} (omega arith) in
            (rw same refl),
      )

  flag_stays :
      (pin half : Bytes) (d : Device)
      → d.ucp.ucp_state ≡ idle
      → pin 0 ≡ Cmd.set_pin
      → b.lock_hash + 16 < 65536
      → (ucp_decode b half 8 (ucp_decode b pin 8 d)).ucp.lock_after_set_pin ≡ 1
  unfolding ucp_decode
  flag_stays pin half d st cmd small = ground arith

  -- A packet where nothing is left to write.
  refused :
      (packet : Bytes) (d : Device)
      → d.ucp.ucp_state ≡ write_eeprom
      → d.ucp.read_end ≤ d.ucp.read_offset
      → let d' = ucp_decode b packet 8 d in
        (d'.ucp.custom_report 0 ≡ Cmd.error)
        × (d'.ucp.custom_report 1 ≡ Err.protocol)
        × (d'.ucp.ucp_state ≡ idle)
  unfolding ucp_decode
  refused packet d st le = (ground arith, ground arith, ground arith)

  -- An unfinished session for the PIN is not forgotten when the device is locked and unlocked: if a
  -- SET_PIN packet and one more are followed by UCP_Lock and UCP_Unlock, then the KEYBOARD session of
  -- later ends on the first screen and outside the idle state, and the packet after it is refused
  -- with a protocol error. So it is if the hash lies inside the 16-bit addresses and the layout ends
  -- below address 65528.
  pub keyboard_session-broken_pin :
      (pin half packet content next : Bytes) (d : Device)
      → d.ucp.ucp_state ≡ idle
      → pin 0 ≡ Cmd.set_pin
      → packet 0 ≡ Cmd.keyboard
      → b.lock_hash + 16 < 65536
      → b.keyboard_lut + keyboard_size < 65528
      → let d1 = ucp_unlock (ucp_lock (ucp_decode b half 8 (ucp_decode b pin 8 d))) in
        let d' = send_layout b 16 0 content (ucp_decode b packet 8 d1) in
        let d'' = ucp_decode b next 8 d' in
        (d1.ucp.ucp_state ≡ idle)
        × (d'.ucp.ucp_state ≡ write_eeprom)
        × (d'.uif.uif_state ≡ start)
        × (d''.ucp.custom_report 0 ≡ Cmd.error)
        × (d''.ucp.custom_report 1 ≡ Err.protocol)
        × (d''.ucp.ucp_state ≡ idle)
  keyboard_session-broken_pin pin half packet content next d st set cmd small small' =
      let d1 = ucp_unlock (ucp_lock (ucp_decode b half 8 (ucp_decode b pin 8 d))) in
      let d2 = ucp_decode b packet 8 d1 in
      let flag = flag_stays pin half d st set small in
      let v =
        send_layout-Loaded b 16 0 content d1.ucp.lock_after_set_pin d1 d2 (omega arith) small'
          (open_keyboard b packet content d1 refl cmd (omega arith)) in
      let stuck : (send_layout b 16 0 content d2).ucp.ucp_state ≡ write_eeprom =
        v.state ∙ ground (arith, flag) in
      let (e0, e1, e2) =
        refused next (send_layout b 16 0 content d2) stuck (omega (arith, v.offset, v.end)) in
      (refl, stuck, ap (λ (u : Uif). u.uif_state) v.menu ∙ ground (arith, flag), e0, e1, e2)
