-- ===== src/Ucp/Keyboard/Packets.antt =====
-- The packets of a session that sets the keyboard layout.
use memtype.Base.{
  ℕ, zero, suc, ◌+◌, ◌-◌, ◌*◌, ◌≤◌, ◌<◌, ◌≡◌, ◌⊎◌, ◌∙◌, ap, subst, leb, ◌==◌, if◌then◌else◌, Bytes,
  blit, arith,
}
use memtype.State.{Device, Uif, UcpState, idle, write_eeprom, start}
use memtype.Board.{Board}
use memtype.Ucp.Cmd
use memtype.Ucp.Decode.{ucp_decode, keyboard_size}

-- The protocol after `p` packets of the layout, the flag that a PIN's session waits for its end, and
-- the menu, where the flag was `l` when the session began.
abbrev pub state_after : ℕ → ℕ → UcpState
state_after l p = if leb 16 p then (if l == 0 then idle else write_eeprom) else write_eeprom

abbrev pub lock_after : ℕ → ℕ → ℕ
lock_after l p = if leb 16 p then 0 else l

abbrev pub menu_after : ℕ → ℕ → Uif → Uif
menu_after l p u = if leb 16 p then (if l == 0 then u else record u { uif_state = start }) else u

module _ (b : Board) where
  -- `n` packets with the bytes of `content`, from packet `p` on.
  unfoldable pub send_layout : ℕ → ℕ → Bytes → Device → Device
  send_layout zero p content d = d
  send_layout (suc n) p content d =
      send_layout n (p + 1) content (ucp_decode b (λ i. content (8 * p + i)) 8 d)

  -- What `p` packets leave.
  pub record Loaded (content : Bytes) (l : ℕ) (d0 : Device) (p : ℕ) (d : Device) : Type 0 where
    pub state : d.ucp.ucp_state ≡ state_after l p
    pub offset : d.ucp.read_offset ≡ b.keyboard_lut + 8 * p
    pub end : d.ucp.read_end ≡ b.keyboard_lut + keyboard_size
    pub locks : d.ucp.lock_after_set_pin ≡ lock_after l p
    pub flash_kept : d.flash ≡ d0.flash
    pub menu : d.uif ≡ menu_after l p d0.uif
    pub written : (k : ℕ) → k < 8 * p → d.eeprom (b.keyboard_lut + k) ≡ content k
    pub kept :
        (j : ℕ)
        → (j < b.keyboard_lut) ⊎ (b.keyboard_lut + keyboard_size ≤ j)
        → d.eeprom j ≡ d0.eeprom j

  pub open_keyboard :
      (packet content : Bytes) (d : Device)
      → d.ucp.ucp_state ≡ idle
      → packet 0 ≡ Cmd.keyboard
      → b.keyboard_lut + keyboard_size < 65536
      → Loaded content (d.ucp.lock_after_set_pin) d 0 (ucp_decode b packet 8 d)
  unfolding ucp_decode
  open_keyboard packet content d st cmd small = record {
    state = ground arith;
    offset = ground arith;
    end = ground arith;
    locks = ground arith;
    flash_kept = ground arith;
    menu = ground arith;
    written = λ k h. ground arith;
    kept = λ j out. ground arith;
  }

  -- One packet of the layout, the `p`-th.
  packet_lem :
      (packet : Bytes) (d : Device) (l p : ℕ)
      → d.ucp.ucp_state ≡ write_eeprom
      → d.ucp.read_offset ≡ b.keyboard_lut + 8 * p
      → d.ucp.read_end ≡ b.keyboard_lut + keyboard_size
      → d.ucp.lock_after_set_pin ≡ l
      → p < 16
      → b.keyboard_lut + keyboard_size < 65528
      → let d' = ucp_decode b packet 8 d in
        (d'.ucp.ucp_state ≡ state_after l (p + 1))
        × (d'.ucp.read_offset ≡ b.keyboard_lut + 8 * p + 8)
        × (d'.ucp.read_end ≡ b.keyboard_lut + keyboard_size)
        × (d'.ucp.lock_after_set_pin ≡ lock_after l (p + 1))
        × (d'.flash ≡ d.flash)
        × (d'.uif ≡ menu_after l (p + 1) d.uif)
        × ((j : ℕ) → d'.eeprom j ≡ blit d.eeprom (b.keyboard_lut + 8 * p) 8 packet j)
  unfolding ucp_decode
  packet_lem packet d l p st o e locks lt small = (
    ground arith,
    ground arith,
    ground arith,
    ground arith,
    ground arith,
    ground arith,
    λ j. ground arith,
  )

  packet_Loaded :
      (content : Bytes) (l : ℕ) (d0 d : Device) (p : ℕ)
      → p < 16
      → b.keyboard_lut + keyboard_size < 65528
      → Loaded content l d0 p d
      → Loaded content l d0 (p + 1) (ucp_decode b (λ i. content (8 * p + i)) 8 d)
  packet_Loaded content l d0 d p lt small v =
      let open_menu : d.uif ≡ d0.uif = v.menu ∙ ground arith in
      let (st, off, end', locks', fl, menu', ee) =
        packet_lem (λ i. content (8 * p + i)) d l p (v.state ∙ ground arith) v.offset v.end
          (v.locks ∙ ground arith) lt small in
      record {
        state = st;
        offset = off ∙ omega arith;
        end = end';
        locks = locks';
        flash_kept = fl ∙ v.flash_kept;
        menu = menu' ∙ ap (menu_after l (p + 1)) open_menu;
        written = λ k h. ground (
          arith,
          ee (b.keyboard_lut + k),
          v.written k,
          ap content {x = 8 * p + (b.keyboard_lut + k - (b.keyboard_lut + 8 * p))} {y = k},
        );
        kept = λ j out. ground (arith, ee j, v.kept j out);
      }

  pub send_layout-Loaded :
      (n p : ℕ) (content : Bytes) (l : ℕ) (d0 d : Device)
      → p + n ≤ 16
      → b.keyboard_lut + keyboard_size < 65528
      → Loaded content l d0 p d
      → Loaded content l d0 (p + n) (send_layout n p content d)
  unfolding send_layout
  send_layout-Loaded zero p content l d0 d le small v =
      subst (λ q. Loaded content l d0 q d) (omega arith) v
  send_layout-Loaded (suc n) p content l d0 d le small v =
      let d1 = ucp_decode b (λ i. content (8 * p + i)) 8 d in
      subst (λ q. Loaded content l d0 q (send_layout n (p + 1) content d1)) (omega arith)
        (send_layout-Loaded n (p + 1) content l d0 d1 (omega arith) small
          (packet_Loaded content l d0 d p (omega arith) small v))
