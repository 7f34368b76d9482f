-- ===== src/Main/Unlock/Defs.antt =====
-- A locked device, and what a call or a round may leave of it.
use memtype.Base.{ℕ, ◌+◌, ◌≤◌, ◌<◌, ◌≡◌, ◌≢◌, ◌⊎◌, ◌∙◌, sym, ap, subst, Bytes, Outcome, done, hang}
use memtype.State.{Device, MenuState, start, user_input, device_locked}
use memtype.Board.{Board}
use memtype.Usi.Entry.{IsRightPin}
use memtype.Main.Unlock.Waiting.{Waiting}

-- The first screen or the entry of the PIN is shown.
abbrev pub EntryMenu : MenuState → Type 0
EntryMenu m = (m ≡ start) ⊎ (m ≡ user_input)

module _ (b : Board) where
  -- The bytes of the EEPROM that hold neither the hash of the PIN nor the oscillator's calibration.
  abbrev pub Fixed : ℕ → Type 0
  Fixed j = ((j < b.lock_hash) ⊎ (b.lock_hash + 16 ≤ j)) × (j ≢ b.osccal_eep_value)

  -- The device is locked, no packet waits to be written, the first screen or the entry of the PIN is
  -- shown, only harmless strings wait to be typed, and the memories are `flash` and `eeprom` but for the
  -- hash of the PIN and the calibration.
  pub record Locked (flash eeprom : Bytes) (d : Device) : Type 0 where
    pub state : d.ucp.ucp_state ≡ device_locked
    pub no_write : d.ucp.usb_write ≡ 0
    pub menu : EntryMenu d.uif.uif_state
    pub waiting : Waiting b flash d
    pub flash_kept : d.flash ≡ flash
    pub eeprom_kept : (j : ℕ) → Fixed j → d.eeprom j ≡ eeprom j

  -- The right PIN is entered, to its last digit.
  pub record PinEntered (d : Device) : Type 0 where
    pub menu : d.uif.uif_state ≡ user_input
    pub index : d.usi.user_text_index ≡ 3
    pub right_pin : IsRightPin b d

  module _ (flash eeprom : Bytes) where
    -- A call of a locked device leaves it locked, whether it returns or not, unless the right PIN was
    -- entered.
    abbrev pub CallOutcome : Device → Outcome Device Device → Type 0
    CallOutcome d out =
        ((d' : Device) × (out ≡ done d') × Locked flash eeprom d')
        ⊎ (((d' : Device) × (out ≡ hang d') × Locked flash eeprom d') ⊎ PinEntered d)

    pub kept :
        (d d' : Device)
        → d'.ucp ≡ d.ucp
        → d'.flash ≡ d.flash
        → d'.eeprom ≡ d.eeprom
        → d'.uif.uif_state ≡ d.uif.uif_state
        → Waiting b flash d'
        → Locked flash eeprom d
        → Locked flash eeprom d'
    kept d d' uc fl ee ui w v = record {
      state = ap (λ u. u.ucp_state) uc ∙ v.state;
      no_write = ap (λ u. u.usb_write) uc ∙ v.no_write;
      menu = subst EntryMenu (sym ui) v.menu;
      waiting = w;
      flash_kept = fl ∙ v.flash_kept;
      eeprom_kept = λ j out. ap (λ m. m j) ee ∙ v.eeprom_kept j out;
    }
