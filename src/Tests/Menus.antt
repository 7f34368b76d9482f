-- ===== src/Tests/Menus.antt =====
-- The PIN and the credentials at concrete inputs.
use memtype.Base.{
  ℕ, ◌+◌, ◌-◌, ◌<◌, ◌≤◌, ◌≡◌, ◌↔◌, refl, ap, Bytes, add16, [], ◌∷◌, from, done, arith, ltb,
  if◌then◌else◌, List, length,
}
use memtype.State.{Device, Button, UcpState, MenuState, right, up, on_usi}
use memtype.Crd.Load.{crd_load_credential}
use memtype.Crd.Eos.{Text, loaded, crd_load_credential-Text}
use memtype.Usi.Pin.{spread_pin, usi_pin_check}
use memtype.Usi.Fsm.{usi_fsm}
use memtype.Usi.Check.{pin_hash, usi_pin_check_lem}
use memtype.Usi.Entry.{IsRightPin}
use memtype.Usi.Known.{presses, known_pin-unlocks}
use memtype.Usi.Guesses.{Guesses, none, guess, Guessed, guesses_lem}
use memtype.Usi.Retries.{retries_after, hash_after, usi_fsm-wrong_pin}
use memtype.Opt.{opt_fsm}
use memtype.Opt.Total.{Kept, opt_fsm_lem}
use memtype.Reset.{reset_state}
use memtype.Tests.Fixture.{packet_of, test_board, fresh}

abbrev pin : Bytes
pin = packet_of (b'1' ∷ b'2' ∷ b'3' ∷ b'4' ∷ [])

-- An EEPROM with the hash of the PIN at address 16.
abbrev pin_eeprom : Bytes
pin_eeprom j = pin_hash test_board pin fresh (j - 16)

-- "mail" at address 1030, with the link 40 behind it.
abbrev mail : Bytes
mail j = if ltb j 1034 then b'm' else if ltb j 1035 then 0 else 40

-- The PIN is shown to its last digit.
abbrev entered : Device
entered =
    on_usi (λ u. record u { user_pin = pin; user_text_index = 3 }) (reset_state mail pin_eeprom 0)

usi_pin_check_lem_example :
    (r : ℕ) × (d' : Device) × (usi_pin_check test_board pin entered ≡ done (r, d'))
    × ((r ≡ 1) ↔ ((k : ℕ) → k < 16 → from pin_eeprom 16 k ≡ pin_hash test_board pin entered k))
    × (d' ≡ record entered { crd = record (entered.crd) { cipher = d'.crd.cipher } })
    × (d'.crd.cipher.plain ≡ pin_hash test_board pin entered)
    × (d'.crd.cipher.key ≡ spread_pin pin entered.crd.cipher.key)
usi_pin_check_lem_example = usi_pin_check_lem test_board pin entered refl

-- Another PIN, with no retry left.
abbrev mistaken : Device
mistaken =
    on_usi
      (λ u. record u { user_pin = packet_of (b'5' ∷ []); user_text_index = 3; pin_retries = 0 })
      (reset_state mail pin_eeprom 0)

mistaken-wrong : ¬ (IsRightPin test_board mistaken)
unfolding spread_pin
mistaken-wrong right_pin = absurd (omega (arith, right_pin 0 (omega arith)))

usi_fsm-wrong_pin_example :
    (d' : Device) × (usi_fsm test_board right mistaken ≡ done d')
    × (d'.ucp ≡ mistaken.ucp)
    × (d'.uif.uif_state ≡ mistaken.uif.uif_state)
    × (d'.flash ≡ mail)
    × (d'.usi.user_text_index ≡ 0)
    × (d'.usi.pin_retries ≡ retries_after 0)
    × ((k : ℕ) → k < 16 → from d'.eeprom 16 k ≡ hash_after test_board mistaken k)
usi_fsm-wrong_pin_example =
    usi_fsm-wrong_pin test_board mistaken (record { index = refl; plain_pin = refl }) mistaken-wrong
      (omega arith)

-- A guess without a retry left resets the hash.
abbrev after_guess : Device
after_guess =
    (usi_fsm-wrong_pin test_board mistaken (record { index = refl; plain_pin = refl })
      mistaken-wrong (omega arith)).0

mistaken-Guesses : Guesses test_board mistaken 1 after_guess
mistaken-Guesses =
    guess none (record { index = refl; plain_pin = refl }) mistaken-wrong
      (usi_fsm-wrong_pin test_board mistaken (record { index = refl; plain_pin = refl })
        mistaken-wrong (omega arith)).1

guesses_lem_example : Guessed test_board mistaken 1 after_guess
guesses_lem_example = guesses_lem test_board mistaken (omega arith) (omega arith) mistaken-Guesses

-- The keys '0' to '9' at 180, and the PIN "1234" with its hash.
abbrev number_keys : Bytes
number_keys j = b'0' + (j - 180)

abbrev serial : Bytes
serial j = b'1' + j

abbrev serial_eeprom : Bytes
serial_eeprom j = pin_hash test_board serial fresh (j - 16)

abbrev at_entry : Device
at_entry = reset_state number_keys serial_eeprom 0

known_pin-unlocks_example :
    (bs : List Button) × (d' : Device) × (presses test_board bs at_entry ≡ done d')
    × (length bs ≤ 41)
    × (d'.ucp.ucp_state ≡ UcpState.idle)
    × (d'.uif.uif_state ≡ MenuState.credentials)
    × (d'.crd.cipher.key ≡ spread_pin serial at_entry.crd.cipher.key)
    × (d'.eeprom ≡ serial_eeprom)
    × (d'.flash ≡ number_keys)
known_pin-unlocks_example =
    known_pin-unlocks test_board serial (λ i. i + 1) at_entry
      (record { keys = λ i h. omega (arith, h); digits = λ i h. omega (arith, h) }) refl
      (λ k h. ap (pin_hash test_board serial fresh) {x = add16 16 k - 16} {y = k} (omega arith))

opt_fsm_lem_example : (d' : Device) × (opt_fsm test_board up entered ≡ done d') × Kept entered d'
opt_fsm_lem_example = opt_fsm_lem test_board up entered (omega arith)

mail-Text : Text mail 1030 4
mail-Text = record { inside = omega arith; nul = refl; characters = λ i h. ground arith }

crd_load_credential-Text_example :
    crd_load_credential test_board 6 entered ≡ done (loaded 1030 4 entered)
crd_load_credential-Text_example = crd_load_credential-Text test_board 6 4 entered mail-Text
