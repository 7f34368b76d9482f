-- ===== src/Hid/Layout.antt =====
-- What the layout types: an EEPROM that holds `keyboardLUT_ES`, and the reports that come of it.
use memtype.Base.{
  ℕ, ◌+◌, ◌-◌, ◌*◌, ◌≤◌, ◌<◌, ◌≡◌, ◌⊎◌, ◌↔◌, refl, ap, Bytes, Bool, true, ◌&&◌, ◌||◌, not, leb,
  ◌==◌, add16, table_holds, table_holds_lem, arith,
}
use memtype.State.{Printer}
use memtype.Print.{modifier_of, keycode_of, print_press_key}
use memtype.Hid.{keyboard_lut_es}

-- The EEPROM holds the layout at its address.
abbrev pub HasLayout : Bytes → ℕ → Type 0
HasLayout eeprom lut = (i : ℕ) → i < 128 → eeprom (add16 lut i) ≡ keyboard_lut_es i

-- The two bytes of the report for a character, packed.
unfoldable chord : ℕ → ℕ
chord c = modifier_of (keyboard_lut_es c) * 256 + keycode_of (keyboard_lut_es c)

-- Different printing characters have different chords.
chord_table :
    table_holds (λ x. table_holds (λ y. x == y || not (chord (32 + x) == chord (32 + y))) 95) 95
    ≡ true
unfolding table_holds chord modifier_of keycode_of keyboard_lut_es
chord_table = refl

-- Every chord is one that the report descriptor of main.c allows: a key code up to 101, and no
-- modifier, the left shift key or the right alt key.
allowed : ℕ → Bool
allowed c =
    let m = modifier_of (keyboard_lut_es c) in
    leb (keycode_of (keyboard_lut_es c)) 101 && (m == 0 || (m == 0x02 || m == 0x40))

allowed_table : table_holds allowed 128 ≡ true
unfolding table_holds allowed modifier_of keycode_of keyboard_lut_es
allowed_table = refl

-- The keys of letters, by the numbering of the USB usage tables.
letters : ℕ → Bool
letters k = chord (b'a' + k) == 4 + k && chord (b'A' + k) == 0x200 + (4 + k)

letters_table : table_holds letters 26 ≡ true
unfolding table_holds letters chord modifier_of keycode_of keyboard_lut_es
letters_table = refl

-- The report's two bytes after a character is pressed.
abbrev pub modifier_after : Bytes → ℕ → Printer → ℕ → ℕ
modifier_after eeprom lut p c = (print_press_key eeprom lut c p).report_buffer.modifier

abbrev pub keycode_after : Bytes → ℕ → Printer → ℕ → ℕ
keycode_after eeprom lut p c = (print_press_key eeprom lut c p).report_buffer.keycode

module _ (eeprom : Bytes) (lut : ℕ) (layout : HasLayout eeprom lut) (p : Printer) where
  pressed_chord :
      (c : ℕ)
      → c < 128
      → modifier_after eeprom lut p c * 256 + keycode_after eeprom lut p c ≡ chord c
  unfolding print_press_key chord
  pressed_chord c h = rw (layout c h)

  same_chord :
      (x y : ℕ)
      → 32 ≤ x
      → x < 127
      → 32 ≤ y
      → y < 127
      → modifier_after eeprom lut p x ≡ modifier_after eeprom lut p y
      → keycode_after eeprom lut p x ≡ keycode_after eeprom lut p y
      → x ≡ y
  same_chord x y hx hx' hy hy' m k =
      let row = table_holds_lem _ 95 (x - 32) chord_table (omega arith) in
      let cell = table_holds_lem _ 95 (y - 32) row (omega arith) in
      let same : chord x ≡ chord y =
        omega (arith, pressed_chord x (omega arith), pressed_chord y (omega arith)) in
      ground (
        arith,
        cell,
        same,
        ap chord {x = 32 + (x - 32)} {y = x} (omega arith),
        ap chord {x = 32 + (y - 32)} {y = y} (omega arith),
      )

  -- Printing characters (0x20 to 0x7e) make the same report exactly when they are the same character:
  -- what is typed can be read back from the reports.
  pub press_injective :
      (x y : ℕ)
      → 32 ≤ x
      → x < 127
      → 32 ≤ y
      → y < 127
      → ((modifier_after eeprom lut p x ≡ modifier_after eeprom lut p y)
          × (keycode_after eeprom lut p x ≡ keycode_after eeprom lut p y))
        ↔ (x ≡ y)
  press_injective x y hx hx' hy hy' = (
    (λ (m, k). same_chord x y hx hx' hy hy' m k),
    (λ e. (ap (modifier_after eeprom lut p) e, ap (keycode_after eeprom lut p) e)),
  )

  -- Whatever character below 128 is pressed, the report stays inside the report descriptor: a key
  -- code of at most 101, and as modifier none, the left shift or the right alt key.
  pub press_allowed :
      (c : ℕ)
      → c < 128
      → let m = modifier_after eeprom lut p c in
        (keycode_after eeprom lut p c ≤ 101) × ((m ≡ 0) ⊎ ((m ≡ 0x02) ⊎ (m ≡ 0x40)))
  unfolding print_press_key allowed
  press_allowed c h =
      rw (layout c h) (ground (arith, table_holds_lem allowed 128 c allowed_table h))

  -- The `k`-th letter is typed by key 4 + k, without a modifier if it is small, and with the left
  -- shift key if it is a capital.
  pub press_letter :
      (k : ℕ)
      → k < 26
      → (modifier_after eeprom lut p (b'a' + k) * 256 + keycode_after eeprom lut p (b'a' + k)
          ≡ 4 + k)
        × (modifier_after eeprom lut p (b'A' + k) * 256 + keycode_after eeprom lut p (b'A' + k)
            ≡ 0x200 + (4 + k))
  unfolding letters
  press_letter k h = ground (
    arith,
    table_holds_lem letters 26 k letters_table h,
    pressed_chord (b'a' + k) (omega arith),
    pressed_chord (b'A' + k) (omega arith),
  )
