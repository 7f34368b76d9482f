-- ===== src/Hid/Reach.antt =====
-- Which keys an entry of the layout can name: the notes of hid_defines.h on the key codes.
use memtype.Base.{
  ℕ, ◌+◌, ◌<◌, ◌≡◌, ◌≢◌, refl, ap, bit_and, bit_or, Bool, true, false, not, ◌&&◌, ◌||◌, ◌==◌, ltb,
  if◌then◌else◌, List, [], ◌∷◌, table_holds, table_holds_lem, arith,
}
use memtype.Hid.Keys
use memtype.Hid.Keys.Modifiers
use memtype.Hid.Keys.Beyond
use memtype.Hid.{shift, altgr}
use memtype.Print.{modifier_of, keycode_of}

-- The keys that an entry can name, and those that it cannot.
abbrev pub direct_keys : List ℕ
direct_keys =
    Modifiers.key_none ∷ Keys.key_a ∷ Keys.key_b ∷ Keys.key_c ∷ Keys.key_d ∷ Keys.key_e ∷ Keys.key_f
    ∷ Keys.key_g ∷ Keys.key_h ∷ Keys.key_i ∷ Keys.key_j ∷ Keys.key_k ∷ Keys.key_l ∷ Keys.key_m
    ∷ Keys.key_n ∷ Keys.key_o ∷ Keys.key_p ∷ Keys.key_q ∷ Keys.key_r ∷ Keys.key_s ∷ Keys.key_t
    ∷ Keys.key_u ∷ Keys.key_v ∷ Keys.key_w ∷ Keys.key_x ∷ Keys.key_y ∷ Keys.key_z ∷ Keys.key_1
    ∷ Keys.key_2 ∷ Keys.key_3 ∷ Keys.key_4 ∷ Keys.key_5 ∷ Keys.key_6 ∷ Keys.key_7 ∷ Keys.key_8
    ∷ Keys.key_9 ∷ Keys.key_0 ∷ Keys.key_return ∷ Modifiers.key_escape ∷ Keys.key_backspace
    ∷ Keys.key_tab ∷ Keys.key_space ∷ Keys.key_minus ∷ Modifiers.key_equal ∷ Keys.key_bracket_left
    ∷ Keys.key_bracket_right ∷ Keys.key_backslash ∷ Modifiers.key_europe_1 ∷ Modifiers.key_semicolon
    ∷ Keys.key_apostrophe ∷ Keys.key_grave ∷ Keys.key_comma ∷ Keys.key_period ∷ Keys.key_slash
    ∷ Modifiers.key_caps_lock ∷ Modifiers.key_f2 ∷ Modifiers.key_f3 ∷ Modifiers.key_f4
    ∷ Modifiers.key_f5 ∷ Modifiers.key_f6 ∷ Keys.key_europe_2_org ∷ []

abbrev pub beyond_keys : List ℕ
beyond_keys =
    Modifiers.key_f1 ∷ Beyond.key_f7 ∷ Beyond.key_f8 ∷ Beyond.key_f9 ∷ Beyond.key_f10
    ∷ Beyond.key_f11 ∷ Beyond.key_f12 ∷ Beyond.key_print_screen ∷ Beyond.key_scroll_lock
    ∷ Beyond.key_pause ∷ Beyond.key_insert ∷ Beyond.key_home ∷ Beyond.key_page_up
    ∷ Beyond.key_delete ∷ Beyond.key_end ∷ Beyond.key_page_down ∷ Beyond.key_arrow_right
    ∷ Beyond.key_arrow_left ∷ Beyond.key_arrow_down ∷ Beyond.key_arrow_up ∷ Beyond.key_num_lock
    ∷ Beyond.key_keypad_divide ∷ Beyond.key_keypad_multiply ∷ Beyond.key_keypad_subtract
    ∷ Beyond.key_keypad_add ∷ Beyond.key_keypad_enter ∷ Beyond.key_keypad_1 ∷ Beyond.key_keypad_2
    ∷ Beyond.key_keypad_3 ∷ Beyond.key_keypad_4 ∷ Beyond.key_keypad_5 ∷ Beyond.key_keypad_6
    ∷ Beyond.key_keypad_7 ∷ Beyond.key_keypad_8 ∷ Beyond.key_keypad_9 ∷ Beyond.key_keypad_0
    ∷ Beyond.key_keypad_decimal ∷ Beyond.key_application ∷ Beyond.key_power
    ∷ Beyond.key_keypad_equal ∷ Beyond.key_f13 ∷ Beyond.key_f14 ∷ Beyond.key_f15 ∷ []

-- The modifiers that no entry can name.
abbrev pub other_modifiers : ℕ
other_modifiers =
    bit_or (bit_or (bit_or Modifiers.key_left_ctrl Modifiers.key_left_alt) Modifiers.key_left_gui)
      (bit_or (bit_or Modifiers.key_right_ctrl Modifiers.key_right_shift) Modifiers.key_right_gui)

unfoldable pub listed : ℕ → List ℕ → Bool
listed k [] = false
listed k (x ∷ xs) = k == x || listed k xs

-- The entry for a key, with SHIFT and ALTGR or without.
abbrev pub entry_of : ℕ → Bool → Bool → ℕ
entry_of k s a =
    let c = if k == Keys.key_europe_2_org then Keys.key_europe_2 else k in
    let e = if s then shift c else c in if a then altgr e else e

-- The modifiers of such an entry.
abbrev pub modifiers : Bool → Bool → ℕ
modifiers s a =
    (if s then Modifiers.key_left_shift else 0) + (if a then Modifiers.key_right_alt else 0)

typed_as : ℕ → Bool → Bool → Bool
typed_as k s a =
    let e = entry_of k s a in ltb e 256 && (keycode_of e == k && modifier_of e == modifiers s a)

direct : Bool → Bool → ℕ → Bool
direct s a k = not (listed k direct_keys) || typed_as k s a

direct_table : (s a : Bool) → table_holds (direct s a) 256 ≡ true
unfolding table_holds direct typed_as listed keycode_of modifier_of
direct_table true true = refl
direct_table true false = refl
direct_table false true = refl
direct_table false false = refl

reached : ℕ → Bool
reached e = not (listed (keycode_of e) beyond_keys) && bit_and (modifier_of e) other_modifiers == 0

reached_table : table_holds reached 256 ≡ true
unfolding table_holds reached listed keycode_of modifier_of
reached_table = refl

-- Each of the keys below 0x40 but KEY_F1, and KEY_EUROPE_2_ORG, has an entry for each choice of SHIFT
-- and ALTGR: a byte that print_pressKey sends as that key with the left shift and the right alt key as
-- chosen.
direct_lem :
    (k : ℕ) (s a : Bool)
    → k < 256
    → listed k direct_keys ≡ true
    → let e = entry_of k s a in (e < 256) × (keycode_of e ≡ k) × (modifier_of e ≡ modifiers s a)
unfolding direct typed_as
direct_lem k s a small h =
    let row = table_holds_lem (direct s a) 256 k (direct_table s a) small in
    (ground (arith, row, h), ground (arith, row, h), ground (arith, row, h))

beyond_lem :
    (e : ℕ)
    → e < 256
    → (listed (keycode_of e) beyond_keys ≡ false) × (bit_and (modifier_of e) other_modifiers ≡ 0)
unfolding reached
beyond_lem e small =
    let row = table_holds_lem reached 256 e reached_table small in
    (ground (arith, row), ground (arith, row))

-- The notes of hid_defines.h hold: each key code below 0x40 but KEY_F1, and KEY_EUROPE_2_ORG, has for
-- each choice of SHIFT and ALTGR a byte that print_pressKey sends as that key, with the left shift and
-- the right alt key as chosen; and no byte is sent as KEY_F1, as any key from KEY_F7 on but
-- KEY_EUROPE_2_ORG, or with a modifier besides these two.
pub keycode_of-reach :
    (k l e : ℕ) (s a : Bool)
    → k < 256
    → listed k direct_keys ≡ true
    → listed l beyond_keys ≡ true
    → e < 256
    → (entry_of k s a < 256)
      × (keycode_of (entry_of k s a) ≡ k)
      × (modifier_of (entry_of k s a) ≡ modifiers s a)
      × (keycode_of e ≢ l)
      × (bit_and (modifier_of e) other_modifiers ≡ 0)
keycode_of-reach k l e s a small direct_key beyond_key byte =
    let (apart, none) = beyond_lem e byte in
    let (fits, key, modifier) = direct_lem k s a small direct_key in
    (
      fits,
      key,
      modifier,
      (λ same. let x = ap (λ n. listed n beyond_keys) same in ground (arith, apart, beyond_key, x)),
      none,
    )
