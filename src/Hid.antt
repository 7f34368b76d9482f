-- ===== src/Hid.antt =====
-- hid_defines.h and hid_defines.c: the Spanish keyboard layout.
pub mod Keys
pub mod Layout
pub mod Reach
use Keys
use memtype.Base.{ℕ, bit_or, Bytes, List, [], ◌∷◌, zero, suc, ◌++◌}
use Keys.{shift_mask, altgr_mask}

abbrev pub shift : ℕ → ℕ
shift k = bit_or shift_mask k

abbrev pub altgr : ℕ → ℕ
altgr k = bit_or altgr_mask k

abbrev pub null : ℕ
null = 0x00

-- The entries from 0x00 on.
lut_00 : List ℕ
lut_00 =
    null ∷ null ∷ null ∷ null ∷ null ∷ null ∷ null ∷ null ∷ Keys.key_backspace ∷ Keys.key_tab
    ∷ Keys.key_return ∷ null ∷ null ∷ Keys.key_return ∷ null ∷ null ∷ null ∷ null ∷ null ∷ null
    ∷ null ∷ null ∷ null ∷ null ∷ null ∷ null ∷ null ∷ null ∷ null ∷ null ∷ null ∷ null ∷ []

-- The entries from 0x20 on.
lut_20 : List ℕ
lut_20 =
    Keys.key_space
    ∷ shift Keys.key_1
    ∷ shift Keys.key_2
    ∷ altgr Keys.key_3
    ∷ shift Keys.key_4
    ∷ shift Keys.key_5
    ∷ shift Keys.key_6
    ∷ Keys.key_minus
    ∷ shift Keys.key_8
    ∷ shift Keys.key_9
    ∷ shift Keys.key_bracket_right
    ∷ Keys.key_bracket_right
    ∷ Keys.key_comma
    ∷ Keys.key_slash
    ∷ Keys.key_period
    ∷ shift Keys.key_7
    ∷ Keys.key_0
    ∷ Keys.key_1
    ∷ Keys.key_2
    ∷ Keys.key_3
    ∷ Keys.key_4
    ∷ Keys.key_5
    ∷ Keys.key_6
    ∷ Keys.key_7
    ∷ Keys.key_8
    ∷ Keys.key_9
    ∷ shift Keys.key_period
    ∷ shift Keys.key_comma
    ∷ Keys.key_europe_2
    ∷ shift Keys.key_0
    ∷ shift Keys.key_europe_2
    ∷ shift Keys.key_minus
    ∷ []

-- The entries from 0x40 on.
lut_40 : List ℕ
lut_40 =
    altgr Keys.key_2
    ∷ shift Keys.key_a
    ∷ shift Keys.key_b
    ∷ shift Keys.key_c
    ∷ shift Keys.key_d
    ∷ shift Keys.key_e
    ∷ shift Keys.key_f
    ∷ shift Keys.key_g
    ∷ shift Keys.key_h
    ∷ shift Keys.key_i
    ∷ shift Keys.key_j
    ∷ shift Keys.key_k
    ∷ shift Keys.key_l
    ∷ shift Keys.key_m
    ∷ shift Keys.key_n
    ∷ shift Keys.key_o
    ∷ shift Keys.key_p
    ∷ shift Keys.key_q
    ∷ shift Keys.key_r
    ∷ shift Keys.key_s
    ∷ shift Keys.key_t
    ∷ shift Keys.key_u
    ∷ shift Keys.key_v
    ∷ shift Keys.key_w
    ∷ shift Keys.key_x
    ∷ shift Keys.key_y
    ∷ shift Keys.key_z
    ∷ altgr Keys.key_bracket_left
    ∷ altgr Keys.key_grave
    ∷ altgr Keys.key_bracket_right
    ∷ shift Keys.key_bracket_left
    ∷ shift Keys.key_slash
    ∷ []

-- The entries from 0x60 on.
lut_60 : List ℕ
lut_60 =
    Keys.key_bracket_left
    ∷ Keys.key_a
    ∷ Keys.key_b
    ∷ Keys.key_c
    ∷ Keys.key_d
    ∷ Keys.key_e
    ∷ Keys.key_f
    ∷ Keys.key_g
    ∷ Keys.key_h
    ∷ Keys.key_i
    ∷ Keys.key_j
    ∷ Keys.key_k
    ∷ Keys.key_l
    ∷ Keys.key_m
    ∷ Keys.key_n
    ∷ Keys.key_o
    ∷ Keys.key_p
    ∷ Keys.key_q
    ∷ Keys.key_r
    ∷ Keys.key_s
    ∷ Keys.key_t
    ∷ Keys.key_u
    ∷ Keys.key_v
    ∷ Keys.key_w
    ∷ Keys.key_x
    ∷ Keys.key_y
    ∷ Keys.key_z
    ∷ altgr Keys.key_apostrophe
    ∷ altgr Keys.key_1
    ∷ altgr Keys.key_backslash
    ∷ altgr Keys.key_4
    ∷ null
    ∷ []

abbrev nth : List ℕ → Bytes
nth [] i = 0
nth (x ∷ xs) zero = x
nth (x ∷ xs) (suc i) = nth xs i

-- `keyboardLUT_ES`
unfoldable pub keyboard_lut_es : Bytes
unfolding lut_00 lut_20 lut_40 lut_60
keyboard_lut_es = nth (lut_00 ++ (lut_20 ++ (lut_40 ++ (lut_60))))
