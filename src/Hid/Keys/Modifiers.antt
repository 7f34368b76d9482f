-- ===== src/Hid/Keys/Modifiers.antt =====
-- The modifiers of hid_defines.h, and its key codes below 0x40 that the layout does not use.
use memtype.Base.{ℕ}

abbrev pub key_left_ctrl : ℕ
key_left_ctrl = 0x01

abbrev pub key_left_shift : ℕ
key_left_shift = 0x02

abbrev pub key_left_alt : ℕ
key_left_alt = 0x04

abbrev pub key_left_gui : ℕ
key_left_gui = 0x08

abbrev pub key_right_ctrl : ℕ
key_right_ctrl = 0x10

abbrev pub key_right_shift : ℕ
key_right_shift = 0x20

abbrev pub key_right_alt : ℕ
key_right_alt = 0x40

abbrev pub key_right_gui : ℕ
key_right_gui = 0x80

abbrev pub key_none : ℕ
key_none = 0x00

abbrev pub key_escape : ℕ
key_escape = 0x29

abbrev pub key_equal : ℕ
key_equal = 0x2e

abbrev pub key_europe_1 : ℕ
key_europe_1 = 0x32

abbrev pub key_semicolon : ℕ
key_semicolon = 0x33

abbrev pub key_caps_lock : ℕ
key_caps_lock = 0x39

abbrev pub key_f1 : ℕ
key_f1 = 0x3a

abbrev pub key_f2 : ℕ
key_f2 = 0x3b

abbrev pub key_f3 : ℕ
key_f3 = 0x3c

abbrev pub key_f4 : ℕ
key_f4 = 0x3d

abbrev pub key_f5 : ℕ
key_f5 = 0x3e

abbrev pub key_f6 : ℕ
key_f6 = 0x3f
