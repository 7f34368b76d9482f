-- ===== src/Hid/Keys.antt =====
-- The key codes of hid_defines.h that the layout uses (USB HID usage tables, keyboard page).
pub mod Modifiers
pub mod Beyond
use memtype.Base.{ℕ}

abbrev pub key_a : ℕ
key_a = 0x04

abbrev pub key_b : ℕ
key_b = 0x05

abbrev pub key_c : ℕ
key_c = 0x06

abbrev pub key_d : ℕ
key_d = 0x07

abbrev pub key_e : ℕ
key_e = 0x08

abbrev pub key_f : ℕ
key_f = 0x09

abbrev pub key_g : ℕ
key_g = 0x0a

abbrev pub key_h : ℕ
key_h = 0x0b

abbrev pub key_i : ℕ
key_i = 0x0c

abbrev pub key_j : ℕ
key_j = 0x0d

abbrev pub key_k : ℕ
key_k = 0x0e

abbrev pub key_l : ℕ
key_l = 0x0f

abbrev pub key_m : ℕ
key_m = 0x10

abbrev pub key_n : ℕ
key_n = 0x11

abbrev pub key_o : ℕ
key_o = 0x12

abbrev pub key_p : ℕ
key_p = 0x13

abbrev pub key_q : ℕ
key_q = 0x14

abbrev pub key_r : ℕ
key_r = 0x15

abbrev pub key_s : ℕ
key_s = 0x16

abbrev pub key_t : ℕ
key_t = 0x17

abbrev pub key_u : ℕ
key_u = 0x18

abbrev pub key_v : ℕ
key_v = 0x19

abbrev pub key_w : ℕ
key_w = 0x1a

abbrev pub key_x : ℕ
key_x = 0x1b

abbrev pub key_y : ℕ
key_y = 0x1c

abbrev pub key_z : ℕ
key_z = 0x1d

abbrev pub key_1 : ℕ
key_1 = 0x1e

abbrev pub key_2 : ℕ
key_2 = 0x1f

abbrev pub key_3 : ℕ
key_3 = 0x20

abbrev pub key_4 : ℕ
key_4 = 0x21

abbrev pub key_5 : ℕ
key_5 = 0x22

abbrev pub key_6 : ℕ
key_6 = 0x23

abbrev pub key_7 : ℕ
key_7 = 0x24

abbrev pub key_8 : ℕ
key_8 = 0x25

abbrev pub key_9 : ℕ
key_9 = 0x26

abbrev pub key_0 : ℕ
key_0 = 0x27

abbrev pub key_return : ℕ
key_return = 0x28

abbrev pub key_backspace : ℕ
key_backspace = 0x2a

abbrev pub key_tab : ℕ
key_tab = 0x2b

abbrev pub key_space : ℕ
key_space = 0x2c

abbrev pub key_minus : ℕ
key_minus = 0x2d

abbrev pub key_bracket_left : ℕ
key_bracket_left = 0x2f

abbrev pub key_bracket_right : ℕ
key_bracket_right = 0x30

abbrev pub key_backslash : ℕ
key_backslash = 0x31

abbrev pub key_apostrophe : ℕ
key_apostrophe = 0x34

abbrev pub key_grave : ℕ
key_grave = 0x35

abbrev pub key_comma : ℕ
key_comma = 0x36

abbrev pub key_period : ℕ
key_period = 0x37

abbrev pub key_slash : ℕ
key_slash = 0x38

abbrev pub key_europe_2 : ℕ
key_europe_2 = 0x3a

abbrev pub key_europe_2_org : ℕ
key_europe_2_org = 0x64

abbrev pub shift_mask : ℕ
shift_mask = 0x80

abbrev pub altgr_mask : ℕ
altgr_mask = 0x40
