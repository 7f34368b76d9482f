-- ===== src/Hid/Keys/Beyond.antt =====
-- The key codes of hid_defines.h from 0x40 on, but for KEY_EUROPE_2_ORG.
use memtype.Base.{ℕ}

abbrev pub key_f7 : ℕ
key_f7 = 0x40

abbrev pub key_f8 : ℕ
key_f8 = 0x41

abbrev pub key_f9 : ℕ
key_f9 = 0x42

abbrev pub key_f10 : ℕ
key_f10 = 0x43

abbrev pub key_f11 : ℕ
key_f11 = 0x44

abbrev pub key_f12 : ℕ
key_f12 = 0x45

abbrev pub key_print_screen : ℕ
key_print_screen = 0x46

abbrev pub key_scroll_lock : ℕ
key_scroll_lock = 0x47

abbrev pub key_pause : ℕ
key_pause = 0x48

abbrev pub key_insert : ℕ
key_insert = 0x49

abbrev pub key_home : ℕ
key_home = 0x4a

abbrev pub key_page_up : ℕ
key_page_up = 0x4b

abbrev pub key_delete : ℕ
key_delete = 0x4c

abbrev pub key_end : ℕ
key_end = 0x4d

abbrev pub key_page_down : ℕ
key_page_down = 0x4e

abbrev pub key_arrow_right : ℕ
key_arrow_right = 0x4f

abbrev pub key_arrow_left : ℕ
key_arrow_left = 0x50

abbrev pub key_arrow_down : ℕ
key_arrow_down = 0x51

abbrev pub key_arrow_up : ℕ
key_arrow_up = 0x52

abbrev pub key_num_lock : ℕ
key_num_lock = 0x53

abbrev pub key_keypad_divide : ℕ
key_keypad_divide = 0x54

abbrev pub key_keypad_multiply : ℕ
key_keypad_multiply = 0x55

abbrev pub key_keypad_subtract : ℕ
key_keypad_subtract = 0x56

abbrev pub key_keypad_add : ℕ
key_keypad_add = 0x57

abbrev pub key_keypad_enter : ℕ
key_keypad_enter = 0x58

abbrev pub key_keypad_1 : ℕ
key_keypad_1 = 0x59

abbrev pub key_keypad_2 : ℕ
key_keypad_2 = 0x5a

abbrev pub key_keypad_3 : ℕ
key_keypad_3 = 0x5b

abbrev pub key_keypad_4 : ℕ
key_keypad_4 = 0x5c

abbrev pub key_keypad_5 : ℕ
key_keypad_5 = 0x5d

abbrev pub key_keypad_6 : ℕ
key_keypad_6 = 0x5e

abbrev pub key_keypad_7 : ℕ
key_keypad_7 = 0x5f

abbrev pub key_keypad_8 : ℕ
key_keypad_8 = 0x60

abbrev pub key_keypad_9 : ℕ
key_keypad_9 = 0x61

abbrev pub key_keypad_0 : ℕ
key_keypad_0 = 0x62

abbrev pub key_keypad_decimal : ℕ
key_keypad_decimal = 0x63

abbrev pub key_application : ℕ
key_application = 0x65

abbrev pub key_power : ℕ
key_power = 0x66

abbrev pub key_keypad_equal : ℕ
key_keypad_equal = 0x67

abbrev pub key_f13 : ℕ
key_f13 = 0x68

abbrev pub key_f14 : ℕ
key_f14 = 0x69

abbrev pub key_f15 : ℕ
key_f15 = 0x6a
