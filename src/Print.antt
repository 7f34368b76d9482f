-- ===== src/Print.antt =====
-- print.h and print.c: the queue of strings to type, and the keys that are typed. `printUpdate`,
-- which calls back into crd.c, stands in Print/Update.
pub mod Update
pub mod Typing
pub mod Strokes
pub mod Strings
pub mod Queue
pub mod Fifo
pub mod Order
pub mod Counted
pub mod Pressed
pub mod Pause
pub mod Delete
use memtype.Base.{
  ℕ, zero, suc, ◌+◌, ◌/◌, ◌%◌, ◌-◌, ◌^◌, bit_and, bit_or, Bool, true, false, ◌==◌, if◌then◌else◌,
  Bytes, update, add16,
}
use memtype.Hid.Keys.{key_europe_2, key_europe_2_org, shift_mask, altgr_mask}
use memtype.State.{Printer, StrPtr, Info, empty, ram, flash, Ptr, delete}

abbrev pub strbuf_size : ℕ
strbuf_size = 5

-- sizeof(strBuf): five packed entries of five bytes each.
abbrev pub sizeof_str_buf : ℕ
sizeof_str_buf = 25

-- The entry that is being typed, and a change of it.
abbrev pub act : Printer → StrPtr
act p = p.str_buf p.act_string

abbrev pub set_act : StrPtr → Printer → Printer
set_act s p = record p { str_buf = update p.str_buf p.act_string s }

unfoldable pub is_empty : Info → Bool
is_empty empty = true
is_empty ram = false
is_empty flash = false

-- What `print` puts into an entry.
abbrev pub entry : Ptr → Info → ℕ → StrPtr
entry str info len = record {
  str_ptr = str;
  info = info;
  len = len;
  callback = if len == 0 then 0 else 1;
}

-- The loop of `print`: the first free entry from `actString + cont` on, round the buffer.
unfoldable pub print_loop : ℕ → ℕ → StrPtr → Printer → Printer
unfolding is_empty
print_loop zero cont e p = p
print_loop (suc n) cont e p =
    let index = (p.act_string + cont) % strbuf_size in
    elim (is_empty (p.str_buf index).info) [
      | true ↦ record p { str_buf = update p.str_buf index e }
      | false ↦ print_loop n (cont + 1) e p
    ]

unfoldable pub print : Ptr → Info → ℕ → Printer → Printer
unfolding print_loop
print str info len = print_loop sizeof_str_buf 0 (entry str info len)

-- printStr(str, RAM), printStr(str, FLASH) and print_nStr.
abbrev pub print_str_ram : Ptr → Printer → Printer
print_str_ram str = print str ram 0

abbrev pub print_str_flash : ℕ → Printer → Printer
print_str_flash a = print (Ptr.flash_at a) flash 0

abbrev pub print_n_str : Ptr → ℕ → Printer → Printer
print_n_str str len = print str ram len

-- print_deleteStr
abbrev pub print_delete_str : Printer → Printer
print_delete_str p = record p { kbd_status = delete }

-- The two bytes that print_pressKey takes from an entry of the layout table.
unfoldable pub modifier_of : ℕ → ℕ
modifier_of key = bit_or (bit_and shift_mask key / 2 ^ 6) (bit_and altgr_mask key)

unfoldable pub keycode_of : ℕ → ℕ
keycode_of key =
    let k = bit_and (0xff - bit_or shift_mask altgr_mask) key in
    if k == key_europe_2 then key_europe_2_org else k

-- print_pressKey, with the EEPROM and the address of `keyboardLUT_ES`.
unfoldable pub print_press_key : Bytes → ℕ → ℕ → Printer → Printer
unfolding modifier_of keycode_of
print_press_key eeprom keyboard_lut ascii p =
    let key = eeprom (add16 keyboard_lut ascii) in
    record p {
      report_buffer = record (p.report_buffer) {
        modifier = modifier_of key;
        keycode = keycode_of key;
      };
    }

-- print_releaseKey
unfoldable pub print_release_key : Printer → Printer
print_release_key p = record p {
  report_buffer = record (p.report_buffer) { modifier = 0; keycode = 0 };
}
