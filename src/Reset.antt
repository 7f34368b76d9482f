-- ===== src/Reset.antt =====
-- The state after a reset: the initial values of every file's variables, beside the two memories,
-- which a reset keeps.
use memtype.Base.{ℕ, false, Bytes}
use memtype.State.{
  Device, StrPtr, Info, Ptr, KbdStatus, KeyboardReport, Fp, MenuState, UcpState, MsgPtr, LedStatus,
  Button, UibState,
}

abbrev zeros : Bytes
zeros i = 0

abbrev free_entry : StrPtr
free_entry = record { str_ptr = Ptr.null 0; info = Info.empty; len = 0; callback = 0 }

abbrev no_report : KeyboardReport
no_report = record { reportid = 0; modifier = 0; keycode = 0 }

-- `osccal` is the value that the hardware loads.
abbrev pub reset_state : Bytes → Bytes → ℕ → Device
reset_state flash eeprom osccal = record {
  flash = flash;
  eeprom = eeprom;
  osccal = osccal;
  leds = record { led = LedStatus.off; i = 0; port_red = false; port_green = false };
  adm_adc_value = 0;
  uib = record {
    button_pressed = Button.not_pressed;
    button_changed = 0;
    last_button_pressed = Button.not_pressed;
    debounce_ctr = 0;
    uib_state = UibState.init_debounce;
  };
  sch = record { last_timer_val = 0; tick = 0 };
  printer = record {
    str_buf = λ i. free_entry;
    act_string = 0;
    c_count = 0;
    eos = 0;
    debounce_count = 0;
    report_buffer = no_report;
    kbd_status = KbdStatus.init;
  };
  crd = record {
    cipher = record { plain = zeros; key = zeros };
    credential = record { name = 0; next = 0; encrypt = 0 };
    position = 0;
    counter = 0;
    crd_start = 0;
    crd_stop = 0;
  };
  usi = record { user_text = zeros; user_pin = zeros; user_text_index = 0; pin_retries = 2 };
  uif = record {
    uif_state = MenuState.start;
    cred_index = 0;
    options_index = 0;
    user_input_index = 0;
  };
  fptr = Fp.null;
  ucp = record {
    ucp_state = UcpState.idle;
    custom_report = zeros;
    temp_buff = zeros;
    flash_write_addr = 0;
    buff_index = 0;
    usb_write = 0;
    usb_write_accepted = 0;
    lock_after_set_pin = 0;
    read_offset = 0;
    read_end = 0;
    read_type = 0;
  };
  hid = record { idle_rate = 125; protocol_version = 0; usb_msg_ptr = MsgPtr.null };
}
