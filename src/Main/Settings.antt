-- ===== src/Main/Settings.antt =====
-- The idle rate and the protocol that the host sets.
use memtype.Base.{ℕ, bit_and, Bool, ◌&&◌, ◌==◌, if◌then◌else◌, List, [], ◌∷◌}
use memtype.State.{Device}
use memtype.Board.{Board}
use memtype.Main.Usbrq
use memtype.Main.{UsbRequest, UsbCall, setup, write, usb_call}

-- The request is one of its class, with this code.
abbrev pub asks : ℕ → UsbRequest → Bool
asks code rq =
    bit_and rq.bm_request_type Usbrq.type_mask == Usbrq.type_class && rq.b_request == code

-- The idle rate after a sequence of calls: the duration of the last SET_IDLE, which is the upper byte
-- of wValue (USB HID 1.11, 7.2.4).
abbrev pub last_idle : List UsbCall → ℕ → ℕ
last_idle [] v = v
last_idle (setup rq ∷ cs) v = last_idle cs (if asks Usbrq.set_idle rq then rq.value_high else v)
last_idle (write packet len ∷ cs) v = last_idle cs v

module _ (b : Board) where
  unfoldable pub usb_calls : List UsbCall → Device → Device
  usb_calls [] d = d
  usb_calls (c ∷ cs) d = usb_calls cs (usb_call b c d)
