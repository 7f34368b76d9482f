-- ===== src/Tests/Requests.antt =====
-- Requests for reports.
use memtype.Base.{◌-◌, ◌≡◌, ◌==◌, if◌then◌else◌, refl, length, ℕ, List, [], ◌∷◌}
use memtype.Main.{Reply, UsbCall, setup, write, bytes, no_msg, UsbRequest, usb_function_setup}
use memtype.Main.Descriptor.{
  input, feature, wire, report_descriptor_length, usb_hid_report_descriptor,
  usb_function_setup-declared,
}
use memtype.Tests.Fixture.{test_board, fresh}

-- GET_REPORT for the second report, as a feature report (3).
abbrev get_second : UsbRequest
get_second = record { bm_request_type = 0xa1; b_request = 1; value_low = 2; value_high = 3 }

usb_function_setup-declared_example :
    let answer : ℕ → ℕ → Reply = λ request kind.
      (usb_function_setup test_board
        (record get_second { b_request = request; value_high = kind })
        fresh).0 in
    (answer 1 3 ≡ bytes (if wire input 2 == 0 then wire feature 2 - 1 else wire input 2))
    × (answer 9 3 ≡ (if wire feature 2 == 0 then bytes 0 else no_msg))
usb_function_setup-declared_example = usb_function_setup-declared test_board get_second 3 fresh refl

length_test : length usb_hid_report_descriptor ≡ report_descriptor_length
length_test = refl

-- SET_IDLE with 125, a packet, and the two questions.
abbrev calls : List UsbCall
calls =
    setup (record { bm_request_type = 0x21; b_request = 10; value_low = 0; value_high = 125 })
    ∷ write (λ i. 0) 8
    ∷ []

abbrev ask : ℕ → UsbRequest
ask request = record { bm_request_type = 0xa1; b_request = request; value_low = 0; value_high = 0 }

-- SET_PROTOCOL for the report protocol, which is 1.
abbrev report_protocol : UsbRequest
report_protocol = record { bm_request_type = 0x21; b_request = 11; value_low = 1; value_high = 0 }
