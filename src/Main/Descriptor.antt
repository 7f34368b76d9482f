-- ===== src/Main/Descriptor.antt =====
-- The report descriptor of main.c, and what it declares by the items of USB HID 1.11, 6.2.2.
use memtype.Base.{
  ℕ, zero, suc, ◌+◌, ◌-◌, ◌*◌, ◌/◌, ◌%◌, ◌≡◌, refl, Bool, true, false, ◌==◌, ◌&&◌, if◌then◌else◌,
  bit_and, List, [], ◌∷◌, ◌++◌, length, arith,
}
use memtype.State.{Device}
use memtype.Board.{Board}
use memtype.Main.Usbrq
use memtype.Main.{UsbRequest, Reply, bytes, no_msg, usb_function_setup}

-- USB_CFG_HID_REPORT_DESCRIPTOR_LENGTH
abbrev pub report_descriptor_length : ℕ
report_descriptor_length = 39 + 24

-- The collection of the keyboard, and that of the protocol.
abbrev pub keyboard_collection : List ℕ
keyboard_collection =
    0x05 ∷ 0x01 ∷ 0x09 ∷ 0x06 ∷ 0xa1 ∷ 0x01 ∷ 0x85 ∷ 0x01 ∷ 0x05 ∷ 0x07 ∷ 0x19 ∷ 0xe0 ∷ 0x29 ∷ 0xe7
    ∷ 0x15 ∷ 0x00 ∷ 0x25 ∷ 0x01 ∷ 0x75 ∷ 0x01 ∷ 0x95 ∷ 0x08 ∷ 0x81 ∷ 0x02 ∷ 0x75 ∷ 0x08 ∷ 0x95
    ∷ 0x01 ∷ 0x15 ∷ 0x00 ∷ 0x25 ∷ 0x65 ∷ 0x19 ∷ 0x00 ∷ 0x29 ∷ 0x65 ∷ 0x81 ∷ 0x00 ∷ 0xc0 ∷ []

abbrev pub vendor_collection : List ℕ
vendor_collection =
    0x06 ∷ 0x00 ∷ 0xff ∷ 0x09 ∷ 0x01 ∷ 0xa1 ∷ 0x01 ∷ 0x85 ∷ 0x02 ∷ 0x15 ∷ 0x00 ∷ 0x26 ∷ 0xff ∷ 0x00
    ∷ 0x75 ∷ 0x08 ∷ 0x95 ∷ 0x08 ∷ 0x09 ∷ 0x00 ∷ 0xb2 ∷ 0x02 ∷ 0x01 ∷ 0xc0 ∷ []

-- usbHidReportDescriptor
abbrev pub usb_hid_report_descriptor : List ℕ
usb_hid_report_descriptor = keyboard_collection ++ vendor_collection

-- Which report a main item is for.
pub data ReportType : Type 0 where
  input output feature : ReportType

-- A field of a report, by its number of bits and their largest value.
pub record Field : Type 0 where
  pub report_type : ReportType
  pub id : ℕ
  pub bits : ℕ
  pub logical_maximum : ℕ

-- The global items that a field's size depends on.
pub record Globals : Type 0 where
  pub report_size : ℕ
  pub report_count : ℕ
  pub report_id : ℕ
  pub maximum : ℕ

-- The data bytes of a short item: its two low bits, with 3 for four bytes.
abbrev data_size : ℕ → ℕ
data_size prefix = if prefix % 4 == 3 then 4 else prefix % 4

-- An item's data, the low byte first, and what follows it.
abbrev value : ℕ → List ℕ → ℕ
value zero bs = 0
value (suc n) [] = 0
value (suc n) (x ∷ bs) = x + 256 * value n bs

abbrev skip : ℕ → List ℕ → List ℕ
skip zero bs = bs
skip (suc n) [] = []
skip (suc n) (x ∷ bs) = skip n bs

-- A global item: logical maximum, report size, report id or report count.
abbrev set_global : ℕ → ℕ → Globals → Globals
set_global tag v g =
    if tag == 0x24
    then record g { maximum = v }
    else if tag == 0x74
    then record g { report_size = v }
    else if tag == 0x84
    then record g { report_id = v }
    else if tag == 0x94
    then record g { report_count = v }
    else g

abbrev field_of : ReportType → Globals → Field
field_of t g = record {
  report_type = t;
  id = g.report_id;
  bits = g.report_size * g.report_count;
  logical_maximum = g.maximum;
}

-- A main item declares a field.
abbrev main_item : ℕ → Globals → List Field → List Field
main_item tag g rest =
    if tag == 0x80
    then field_of input g ∷ rest
    else if tag == 0x90
    then field_of output g ∷ rest
    else if tag == 0xb0
    then field_of feature g ∷ rest
    else rest

-- The fields of at most so many items.
unfoldable pub fields : ℕ → Globals → List ℕ → List Field
fields zero g bs = []
fields (suc n) g [] = []
fields (suc n) g (prefix ∷ bs) =
    let tag = prefix - prefix % 4 in
    let size = data_size prefix in
    let g' = set_global tag (value size bs) g in main_item tag g' (fields n g' (skip size bs))

-- Those of a descriptor, which has no more items than bytes.
abbrev pub declared : List ℕ → List Field
declared bs =
    fields (length bs) (record { report_size = 0; report_count = 0; report_id = 0; maximum = 0 }) bs

abbrev pub same_type : ReportType → ReportType → Bool
same_type input input = true
same_type output output = true
same_type feature feature = true
same_type _ _ = false

-- The bits of one report.
abbrev pub report_bits : ReportType → ℕ → List Field → ℕ
report_bits t id [] = 0
report_bits t id (f ∷ fs) =
    let rest = report_bits t id fs in
    if same_type f.report_type t && f.id == id then f.bits + rest else rest

fields_lem :
    declared usb_hid_report_descriptor
    ≡ record { report_type = input; id = 1; bits = 8; logical_maximum = 1 }
      ∷ record { report_type = input; id = 1; bits = 8; logical_maximum = 101 }
      ∷ record { report_type = feature; id = 2; bits = 64; logical_maximum = 255 }
      ∷ []
unfolding fields
fields_lem = refl

-- The whole bytes of a report's data.
abbrev pub report_bytes : ReportType → ℕ → ℕ
report_bytes t id = report_bits t id (declared usb_hid_report_descriptor) / 8

input_bytes : (id : ℕ) → report_bytes input id ≡ (if id == 1 then 2 else 0)
input_bytes id = rw fields_lem (ground arith)

feature_bytes : (id : ℕ) → report_bytes feature id ≡ (if id == 2 then 8 else 0)
feature_bytes id = rw fields_lem (ground arith)

-- The bytes of a declared report on the wire, where the id goes before the data, as the descriptor has
-- report ids; none for a report that is not declared.
abbrev pub wire : ReportType → ℕ → ℕ
wire t id = if report_bytes t id == 0 then 0 else 1 + report_bytes t id

module _ (b : Board) where
  -- How the answers of usbFunctionSetup relate to the report descriptor. Only the id in wValue counts,
  -- and the report's type in its upper byte does not, whatever it is: GET_REPORT for the id of a declared
  -- input report is answered with as many bytes as that report has on the wire; for the id of a declared
  -- feature report with one byte less than on the wire; for any other id with none. SET_REPORT has a
  -- data phase for the id of a declared feature report, and for no other.
  pub usb_function_setup-declared :
      (rq : UsbRequest) (kind : ℕ) (d : Device)
      → bit_and rq.bm_request_type Usbrq.type_mask ≡ Usbrq.type_class
      → let answer : ℕ → ℕ → Reply = λ request t.
        (usb_function_setup b (record rq { b_request = request; value_high = t }) d).0 in
        let from_input = wire input rq.value_low in
        let from_feature = wire feature rq.value_low in
        (answer Usbrq.get_report kind
          ≡ bytes (if from_input == 0 then from_feature - 1 else from_input))
        × (answer Usbrq.set_report kind ≡ (if from_feature == 0 then bytes 0 else no_msg))
  unfolding usb_function_setup
  usb_function_setup-declared rq kind d class = (
    ground (arith, class, input_bytes rq.value_low, feature_bytes rq.value_low),
    ground (arith, class, feature_bytes rq.value_low),
  )
