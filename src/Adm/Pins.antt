-- ===== src/Adm/Pins.antt =====
-- The pins that ADM_Init sets up.
use memtype.Base.{
  ℕ, ◌/◌, ◌%◌, ◌^◌, ◌<◌, ◌≡◌, refl, Bool, true, ◌==◌, ltb, if◌then◌else◌, table_holds,
  table_holds_lem, arith,
}
use memtype.Adm.{clear_pin_2}

-- A bit of a register.
abbrev pub pin : ℕ → ℕ → ℕ
pin j r = r / 2 ^ j % 2

-- Pin 2 is clear and the others are as in the register.
abbrev cleared : ℕ → ℕ → Bool
cleared r j = pin j (clear_pin_2 r) == (if j == 2 then 0 else pin j r)

all_cleared : table_holds (λ r. table_holds (cleared r) 8) 256 ≡ true
unfolding table_holds clear_pin_2
all_cleared = refl

pub clear_pin_2-pin :
    (r j : ℕ) → r < 256 → j < 8 → pin j (clear_pin_2 r) ≡ (if j == 2 then 0 else pin j r)
clear_pin_2-pin r j small inside =
    let row = table_holds_lem (λ x. table_holds (cleared x) 8) 256 r all_cleared small in
    let cell = table_holds_lem (cleared r) 8 j row inside in ground (arith, cell)

all_bytes : table_holds (λ r. ltb (clear_pin_2 r) 256) 256 ≡ true
unfolding table_holds clear_pin_2
all_bytes = refl

pub clear_pin_2-byte : (r : ℕ) → r < 256 → clear_pin_2 r < 256
clear_pin_2-byte r small =
    let row = table_holds_lem (λ x. ltb (clear_pin_2 x) 256) 256 r all_bytes small in
    ground (arith, row)
