-- ===== src/Uif.antt =====
-- uif.h and uif.c: the first screen, and which menu gets a button.
pub mod Task
use memtype.Base.{ℕ, ◌+◌, ◌-◌, ◌%◌, ◌==◌, if◌then◌else◌}
use memtype.State.{Device, MenuState, on_uif, on_printer}
use memtype.Board.{Board}
use memtype.Print.{print, print_str_flash}

-- UIF_Init
abbrev pub uif_init : Board → Device → Device
uif_init b d =
    on_printer (print_str_flash b.uif_init_str)
      (on_uif (λ u. record u { uif_state = MenuState.start }) d)

-- UIF_increment and UIF_decrement, on the value.
unfoldable pub uif_increment : ℕ → ℕ → ℕ
uif_increment val max = (val + 1) % max % 256

unfoldable pub uif_decrement : ℕ → ℕ → ℕ
uif_decrement val max = if val == 0 then max - 1 else val - 1
