-- ===== src/Tests/Pause.antt =====
-- The pause after a reset.
use memtype.Base.{◌≡◌, inl, refl}
use memtype.State.{released}
use memtype.Print.Pause.{Pausing, updates, updates-Pausing}
use memtype.Tests.Fixture.{test_board, fresh}

fresh-Pausing : Pausing test_board 50 fresh
fresh-Pausing = record { status = inl refl; left = refl }

updates-Pausing_example :
    let d' = updates test_board 51 fresh in
    (d'.printer.kbd_status ≡ released) × (d'.printer.debounce_count ≡ 0)
updates-Pausing_example = updates-Pausing test_board 50 fresh fresh-Pausing
