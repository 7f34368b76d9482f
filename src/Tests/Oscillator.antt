-- ===== src/Tests/Oscillator.antt =====
-- A clock that grows evenly with OSCCAL.
use memtype.Base.{ℕ, ◌+◌, ◌*◌, ◌≤◌, ◌<◌, ◌≡◌, Bytes, done, arith}
use memtype.Osccal.{osccal_init}
use memtype.Osccal.Start.{target_value, osccal_start}
use memtype.Osccal.Best.{off_by, calibrated, osccal_start_lem}
use memtype.Reset.{reset_state}
use memtype.Tests.Fixture.{test_board, fresh}

abbrev frame_length : ℕ → ℕ
frame_length v = 1300 + 10 * v

osccal_start_lem_example :
    (u : ℕ) × (r : ℕ) × (osccal_start frame_length test_board fresh
      ≡ done (calibrated test_board r fresh))
    × (frame_length (u + 1) < target_value)
    × (target_value ≤ frame_length (u + 2))
    × (u ≤ r)
    × (r ≤ u + 2)
    × (off_by frame_length r ≤ off_by frame_length u)
    × (off_by frame_length r ≤ off_by frame_length (u + 1))
    × (off_by frame_length r ≤ off_by frame_length (u + 2))
    × ((f : Bytes) (o : ℕ)
        → (osccal_init test_board (reset_state f (calibrated test_board r fresh).eeprom o)).osccal
          ≡ r)
osccal_start_lem_example =
    osccal_start_lem frame_length test_board fresh (omega arith) (omega arith) (omega arith)
      (λ v h. omega arith) (λ v h. omega arith)
