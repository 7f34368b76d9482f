-- ===== src/Osccal/Ends.antt =====
-- What OSCCAL_Start leaves alone, whatever it measures.
use memtype.Base.{ℕ, ◌≡◌, refl, update, add8, Ends, Ends-bind, or_hang, or_hang-Ends}
use memtype.State.{Device}
use memtype.Board.{Board}
use memtype.Osccal.Start.{
  search_loop, neighbour_loop, search_rounds, first_step, neighbour_rounds, osccal_start,
}

-- `OSCCAL` has another value, which is in the EEPROM too.
abbrev pub Calibrated : Board → Device → Device → Type 0
Calibrated b d d' =
    d' ≡ record d { osccal = d'.osccal; eeprom = update d.eeprom b.osccal_eep_value d'.osccal }

pub osccal_start-Calibrated :
    (measure : ℕ → ℕ) (b : Board) (d : Device)
    → Ends (λ s. s ≡ d) (Calibrated b d) (osccal_start measure b d)
unfolding osccal_start
osccal_start-Calibrated measure b d =
    let P = λ (s : Device). s ≡ d in
    let found = search_loop measure search_rounds first_step 0 in
    Ends-bind P (λ (f : ℕ × ℕ). f ≡ f) (Calibrated b d) (or_hang d found) _
      (or_hang-Ends P (λ (f : ℕ × ℕ). f ≡ f) d found refl (λ f. refl))
      (λ (t, x) e.
        let best = neighbour_loop measure neighbour_rounds t (add8 t 255) t x in
        Ends-bind P (λ (k : ℕ). k ≡ k) (Calibrated b d) (or_hang d best) _
          (or_hang-Ends P (λ (k : ℕ). k ≡ k) d best refl (λ k. refl)) (λ k e'. refl))
