-- ===== src/Osccal/Plain.antt =====
-- The loops of OSCCAL_Start in numbers without bounds, and when they are those of the code.
use memtype.Base.{
  ℕ, zero, suc, ◌+◌, ◌-◌, ◌/◌, ◌%◌, ◌<◌, ◌≡◌, ◌∙◌, refl, ap, ap₂, fun_ext, Bool, true, false, ltb,
  leb, ◌==◌, if◌then◌else◌, add8, Option, none, some, arith,
}
use memtype.Osccal.Start.{target_value, below, deviation, search_loop, neighbour_loop}

-- | x - targetValue |
unfoldable pub plain_deviation : ℕ → ℕ
plain_deviation x = if ltb x target_value then target_value - x else x - target_value

module _ (measure : ℕ → ℕ) where
  -- The binary search: `trialValue` and `x` at its end.
  unfoldable pub plain_search : ℕ → ℕ → ℕ → Option (ℕ × ℕ)
  plain_search zero step trial = none
  plain_search (suc n) step trial =
      let osccal = add8 trial step in
      let x = measure osccal in
      let trial' = if ltb x target_value then osccal else trial in
      elim (step / 2 == 0) [ true ↦ some (trial', x) | false ↦ plain_search n (step / 2) trial' ]

  -- The search of the neighbours, from register value `osccal` on, with the best value so far and its
  -- deviation. `trialValue + 1` is not cut to eight bits, and the register is.
  unfoldable pub plain_neighbours : ℕ → ℕ → ℕ → ℕ → ℕ → Option ℕ
  plain_neighbours zero trial osccal best dev = none
  plain_neighbours (suc n) trial osccal best dev = elim (leb osccal (trial + 1)) [
    | true ↦
        let x = plain_deviation (measure osccal) in
        elim (ltb x dev) [
          | true ↦ plain_neighbours n trial (add8 osccal 1) osccal x
          | false ↦ plain_neighbours n trial (add8 osccal 1) best dev
        ]
    | false ↦ some best
  ]

below-ltb : (x y : ℕ) → x < 32768 → y < 32768 → below x y ≡ ltb x y
below-ltb x y hx hy = ground arith

deviation-plain_deviation : (x : ℕ) → x < 32768 → deviation x ≡ plain_deviation x
unfolding deviation plain_deviation
deviation-plain_deviation x h = ground arith

plain_deviation-small : (x : ℕ) → x < 32768 → plain_deviation x < 32768
unfolding plain_deviation
plain_deviation-small x h = ground arith

module _ (measure : ℕ → ℕ) (bounded : (v : ℕ) → v < 256 → measure v < 32768) where
  whole : (v : ℕ) → v < 256 → measure v % 65536 ≡ measure v
  whole v h = omega (arith, bounded v h)

  pub search_loop-plain_search :
      (n step trial : ℕ) → search_loop measure n step trial ≡ plain_search measure n step trial
  unfolding search_loop plain_search
  search_loop-plain_search zero step trial = refl
  search_loop-plain_search (suc n) step trial =
      let v = add8 trial step in
      let m = measure v in
      let e = whole v (omega arith) in
      let same : below (m % 65536) target_value ≡ ltb m target_value =
        ap (λ x. below x target_value) e
        ∙ below-ltb m target_value (bounded v (omega arith)) (omega arith) in
      let body : (ℕ → Option (ℕ × ℕ)) → ℕ → Bool → Option (ℕ × ℕ) = λ rest x low.
        let trial' = if low then v else trial in
        elim (step / 2 == 0) [ true ↦ some (trial', x) | false ↦ rest trial' ] in
      ap₂ (body (search_loop measure n (step / 2))) e same
      ∙ ap (λ rest. body rest m (ltb m target_value))
          (fun_ext (λ t. search_loop-plain_search n (step / 2) t))

  pub neighbour_loop-plain_neighbours :
      (n trial osccal best dev : ℕ)
      → osccal < 256
      → dev < 32768
      → neighbour_loop measure n trial osccal best dev
        ≡ plain_neighbours measure n trial osccal best dev
  unfolding neighbour_loop plain_neighbours
  neighbour_loop-plain_neighbours zero trial osccal best dev byte small = refl
  neighbour_loop-plain_neighbours (suc n) trial osccal best dev byte small =
      let m = measure osccal in
      let x = plain_deviation m in
      let small' = plain_deviation-small m (bounded osccal byte) in
      let ex : deviation (m % 65536) ≡ x =
        ap deviation (whole osccal byte) ∙ deviation-plain_deviation m (bounded osccal byte) in
      let same : below (deviation (m % 65536)) dev ≡ ltb x dev =
        ap (λ y. below y dev) ex ∙ below-ltb x dev small' small in
      let body : Bool → Option ℕ → Option ℕ → Option ℕ = λ low better worse.
        elim (leb osccal (trial + 1)) [
          | true ↦ elim low [ true ↦ better | false ↦ worse ]
          | false ↦ some best
        ] in
      let next = neighbour_loop-plain_neighbours n trial (add8 osccal 1) in
      ap₂
        (λ y low.
          body low (neighbour_loop measure n trial (add8 osccal 1) osccal y)
            (neighbour_loop measure n trial (add8 osccal 1) best dev))
        ex same
      ∙ ap₂ (body (ltb x dev)) (next osccal x (omega arith) small')
          (next best dev (omega arith) small)
