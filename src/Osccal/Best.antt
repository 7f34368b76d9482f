-- ===== src/Osccal/Best.antt =====
-- What OSCCAL_Start stores: the best of the found value and its neighbours.
use memtype.Base.{
  ℕ, zero, suc, ◌+◌, ◌*◌, ◌≤◌, ◌<◌, ◌≡◌, ◌≢◌, ◌⊎◌, inl, inr, refl, ap, ◌∙◌, false, ltb, ◌==◌,
  if◌then◌else◌, update, add8, some, Bytes, done, arith,
}
use memtype.State.{Device}
use memtype.Board.{Board}
use memtype.Reset.{reset_state}
use memtype.Osccal.{osccal_init, osccal_invalid}
use memtype.Osccal.Start.{target_value, first_step, search_rounds, osccal_start}
use memtype.Osccal.Plain.{
  plain_deviation, plain_search, plain_neighbours, search_loop-plain_search,
  neighbour_loop-plain_neighbours,
}
use memtype.Osccal.Search.{step_of, Slow, Fast, Found, search_lem}

-- The device with a new calibration, in the register and in EEPROM.
abbrev pub calibrated : Board → ℕ → Device → Device
calibrated b r d = record d { osccal = r; eeprom = update d.eeprom b.osccal_eep_value r }

module _ (measure : ℕ → ℕ) where
  -- How far the clock is off at a value.
  abbrev pub off_by : ℕ → ℕ
  off_by v = plain_deviation (measure v)

  abbrev best_of : ℕ → ℕ → ℕ → ℕ
  best_of o best dev = if ltb (off_by o) dev then o else best

  abbrev dev_of : ℕ → ℕ → ℕ
  dev_of o dev = if ltb (off_by o) dev then off_by o else dev

  neighbour_next :
      (n t o o' best dev : ℕ)
      → o ≤ t + 1
      → add8 o 1 ≡ o'
      → plain_neighbours measure (suc n) t o best dev
        ≡ plain_neighbours measure n t o' (best_of o best dev) (dev_of o dev)
  unfolding plain_neighbours
  neighbour_next n t o o' best dev le e = ground (arith, e)

  neighbour_stop :
      (n t o best dev : ℕ) → t + 1 < o → plain_neighbours measure (suc n) t o best dev ≡ some best
  unfolding plain_neighbours
  neighbour_stop n t o best dev lt = ground arith

  -- Three rounds, from `u` on.
  abbrev best_of_three : ℕ → ℕ → ℕ
  best_of_three u x =
      best_of (u + 2) (best_of (u + 1) (best_of u (u + 1) x) (dev_of u x))
        (dev_of (u + 1) (dev_of u x))

  neighbour_three :
      (n u x : ℕ)
      → u < 253
      → plain_neighbours measure (suc (suc (suc (suc n)))) (u + 1) u (u + 1) x
        ≡ some (best_of_three u x)
  neighbour_three n u x lt =
      let t = u + 1 in
      let d1 = dev_of u x in
      let b1 = best_of u t x in
      let b2 = best_of (u + 1) b1 d1 in
      let d2 = dev_of (u + 1) d1 in
      neighbour_next (suc (suc (suc n))) t u (u + 1) t x (omega arith) (omega arith)
      ∙ neighbour_next (suc (suc n)) t (u + 1) (u + 2) b1 d1 (omega arith) (omega arith)
      ∙ neighbour_next (suc n) t (u + 2) (u + 3) b2 d2 (omega arith) (omega arith)
      ∙ neighbour_stop n t (u + 3) (best_of_three u x) (dev_of (u + 2) d2) (omega arith)

  best_of_three_lem :
      (u x : ℕ)
      → off_by (u + 1) < x
      → let r = best_of_three u x in
        (u ≤ r)
        × (r ≤ u + 2)
        × (off_by r ≤ off_by u)
        × (off_by r ≤ off_by (u + 1))
        × (off_by r ≤ off_by (u + 2))
  best_of_three_lem u x h = (ground arith, ground arith, ground arith, ground arith, ground arith)

  osccal_start-found :
      (b : Board) (d : Device) (u x : ℕ)
      → ((v : ℕ) → v < 256 → measure v < 32768)
      → plain_search measure search_rounds first_step 0 ≡ some (u + 1, x)
      → x < 32768
      → u < 253
      → osccal_start measure b d ≡ done (calibrated b (best_of_three u x) d)
  unfolding osccal_start
  osccal_start-found b d u x bounded e small lt =
      let found = search_loop-plain_search measure bounded search_rounds first_step 0 ∙ e in
      let a : add8 (u + 1) 255 ≡ u = omega arith in
      let best =
        neighbour_loop-plain_neighbours measure bounded 257 (u + 1) u (u + 1) x (omega arith) small
        ∙ neighbour_three 253 u x lt in
      rw (found, a, best) refl

  plain_search-Found : Found measure (plain_search measure search_rounds first_step 0)
  unfolding step_of
  plain_search-Found = search_lem measure 7 0 (inl refl) (inl refl) (omega arith)

  Fast-next :
      (u : ℕ)
      → Fast measure (suc u + 1)
      → u < 253
      → measure (suc u + 1) ≡ measure (u + 2)
      → target_value ≤ measure (u + 2)
  Fast-next u (inl e) lt same = absurd (omega arith)
  Fast-next u (inr f) lt same = omega (arith, f, same)

  last_half :
      (u x : ℕ)
      → u < 253
      → (x ≡ measure (u + 1)) ⊎ (x ≡ measure (u + 1 + 1))
      → ((v : ℕ) → v < 256 → target_value < 2 * measure v)
      → target_value < 2 * x
  last_half u x lt (inl e) half = omega (arith, e, half (u + 1) (omega arith))
  last_half u x lt (inr e) half = omega (arith, e, half (u + 1 + 1) (omega arith))

  below_int :
      (u x : ℕ)
      → u < 253
      → (x ≡ measure (u + 1)) ⊎ (x ≡ measure (u + 1 + 1))
      → ((v : ℕ) → v < 256 → measure v < 32768)
      → x < 32768
  below_int u x lt (inl e) bounded = omega (arith, e, bounded (u + 1) (omega arith))
  below_int u x lt (inr e) bounded = omega (arith, e, bounded (u + 1 + 1) (omega arith))

  -- The first value that is fast enough has a slow one before it, which is not 0 or past 253.
  between :
      (t : ℕ)
      → measure 1 < target_value
      → target_value ≤ measure 254
      → target_value ≤ measure 255
      → Slow measure t
      → Fast measure (t + 1)
      → t < 256
      → (u : ℕ) × (t ≡ u + 1)
        × (u < 253)
        × (measure (u + 1) < target_value)
        × (target_value ≤ measure (u + 2))
  between zero slow fast fast' lo (inl e) lt = absurd (omega arith)
  between zero slow fast fast' lo (inr f) lt = absurd (omega arith)
  between (suc u) slow fast fast' (inl e) hi lt = absurd (omega arith)
  between (suc u) slow fast fast' (inr s) hi lt =
      let n : u ≢ 253 =
        λ e. omega (arith, s, fast, ap measure {x = suc u} {y = 254} (omega arith)) in
      let n' : u ≢ 254 =
        λ e. omega (arith, s, fast', ap measure {x = suc u} {y = 255} (omega arith)) in
      let bound : u < 253 = ground (arith, n, n', lt) in
      let e1 = ap measure {x = suc u} {y = u + 1} (omega arith) in
      let e2 = ap measure {x = suc u + 1} {y = u + 2} (omega arith) in
      (u, omega arith, bound, omega (arith, s, e1), Fast-next u hi bound e2)

  -- A measurement of more than half the target is more than what a slow clock is off by.
  near :
      (t x : ℕ)
      → measure t < target_value
      → target_value < 2 * measure t
      → target_value < 2 * x
      → off_by t < x
  unfolding plain_deviation
  near t x slow half half' = ground arith

  -- Where the clock is too slow at 1, fast enough at 254 and 255, and at each value more than half as
  -- fast as it should be and measured below 32768, the range of int, OSCCAL_Start returns. It finds a value t at which the clock is too slow
  -- and at t + 1 is not, and puts into OSCCAL and into the EEPROM the one of t - 1, t and t + 1 at which
  -- the clock is off by the least; after a reset, OSCCAL_Init loads it again.
  pub osccal_start_lem :
      (b : Board) (d : Device)
      → measure 1 < target_value
      → target_value ≤ measure 254
      → target_value ≤ measure 255
      → ((v : ℕ) → v < 256 → target_value < 2 * measure v)
      → ((v : ℕ) → v < 256 → measure v < 32768)
      → (u : ℕ) × (r : ℕ) × (osccal_start measure b d ≡ done (calibrated b r d))
        × (measure (u + 1) < target_value)
        × (target_value ≤ measure (u + 2))
        × (u ≤ r)
        × (r ≤ u + 2)
        × (off_by r ≤ off_by u)
        × (off_by r ≤ off_by (u + 1))
        × (off_by r ≤ off_by (u + 2))
        × ((f : Bytes) (o : ℕ)
            → (osccal_init b (reset_state f (calibrated b r d).eeprom o)).osccal ≡ r)
  unfolding osccal_init
  osccal_start_lem b d slow fast fast' half bounded =
      let (t, x, e, lo, hi, lt, which) = plain_search-Found in
      let (u, et, lu, s, f) = between t slow fast fast' lo hi lt in
      let half_x = last_half u x lu (rw et at which) half in
      let (l, h, d0, d1, d2) =
        best_of_three_lem u x (near (u + 1) x s (half (u + 1) (omega arith)) half_x) in
      let small : x < 32768 = below_int u x lu (rw et at which) bounded in
      let r = best_of_three u x in
      let valid : (r == osccal_invalid) ≡ false = ground arith in
      (
        u,
        r,
        osccal_start-found b d u x bounded (e ∙ ap (λ k. some (k, x)) et) small lu,
        s,
        f,
        l,
        h,
        d0,
        d1,
        d2,
        λ f' o. ground (arith, valid),
      )
