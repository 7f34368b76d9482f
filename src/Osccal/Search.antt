-- ===== src/Osccal/Search.antt =====
-- What the binary search of OSCCAL_Start finds, in numbers without bounds.
use memtype.Base.{
  ℕ, zero, suc, ◌+◌, ◌/◌, ◌≤◌, ◌<◌, ◌≡◌, ◌⊎◌, inl, inr, refl, ap, sym, subst, ◌∙◌, ltb,
  if◌then◌else◌, add8, Bool-cases, ltb→lt, ltb_false→le, Option, some, arith,
}
use memtype.Osccal.Start.{target_value}
use memtype.Osccal.Plain.{plain_search}

-- The step of the round with `n` rounds after it.
unfoldable pub step_of : ℕ → ℕ
step_of zero = 1
step_of (suc n) = step_of n + step_of n

step_of-pos : (n : ℕ) → 0 < step_of n
unfolding step_of
step_of-pos zero = omega arith
step_of-pos (suc n) = omega (arith, step_of-pos n)

module _ (measure : ℕ → ℕ) where
  -- The clock is too slow at `v`, or `v` is the least value; it is fast enough at `v`, or `v` is past
  -- the greatest.
  abbrev pub Slow : ℕ → Type 0
  Slow v = (v ≡ 0) ⊎ (measure v < target_value)

  abbrev pub Fast : ℕ → Type 0
  Fast v = (v ≡ 256) ⊎ (target_value ≤ measure v)

  -- What the search returns: a value between too slow and fast enough, and its last measurement.
  abbrev pub Found : Option (ℕ × ℕ) → Type 0
  Found out =
      (t : ℕ) × (x : ℕ) × (out ≡ some (t, x))
      × Slow t
      × Fast (t + 1)
      × (t < 256)
      × ((x ≡ measure t) ⊎ (x ≡ measure (t + 1)))

  -- The next trial value, by the value that is tried.
  abbrev moved : ℕ → ℕ → ℕ
  moved trial v = if ltb (measure v) target_value then v else trial

  search_last :
      (trial : ℕ)
      → Slow trial
      → Fast (trial + 2)
      → trial + 2 ≤ 256
      → Found (plain_search measure 1 1 trial)
  unfolding plain_search
  search_last trial lo hi le =
      let e : add8 trial 1 ≡ trial + 1 = omega arith in
      let z : trial + 2 ≡ trial + 1 + 1 = omega arith in
      elim (Bool-cases (ltb (measure (trial + 1)) target_value)) [
        | inl h ↦ (
          trial + 1,
          measure (trial + 1),
          rw (e, h) refl,
          inr (ltb→lt _ _ h),
          rw z at hi,
          omega arith,
          inl refl,
        )
        | inr h ↦ (
          trial,
          measure (trial + 1),
          rw (e, h) refl,
          lo,
          inr (ltb_false→le _ _ h),
          omega arith,
          inr refl,
        )
      ]

  search_next :
      (n s trial : ℕ)
      → 0 < s
      → trial + (s + s) < 256
      → plain_search measure (suc n) (s + s) trial
        ≡ plain_search measure n s (moved trial (trial + (s + s)))
  unfolding plain_search
  search_next n s trial pos le =
      let e : add8 trial (s + s) ≡ trial + (s + s) = omega arith in
      let h : (s + s) / 2 ≡ s = omega arith in ground (arith, e, h)

  pub search_lem :
      (n trial : ℕ)
      → Slow trial
      → Fast (trial + step_of (suc n))
      → trial + step_of (suc n) ≤ 256
      → Found (plain_search measure (suc n) (step_of n) trial)
  unfolding step_of
  search_lem zero trial lo hi le = search_last trial lo hi le
  search_lem (suc n) trial lo hi le =
      let s = step_of n in
      let pos = step_of-pos n in
      let e = search_next (suc n) s trial pos (omega arith) in
      elim (Bool-cases (ltb (measure (trial + (s + s))) target_value)) [
        | inl h ↦
            let z : trial + (s + s + (s + s)) ≡ trial + (s + s) + (s + s) = omega arith in
            let r =
              search_lem n (trial + (s + s)) (inr (ltb→lt _ _ h)) (rw z at hi) (omega arith) in
            subst Found (sym (e ∙ ap (plain_search measure (suc n) s) (rw h refl))) r
        | inr h ↦
            let r = search_lem n trial lo (inr (ltb_false→le _ _ h)) (omega arith) in
            subst Found (sym (e ∙ ap (plain_search measure (suc n) s) (rw h refl))) r
      ]
