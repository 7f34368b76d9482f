-- ===== src/Uib/Hold.antt =====
-- A button that is held: when UIB_Task reports it, call by call.
use memtype.Base.{
  ℕ, zero, suc, ◌-◌, ◌%◌, ◌≡◌, ◌∙◌, ap, true, false, ◌&&◌, ◌||◌, ◌==◌, ltb, leb, if◌then◌else◌,
  arith,
}
use memtype.State.{Uib, Button, UibState, init_debounce, second_debounce, repeat_debounce}
use memtype.Uib.{button_of, same_button, debounce_step, uib_task}

same_button_refl : (b : Button) → same_button b b ≡ true
unfolding same_button
same_button_refl b = ground arith

-- The calls of UIB_Task after the one that sees the button first: `n` more with the same value.
unfoldable pub held : ℕ → ℕ → Uib → Uib
held zero v u = uib_task v u
held (suc n) v u = uib_task v (held n v u)

-- The calls that report the button: the fifth, the hundredth after it, and from there each 25th.
abbrev pub pulse : ℕ → ℕ
pulse n = if n == 5 || (leb 105 n && (n - 105) % 25 == 0) then 1 else 0

-- The state machine after `n` calls.
abbrev phase : ℕ → UibState
phase n = if ltb n 5 then init_debounce else if ltb n 105 then second_debounce else repeat_debounce

abbrev count : ℕ → ℕ
count n = if ltb n 5 then n else if ltb n 105 then n - 5 else (n - 105) % 25

record Held (n v : ℕ) (u : Uib) : Type 0 where
  pressed : u.button_pressed ≡ button_of v
  state : u.uib_state ≡ phase n
  counter : u.debounce_ctr ≡ count n
  changed : u.button_changed ≡ pulse n

uib_task-first :
    (v : ℕ) (u : Uib) → same_button u.button_pressed (button_of v) ≡ false → Held 0 v (uib_task v u)
unfolding uib_task debounce_step
uib_task-first v u h = ground arith

uib_task-Held : (n v : ℕ) (u : Uib) → Held n v u → Held (suc n) v (uib_task v u)
unfolding uib_task debounce_step
uib_task-Held n v u h =
    let same : same_button u.button_pressed (button_of v) ≡ true =
      ap (λ x. same_button x (button_of v)) h.pressed ∙ same_button_refl (button_of v) in
    ground (arith, same)

held-Held :
    (n v : ℕ) (u : Uib) → same_button u.button_pressed (button_of v) ≡ false → Held n v (held n v u)
unfolding held
held-Held zero v u h = uib_task-first v u h
held-Held (suc n) v u h = uib_task-Held n v (held n v u) (held-Held n v u h)

-- A button that is pressed anew and then held is reported at the fifth call after the first, at the
-- 105th, and from then on at each 25th, and at no other call, however long it is held; all the while
-- it is the button of the value that is measured.
pub held_lem :
    (n v : ℕ) (u : Uib)
    → same_button u.button_pressed (button_of v) ≡ false
    → ((held n v u).button_changed ≡ pulse n) × ((held n v u).button_pressed ≡ button_of v)
held_lem n v u h = let r = held-Held n v u h in (r.changed, r.pressed)
