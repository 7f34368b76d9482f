-- ===== src/Usi/Known.antt =====
-- A known PIN is entered at the buttons.
use memtype.Base.{
  ℕ, zero, suc, ◌+◌, ◌-◌, ◌%◌, ◌≤◌, ◌<◌, ◌≡◌, ◌∙◌, refl, sym, ap, ap₂, subst, fun_ext, add16, from,
  ltb, false, inl, inr, Bool-cases, length, ◌==◌, Bytes, List, [], ◌∷◌, Outcome, done, ◌>>=◌, arith,
}
use memtype.State.{Device, Button, left, up, right, UcpState, MenuState, on_printer}
use memtype.Board.{Board}
use memtype.Print.{print_delete_str}
use memtype.Uif.{uif_increment}
use memtype.Usi.Check.{pin_hash}
use memtype.Usi.Entry.{IsRightPin, LastDigit, usi_fsm-right_pin}
use memtype.Usi.Fsm.{usi_fsm, usi_init, usi_next, next_digit, usi_print}
use memtype.Usi.Pin.{is_erase_pin, spread_pin}

-- The upper button `n` times, and then others.
abbrev ups : ℕ → List Button → List Button
ups zero bs = bs
ups (suc n) bs = up ∷ ups n bs

length-ups : (n : ℕ) (bs : List Button) → length (ups n bs) ≡ n + length bs
length-ups zero bs = omega arith
length-ups (suc n) bs = omega (arith, length-ups n bs)

-- From one key to another, upwards in the round of ten.
abbrev turns : ℕ → ℕ → ℕ
turns x y = (y + 10 - x) % 10

module _ (b : Board) where
  -- Buttons at the entry of the PIN.
  unfoldable pub presses : List Button → Device → Outcome Device Device
  presses [] d = done d
  presses (x ∷ xs) d = usi_fsm b x d >>= λ d1. presses xs d1

  -- The digit of a key.
  abbrev pub digit : Device → ℕ → ℕ
  digit d x = d.flash (add16 b.usi_keys x)

  -- Digit `i` is shown at key `x`, and those before are entered.
  record Entering (pin : Bytes) (d0 : Device) (i x : ℕ) (d : Device) : Type 0 where
    index : d.usi.user_text_index ≡ i
    key : d.uif.user_input_index ≡ x
    shown : d.usi.user_pin i ≡ digit d0 x
    before : (j : ℕ) → j < i → d.usi.user_pin j ≡ pin j
    eeprom_kept : d.eeprom ≡ d0.eeprom
    flash_kept : d.flash ≡ d0.flash
    crd_kept : d.crd ≡ d0.crd

  init_lem :
      (pin : Bytes) (d : Device) → Entering pin d 0 0 (usi_init b (on_printer print_delete_str d))
  unfolding usi_init usi_print
  init_lem pin d = record {
    index = refl;
    key = refl;
    shown = ground arith;
    before = λ j h. absurd (omega (arith, h));
    eeprom_kept = refl;
    flash_kept = refl;
    crd_kept = refl;
  }

  up_lem :
      (pin : Bytes) (d0 : Device) (i x : ℕ) (d : Device)
      → x < 10
      → Entering pin d0 i x d
      → Entering pin d0 i ((x + 1) % 10) (usi_next b (on_printer print_delete_str d))
  unfolding usi_next usi_print uif_increment
  up_lem pin d0 i x d small v =
      let turned : (d.uif.user_input_index + 1) % 10 % 256 ≡ (x + 1) % 10 = omega (arith, v.key) in
      let here : digit d (uif_increment d.uif.user_input_index 10) ≡ digit d0 ((x + 1) % 10) =
        ap₂ (λ f y. f (add16 b.usi_keys y)) v.flash_kept turned in
      record {
        index = v.index;
        key = turned;
        shown = ground (arith, v.index, here);
        before = λ j h. ground (arith, v.index, v.before j h);
        eeprom_kept = v.eeprom_kept;
        flash_kept = v.flash_kept;
        crd_kept = v.crd_kept;
      }

  right_lem :
      (pin : Bytes) (d0 : Device) (i x : ℕ) (d : Device)
      → i < 3
      → digit d0 x ≡ pin i
      → Entering pin d0 i x d
      → Entering pin d0 (i + 1) x (next_digit b (on_printer print_delete_str d))
  unfolding next_digit usi_print
  right_lem pin d0 i x d lt e v =
      let here : digit d d.uif.user_input_index ≡ digit d0 x =
        ap₂ (λ f y. f (add16 b.usi_keys y)) v.flash_kept v.key in
      record {
        index = omega (arith, v.index);
        key = v.key;
        shown = ground (arith, v.index, here);
        before = λ j h. elim (Bool-cases (ltb j i)) [
          | inl less ↦ ground (arith, v.index, v.before j (ground (arith, less)))
          | inr same ↦
              let last : i ≡ j = ground (arith, same) in
              let entered : d.usi.user_pin j ≡ pin j =
                subst (λ k. d.usi.user_pin k ≡ pin k) last (v.shown ∙ e) in
              ground (arith, v.index, last, entered)
        ];
        eeprom_kept = v.eeprom_kept;
        flash_kept = v.flash_kept;
        crd_kept = v.crd_kept;
      }

  -- The presses that turn to a key, and then the others.
  ups_lem :
      (n : ℕ) (pin : Bytes) (d0 : Device) (i x : ℕ) (d : Device)
      → x < 10
      → Entering pin d0 i x d
      → (d' : Device) × ((bs : List Button) → presses (ups n bs) d ≡ presses bs d')
        × Entering pin d0 i ((x + n) % 10) d'
  unfolding presses usi_fsm
  ups_lem zero pin d0 i x d small v =
      (d, (λ bs. refl), subst (λ y. Entering pin d0 i y d) (omega arith) v)
  ups_lem (suc n) pin d0 i x d small v =
      let (d', same, v') =
        ups_lem n pin d0 i ((x + 1) % 10) (usi_next b (on_printer print_delete_str d)) (omega arith)
          (up_lem pin d0 i x d small v) in
      (d', same, subst (λ y. Entering pin d0 i y d') (omega arith) v')

  -- The keys of the digits of a PIN.
  pub record HasKeys (pin : Bytes) (x : ℕ → ℕ) (d : Device) : Type 0 where
    pub keys : (i : ℕ) → i < 4 → x i < 10
    pub digits : (i : ℕ) → i < 4 → digit d (x i) ≡ pin i

  -- Digit `i` is turned to, from key `y` on, and the next one follows.
  digit_lem :
      (pin : Bytes) (x : ℕ → ℕ) (d0 : Device) (i y : ℕ) (d : Device)
      → i < 3
      → y < 10
      → HasKeys pin x d0
      → Entering pin d0 i y d
      → (d' : Device) × ((bs : List Button)
          → presses (ups (turns y (x i)) (right ∷ bs)) d ≡ presses bs d')
        × Entering pin d0 (i + 1) (x i) d'
  unfolding presses usi_fsm
  digit_lem pin x d0 i y d lt small h v =
      let n = turns y (x i) in
      let key_small = h.keys i (omega (arith, lt)) in
      let (d1, same, v1) = ups_lem n pin d0 i y d small v in
      let there : (y + n) % 10 ≡ x i = omega (arith, small, key_small) in
      let v2 : Entering pin d0 i (x i) d1 = subst (λ z. Entering pin d0 i z d1) there v1 in
      let d' = next_digit b (on_printer print_delete_str d1) in
      let more : (d1.usi.user_text_index == 3) ≡ false = ground (arith, v2.index, lt) in
      let step : (bs : List Button) → presses (right ∷ bs) d1 ≡ presses bs d' =
        λ bs. rw more refl in
      (
        d',
        (λ bs. same (right ∷ bs) ∙ step bs),
        right_lem pin d0 i (x i) d1 lt (h.digits i (omega (arith, lt))) v2,
      )

  spread_pin-same :
      (p q old : Bytes) → ((j : ℕ) → j < 4 → p j ≡ q j) → spread_pin p old ≡ spread_pin q old
  unfolding spread_pin
  spread_pin-same p q old same =
      fun_ext (λ i. let e = same (i % 4) (omega arith) in ground (arith, e))

  -- The last digit is shown, and all four are those of the PIN.
  entered_lem :
      (pin : Bytes) (d0 d : Device) (x : ℕ)
      → digit d0 x ≡ pin 3
      → Entering pin d0 3 x d
      → (j : ℕ) → j < 4
      → d.usi.user_pin j ≡ pin j
  entered_lem pin d0 d x e v j h = elim (Bool-cases (ltb j 3)) [
    | inl less ↦ v.before j (ground (arith, less))
    | inr last ↦
        let is_last : 3 ≡ j = ground (arith, last) in
        subst (λ k. d.usi.user_pin k ≡ pin k) is_last (v.shown ∙ e)
  ]

  entered-LastDigit :
      (pin : Bytes) (d0 d : Device) (x : ℕ)
      → digit d0 x ≡ pin 3
      → Entering pin d0 3 x d
      → is_erase_pin pin ≡ false
      → LastDigit d
  entered-LastDigit pin d0 d x e v plain =
      let same = entered_lem pin d0 d x e v in
      record {
        index = v.index;
        plain_pin = ground (
          arith,
          plain,
          same 0 (omega arith),
          same 1 (omega arith),
          same 2 (omega arith),
          same 3 (omega arith),
        );
      }

  entered-IsRightPin :
      (pin : Bytes) (d0 d : Device) (x : ℕ)
      → digit d0 x ≡ pin 3
      → Entering pin d0 3 x d
      → ((k : ℕ) → k < 16 → from d0.eeprom b.lock_hash k ≡ pin_hash b pin d0 k)
      → IsRightPin b d
  entered-IsRightPin pin d0 d x e v right_hash k h =
      let same = entered_lem pin d0 d x e v in
      let hash : pin_hash b pin d0 ≡ pin_hash b d.usi.user_pin d =
        ap₂ b.noekeon_encrypt
          (sym (
            spread_pin-same d.usi.user_pin pin d.crd.cipher.key same
            ∙ ap (λ c. spread_pin pin c.cipher.key) v.crd_kept))
          (sym (
            spread_pin-same d.usi.user_pin pin d.crd.cipher.plain same
            ∙ ap (λ c. spread_pin pin c.cipher.plain) v.crd_kept)) in
      ap (λ m. from m b.lock_hash k) v.eeprom_kept ∙ right_hash k h ∙ ap (λ f. f k) hash

  -- Who knows the PIN gets in: from any state of its entry, there are at most 41 presses of buttons
  -- that enter a PIN whose digits are on the keys, and if its hash is the one in EEPROM and it is not
  -- the erasing one, then the protocol is unlocked, the menu is that of the credentials, and the key of
  -- the cipher is the PIN; both memories stay as they are.
  pub known_pin-unlocks :
      (pin : Bytes) (x : ℕ → ℕ) (d : Device)
      → HasKeys pin x d
      → is_erase_pin pin ≡ false
      → ((k : ℕ) → k < 16 → from d.eeprom b.lock_hash k ≡ pin_hash b pin d k)
      → (bs : List Button) × (d' : Device) × (presses bs d ≡ done d')
        × (length bs ≤ 41)
        × (d'.ucp.ucp_state ≡ UcpState.idle)
        × (d'.uif.uif_state ≡ MenuState.credentials)
        × (d'.crd.cipher.key ≡ spread_pin pin d.crd.cipher.key)
        × (d'.eeprom ≡ d.eeprom)
        × (d'.flash ≡ d.flash)
  unfolding presses usi_fsm
  known_pin-unlocks pin x d h plain right_hash =
      let (d1, e1, v1) =
        digit_lem pin x d 0 0 (usi_init b (on_printer print_delete_str d)) (omega arith)
          (omega arith) h (init_lem pin d) in
      let (d2, e2, v2) = digit_lem pin x d 1 (x 0) d1 (omega arith) (h.keys 0 (omega arith)) h v1 in
      let (d3, e3, v3) = digit_lem pin x d 2 (x 1) d2 (omega arith) (h.keys 1 (omega arith)) h v2 in
      let n = turns (x 2) (x 3) in
      let (d4, e4, v4) = ups_lem n pin d 3 (x 2) d3 (h.keys 2 (omega arith)) v3 in
      let v : Entering pin d 3 (x 3) d4 =
        subst (λ y. Entering pin d 3 y d4) (omega (arith, h.keys 2, h.keys 3)) v4 in
      let last_key = h.digits 3 (omega arith) in
      let (d5, e5, idle, menu, _, key, ee, fl) =
        usi_fsm-right_pin b d4 (entered-LastDigit pin d d4 (x 3) last_key v plain)
          (entered-IsRightPin pin d d4 (x 3) last_key v right_hash) in
      let b3 = ups n (right ∷ []) in
      let b2 = ups (turns (x 1) (x 2)) (right ∷ b3) in
      let b1 = ups (turns (x 0) (x 1)) (right ∷ b2) in
      (
        left ∷ ups (turns 0 (x 0)) (right ∷ b1),
        d5,
        e1 b1 ∙ e2 b2 ∙ e3 b3 ∙ e4 (right ∷ []) ∙ ap (λ m. m >>= λ y. done y) e5,
        omega (
          arith,
          length-ups (turns 0 (x 0)) (right ∷ b1),
          length-ups (turns (x 0) (x 1)) (right ∷ b2),
          length-ups (turns (x 1) (x 2)) (right ∷ b3),
          length-ups n (right ∷ []),
        ),
        idle,
        menu,
        key
            ∙ spread_pin-same d4.usi.user_pin pin d4.crd.cipher.key
                (entered_lem pin d d4 (x 3) last_key v)
            ∙ ap (λ c. spread_pin pin c.cipher.key) v.crd_kept,
        ee ∙ v.eeprom_kept,
        fl ∙ v.flash_kept,
      )
