-- ===== src/Print/Pressed.antt =====
-- The keys that go down in a sequence of keyboard reports.
use memtype.Base.{
  ℕ, ◌≡◌, ◌∙◌, refl, ap, ◌==◌, if◌then◌else◌, true, inl, inr, Bool-cases, Bytes, List, [], ◌∷◌,
  ◌++◌, add16, arith,
}
use memtype.State.{KeyboardReport}
use memtype.Board.{Board}
use memtype.Print.{keycode_of}
use memtype.Print.Counted.{keys}
use memtype.Print.Strokes.{key_down}
use memtype.Crd.Pieces.{visible}

-- The reports in which a key is down.
abbrev pub pressed : List KeyboardReport → List KeyboardReport
pressed [] = []
pressed (r ∷ rs) = let rest = pressed rs in if r.keycode == 0 then rest else r ∷ rest

pub pressed-++ : (rs ss : List KeyboardReport) → pressed (rs ++ ss) ≡ pressed rs ++ pressed ss
pressed-++ [] ss = refl
pressed-++ (r ∷ rs) ss = elim (Bool-cases (r.keycode == 0)) [
  | inl up ↦ rw up (pressed-++ rs ss)
  | inr down ↦ rw down (ap (λ l. r ∷ l) (pressed-++ rs ss))
]

-- A key-up at the end adds nothing.
pub pressed-snoc :
    (rs : List KeyboardReport) (r : KeyboardReport)
    → r.keycode ≡ 0
    → pressed (rs ++ (r ∷ [])) ≡ pressed rs
pressed-snoc [] r e = ground (arith, e)
pressed-snoc (x ∷ rs) r e = ap (λ l. if x.keycode == 0 then l else x ∷ l) (pressed-snoc rs r e)

module _ (b : Board) where
  -- The keys of some characters, down.
  abbrev pub downs : Bytes → ℕ → List ℕ → List KeyboardReport
  downs eeprom id [] = []
  downs eeprom id (c ∷ cs) = key_down b eeprom id c ∷ downs eeprom id cs

  pub downs-++ :
      (eeprom : Bytes) (id : ℕ) (cs ds : List ℕ)
      → downs eeprom id (cs ++ ds) ≡ downs eeprom id cs ++ downs eeprom id ds
  downs-++ eeprom id [] ds = refl
  downs-++ eeprom id (c ∷ cs) ds = ap (λ l. key_down b eeprom id c ∷ l) (downs-++ eeprom id cs ds)

  -- In the layout a NUL has no key.
  abbrev pub NulSilent : Bytes → Type 0
  NulSilent eeprom = keycode_of (eeprom (add16 b.keyboard_lut 0)) ≡ 0

  pub pressed-keys :
      (eeprom : Bytes) (id : ℕ) (cs : List ℕ)
      → NulSilent eeprom
      → pressed (keys b eeprom id cs) ≡ pressed (downs eeprom id (visible cs))
  pressed-keys eeprom id [] h = refl
  pressed-keys eeprom id (c ∷ cs) h =
      let rest = pressed-keys eeprom id cs h in
      elim (Bool-cases (c == 0)) [
        | inl nul ↦
            let z : c ≡ 0 = ground (arith, nul) in
            let silent : keycode_of (eeprom (add16 b.keyboard_lut c)) ≡ 0 =
              ap (λ x. keycode_of (eeprom (add16 b.keyboard_lut x))) z ∙ h in
            let off : (keycode_of (eeprom (add16 b.keyboard_lut c)) == 0) ≡ true =
              ground (arith, silent) in
            rw (off, nul) rest
        | inr seen ↦ rw seen (
            ap
              (λ l.
                if keycode_of (eeprom (add16 b.keyboard_lut c)) == 0
                then l
                else key_down b eeprom id c ∷ l)
              rest)
      ]
