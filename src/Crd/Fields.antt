-- ===== src/Crd/Fields.antt =====
-- Which characters of a credential's text CRD_apply hands out: those of the chosen fields.
use memtype.Base.{
  sym, ℕ, zero, suc, ◌+◌, ◌≤◌, ◌<◌, ◌≡◌, ◌≢◌, ◌∙◌, refl, ap, ap₂, ◌==◌, leb, if◌then◌else◌, Bool,
  true, false, inl, inr, Bool-cases, Bytes, List, [], ◌∷◌, ◌++◌, arith,
}

joined :
    (w : Bool) (x : ℕ) (s k : List ℕ)
    → (if w then x ∷ ((if w then s else []) ++ k) else ((if w then s else []) ++ k))
      ≡ (if w then x ∷ s else []) ++ k
joined true x s k = refl
joined false x s k = refl

module _ (text : Bytes) (from_field to_field : ℕ) where
  -- The characters of the fields from `from_field` up to `to_field`, read one by one in the `r` bytes
  -- at `pos`, of which the first is in field `field`. A NUL ends a field.
  unfoldable pub chosen : ℕ → ℕ → ℕ → List ℕ
  chosen zero pos field = []
  chosen (suc r) pos field =
      let later = chosen r (pos + 1) field in
      let next = chosen r (pos + 1) (field + 1) in
      if leb to_field field
      then []
      else if text pos == 0
      then next
      else if leb from_field field
      then text pos ∷ later
      else later

  -- The NULs in the `r` bytes at `pos`.
  unfoldable pub nuls : ℕ → ℕ → ℕ
  nuls zero pos = 0
  nuls (suc r) pos = let rest = nuls r (pos + 1) in if text pos == 0 then suc rest else rest

  -- The `n` bytes at `pos`.
  abbrev pub slice : ℕ → ℕ → List ℕ
  slice pos zero = []
  slice pos (suc n) = text pos ∷ slice (pos + 1) n

  -- No NUL among `n` bytes at `pos`.
  abbrev pub Plain : ℕ → ℕ → Type 0
  Plain pos n = (i : ℕ) → i < n → text (pos + i) ≢ 0

  pub Plain-head : (pos n : ℕ) → Plain pos (suc n) → text pos ≢ 0
  Plain-head pos n p z = p 0 (omega arith) (ap text {x = pos + 0} {y = pos} (omega arith) ∙ z)

  pub Plain-tail : (pos n : ℕ) → Plain pos (suc n) → Plain (pos + 1) n
  Plain-tail pos n p i lt z =
      p (i + 1) (omega (arith, lt))
        (ap text {x = pos + (i + 1)} {y = pos + 1 + i} (omega arith) ∙ z)

  -- What a piece of `n` bytes in field `field` adds.
  abbrev pub piece : ℕ → ℕ → ℕ → List ℕ
  piece pos field n = if leb from_field field then slice pos n else []

  chosen-char :
      (r pos field : ℕ)
      → field < to_field
      → text pos ≢ 0
      → chosen (suc r) pos field ≡ (
          if leb from_field field
          then text pos ∷ chosen r (pos + 1) field
          else chosen r (pos + 1) field)
  unfolding chosen
  chosen-char r pos field lt nz = ground (arith, lt, nz)

  pub chosen-Plain :
      (n r pos field : ℕ)
      → field < to_field
      → Plain pos n
      → chosen (n + r) pos field ≡ piece pos field n ++ chosen r (pos + n) field
  chosen-Plain zero r pos field lt p =
      let er : 0 + r ≡ r = omega arith in
      let ep : pos ≡ pos + 0 = omega arith in
      let same = ap₂ (λ x y. chosen x y field) er ep in
      elim (Bool-cases (leb from_field field)) [
        | inl wanted ↦ rw wanted same
        | inr other ↦ rw other same
      ]
  chosen-Plain (suc n) r pos field lt p =
      let er : suc n + r ≡ suc (n + r) = omega arith in
      let ep : pos + 1 + n ≡ pos + suc n = omega arith in
      let rest =
        chosen-Plain n r (pos + 1) field lt (Plain-tail pos n p)
        ∙ ap (λ x. piece (pos + 1) field n ++ chosen r x field) ep in
      let first =
        ap (λ x. chosen x pos field) er ∙ chosen-char (n + r) pos field lt (Plain-head pos n p) in
      first
      ∙ ap (λ l. if leb from_field field then text pos ∷ l else l) rest
      ∙ joined (leb from_field field) (text pos) (slice (pos + 1) n) (chosen r (pos + suc n) field)

  chosen-nul :
      (r pos field : ℕ)
      → field < to_field
      → text pos ≡ 0
      → chosen (suc r) pos field ≡ chosen r (pos + 1) (field + 1)
  unfolding chosen
  chosen-nul r pos field lt z = ground (arith, lt, z)

  pub chosen-over : (r pos field : ℕ) → to_field ≤ field → chosen r pos field ≡ []
  unfolding chosen
  chosen-over zero pos field le = refl
  chosen-over (suc r) pos field le = ground (arith, le)

  pub nuls-Plain : (n r pos : ℕ) → Plain pos n → nuls (n + r) pos ≡ nuls r (pos + n)
  unfolding nuls
  nuls-Plain zero r pos p =
      let er : 0 + r ≡ r = omega arith in let ep : pos ≡ pos + 0 = omega arith in ap₂ nuls er ep
  nuls-Plain (suc n) r pos p =
      let er : suc n + r ≡ suc (n + r) = omega arith in
      let ep : pos + 1 + n ≡ pos + suc n = omega arith in
      let head : nuls (suc (n + r)) pos ≡ nuls (n + r) (pos + 1) =
        ground (arith, Plain-head pos n p) in
      ap (λ x. nuls x pos) er
      ∙ head
      ∙ nuls-Plain n r (pos + 1) (Plain-tail pos n p)
      ∙ ap (nuls r) ep

  nuls-nul : (r pos : ℕ) → text pos ≡ 0 → nuls (suc r) pos ≡ suc (nuls r (pos + 1))
  unfolding nuls
  nuls-nul r pos z = ground (arith, z)

  pub nuls-few : (r n pos : ℕ) → r ≤ n → Plain pos n → nuls r pos ≡ 0
  unfolding nuls
  nuls-few zero n pos le p = refl
  nuls-few (suc r) zero pos le p = absurd (omega (arith, le))
  nuls-few (suc r) (suc n) pos le p =
      ground
        (arith, Plain-head pos n p, nuls-few r n (pos + 1) (omega (arith, le)) (Plain-tail pos n p))

  -- A piece of `n` bytes, the NUL that ends its field, and `r'` bytes behind.
  pub chosen-field :
      (n r' r pos field : ℕ)
      → n + suc r' ≡ r
      → field < to_field
      → Plain pos n
      → text (pos + n) ≡ 0
      → chosen r pos field ≡ piece pos field n ++ chosen r' (pos + n + 1) (field + 1)
  chosen-field n r' r pos field er lt p z =
      ap (λ x. chosen x pos field) (sym er)
      ∙ chosen-Plain n (suc r') pos field lt p
      ∙ ap (λ l. piece pos field n ++ l) (chosen-nul r' (pos + n) field lt z)

  pub nuls-field :
      (n r' r pos : ℕ)
      → n + suc r' ≡ r
      → Plain pos n
      → text (pos + n) ≡ 0
      → nuls r pos ≡ suc (nuls r' (pos + n + 1))
  nuls-field n r' r pos er p z =
      ap (λ x. nuls x pos) (sym er) ∙ nuls-Plain n (suc r') pos p ∙ nuls-nul r' (pos + n) z
