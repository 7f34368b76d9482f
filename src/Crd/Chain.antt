-- ===== src/Crd/Chain.antt =====
-- The circle of credentials, walked forwards and backwards.
use memtype.Base.{
  ℕ, zero, suc, ◌+◌, ◌-◌, ◌%◌, ◌≤◌, ◌<◌, ◌≡◌, ◌≢◌, ◌∙◌, refl, sym, ap, ap₂, Bytes, word_at, from,
  add16, Outcome, done, ◌>>=◌, arith,
}
use memtype.State.{Device, Credential}
use memtype.Board.{Board}
use memtype.Print.{print_str_flash}
use memtype.Crd.Load.{crd_load_credential}
use memtype.Crd.Eos.{Text, loaded, crd_load_credential-Text}
use memtype.Crd.Menu.{crd_next, crd_previous, previous_loop, crd_print, list_fuel}

-- `n` credentials in flash, `c k` the link to the k-th round and round, `len` the length of the name by
-- the link.
pub record Chain (b : Board) (f : Bytes) (n : ℕ) (c len : ℕ → ℕ) : Type 0 where
  pub base : b.credentials < 65536
  pub members : 0 < n
  pub few : n ≤ 65536
  pub first : c 0 ≡ 0
  pub circle : (k : ℕ) → c (k + n) ≡ c k
  pub different : (i j : ℕ) → i < j → j < i + n → c i ≢ c j
  pub links : (k : ℕ) → c k < 65536
  pub names : (k : ℕ) → Text f (add16 (c k) b.credentials) (len (c k))
  pub nexts :
      (k : ℕ) → word_at (from f (add16 (add16 (c k) b.credentials) (len (c k) + 1))) 0 ≡ c (k + 1)

module _ (b : Board) (f : Bytes) (n : ℕ) (c len : ℕ → ℕ) where
  -- The working credential for a link, with the link that follows.
  abbrev pub member : ℕ → ℕ → Credential
  member x next =
      let off = add16 x b.credentials in
      record { name = off; next = next; encrypt = add16 (add16 off (len x + 1)) 2 }

  -- The k-th credential is chosen.
  pub record At (k : ℕ) (d : Device) : Type 0 where
    pub flash_is : d.flash ≡ f
    pub chosen : d.crd.credential ≡ member (c k) (c (k + 1))

  -- Whatever was chosen before, the k-th credential is loaded.
  load :
      (k : ℕ) (d : Device)
      → Chain b f n c len
      → d.flash ≡ f
      → (d' : Device) × (crd_load_credential b (c k) d ≡ done d')
        × At k d'
        × (d'.printer ≡ d.printer)
  load k d v e =
      let off = add16 (c k) b.credentials in
      (
        loaded off (len (c k)) d,
        crd_load_credential-Text b (c k) (len (c k)) d (rw e (v.names k)),
        record { flash_is = e; chosen = rw (e, v.nexts k) refl },
        refl,
      )

  -- The name that is shown for the k-th credential.
  abbrev pub Shown : ℕ → Device → Device → Type 0
  Shown k d d' = d'.printer ≡ print_str_flash (add16 (c k) b.credentials) d.printer

  Shown-At :
      (k : ℕ) (d d' : Device)
      → At k d'
      → d'.printer ≡ d.printer
      → At k (crd_print d') × Shown k d (crd_print d')
  Shown-At k d d' at same = (
    record { flash_is = at.flash_is; chosen = at.chosen },
    ap₂ (λ (x : Credential) p. print_str_flash x.name p) at.chosen same,
  )

  pub crd_next-Chain :
      (k : ℕ) (d : Device)
      → Chain b f n c len
      → At k d
      → (d' : Device) × (crd_next b d ≡ done d') × At (k + 1) d' × Shown (k + 1) d d'
  unfolding crd_next
  crd_next-Chain k d v at =
      let (d1, e, at1, same) = load (k + 1) d v at.flash_is in
      let next : d.crd.credential.next ≡ c (k + 1) = ap (λ (x : Credential). x.next) at.chosen in
      let (at2, sh) = Shown-At (k + 1) d d1 at1 same in
      (
        crd_print d1,
        ap (λ x. crd_load_credential b x d >>= λ x1. done (crd_print x1)) next
            ∙ ap (λ o. o >>= λ x1. done (crd_print x1)) e,
        at2,
        sh,
      )

  loop-end :
      (fuel current last : ℕ) (d : Device)
      → d.crd.credential.next ≡ current
      → previous_loop b (suc fuel) current last d ≡ done (last, d)
  unfolding previous_loop
  loop-end fuel current last d e = ground (arith, e)

  loop-more :
      (fuel current last : ℕ) (d : Device)
      → d.crd.credential.next ≢ current
      → previous_loop b (suc fuel) current last d ≡ (
          crd_load_credential b d.crd.credential.next d >>= λ d1.
          previous_loop b fuel current d.crd.credential.next d1)
  unfolding previous_loop
  loop-more fuel current last d ne = ground (arith, ne)

  -- What the loop of crd_previous finds.
  abbrev Found : ℕ → Device → Outcome Device (ℕ × Device) → Type 0
  Found k d out =
      (j : ℕ) × (d' : Device) × (out ≡ done (c j, d'))
      × (j + 1 ≡ k + n)
      × (d'.flash ≡ f)
      × (d'.printer ≡ d.printer)

  previous_loop-Found :
      (m fuel k j last : ℕ) (d : Device)
      → Chain b f n c len
      → m < fuel
      → m < n
      → j + 1 + m ≡ k + n
      → (m ≡ 0 → last ≡ c j)
      → At j d
      → Found k d (previous_loop b fuel (c k) last d)
  unfolding previous_loop
  previous_loop-Found zero zero k j last d v lt ln e el at = absurd (omega (arith, lt))
  previous_loop-Found (suc m) zero k j last d v lt ln e el at = absurd (omega (arith, lt))
  previous_loop-Found zero (suc fuel) k j last d v lt ln e el at =
      let here : d.crd.credential.next ≡ c k =
        ap (λ (x : Credential). x.next) at.chosen
        ∙ ap c {x = j + 1} {y = k + n} (omega (arith, e))
        ∙ v.circle k in
      (
        j,
        d,
        loop-end fuel (c k) last d here ∙ ap (λ x. done (x, d)) (el refl),
        omega (arith, e),
        at.flash_is,
        refl,
      )
  previous_loop-Found (suc m) (suc fuel) k j last d v lt ln e el at =
      let next : d.crd.credential.next ≡ c (j + 1) = ap (λ (x : Credential). x.next) at.chosen in
      let (d1, ld, at1, same) = load (j + 1) d v at.flash_is in
      let (j', d', out, ej, fl, pr) =
        previous_loop-Found m fuel k (j + 1) (c (j + 1)) d1 v (omega (arith, lt))
          (omega (arith, ln)) (omega (arith, e)) (λ z. refl) at1 in
      let further : d.crd.credential.next ≢ c k = λ z.
        v.different (j + 1) (k + n) (omega (arith, e)) (omega (arith, e, ln))
          (sym next ∙ z ∙ sym (v.circle k)) in
      let round : ℕ → Device → Outcome Device (ℕ × Device) =
        λ x d2. previous_loop b fuel (c k) x d2 in
      (
        j',
        d',
        loop-more fuel (c k) last d further
            ∙ ap (λ x. crd_load_credential b x d >>= round x) next
            ∙ ap (λ o. o >>= round (c (j + 1))) ld
            ∙ out,
        ej,
        fl,
        pr ∙ same,
      )

  -- A circle of one has the link 0.
  alone : (k : ℕ) → Chain b f n c len → n ≡ 1 → c k ≡ 0
  alone zero v one = v.first
  alone (suc k) v one =
      ap c {x = suc k} {y = k + n} (omega (arith, one)) ∙ v.circle k ∙ alone k v one

  pub crd_previous-Chain :
      (k : ℕ) (d : Device)
      → Chain b f n c len
      → At k d
      → (j : ℕ) × (d' : Device) × (crd_previous b d ≡ done d')
        × (j + 1 ≡ k + n)
        × At j d'
        × Shown j d d'
  unfolding crd_previous
  crd_previous-Chain k d v at =
      let name : d.crd.credential.name ≡ add16 (c k) b.credentials =
        ap (λ (x : Credential). x.name) at.chosen in
      let current : (d.crd.credential.name + 65536 - b.credentials) % 65536 ≡ c k =
        omega (arith, name, v.base, v.links k) in
      let (j, d1, out, e, fl, pr) =
        previous_loop-Found (n - 1) list_fuel k k 0 d v (omega (arith, v.few, v.members))
          (omega (arith, v.members)) (omega (arith, v.members))
          (λ z. sym (alone k v (omega (arith, z, v.members)))) at in
      let (d2, ld, at2, same) = load j d1 v fl in
      let (at3, sh) = Shown-At j d d2 at2 (same ∙ pr) in
      let rest : ℕ × Device → Outcome Device Device =
        λ r. crd_load_credential b r.0 r.1 >>= λ x. done (crd_print x) in
      (
        j,
        crd_print d2,
        ap (λ x. previous_loop b list_fuel x 0 d >>= rest) current
            ∙ ap (λ o. o >>= rest) out
            ∙ ap (λ o. o >>= λ x. done (crd_print x)) ld,
        e,
        at3,
        sh,
      )

  same-member :
      (i j : ℕ) (d d' : Device)
      → Chain b f n c len
      → j ≡ i + n
      → At i d
      → At j d'
      → d'.crd.credential ≡ d.crd.credential
  same-member i j d d' v e at at' =
      at'.chosen
      ∙ ap₂ member (ap c e ∙ v.circle i)
          (ap c {x = j + 1} {y = i + 1 + n} (omega (arith, e)) ∙ v.circle (i + 1))
      ∙ sym at.chosen

  -- In a circle of credentials, the buttons for the next and for the previous credential return, and
  -- each undoes the other: the same credential is chosen again, however many there are.
  pub crd_next-crd_previous :
      (k : ℕ) (d : Device)
      → Chain b f n c len
      → At k d
      → ((d' : Device) × ((crd_next b d >>= λ x. crd_previous b x) ≡ done d')
          × (d'.crd.credential ≡ d.crd.credential))
        × ((d' : Device) × ((crd_previous b d >>= λ x. crd_next b x) ≡ done d')
            × (d'.crd.credential ≡ d.crd.credential))
  crd_next-crd_previous k d v at =
      let (d1, e1, at1, _) = crd_next-Chain k d v at in
      let (j, d2, e2, ej, at2, _) = crd_previous-Chain (k + 1) d1 v at1 in
      let (j', d3, e3, ej', at3, _) = crd_previous-Chain k d v at in
      let (d4, e4, at4, _) = crd_next-Chain j' d3 v at3 in
      (
        (
          d2,
          ap (λ o. o >>= λ x. crd_previous b x) e1 ∙ e2,
          same-member k j d d2 v (omega (arith, ej)) at at2,
        ),
        (d4, ap (λ o. o >>= λ x. crd_next b x) e3 ∙ e4, same-member k (j' + 1) d d4 v ej' at at4),
      )
