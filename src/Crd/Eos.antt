-- ===== src/Crd/Eos.antt =====
-- crd_findEOS finds the first NUL from an address on, and crd_loadCredential returns where there is
-- one.
use memtype.Base.{
  ℕ, zero, suc, ◌+◌, ◌<◌, ◌≡◌, ◌≢◌, ◌∙◌, ap, Bytes, from, word_at, add16, some, done, arith,
}
use memtype.State.{Device, on_crd}
use memtype.Board.{Board}
use memtype.Crd.Load.{find_eos_loop, crd_find_eos, crd_load_credential, eos_fuel}

-- The text from `off` on is `n` characters long.
pub record Text (f : Bytes) (off n : ℕ) : Type 0 where
  pub inside : off + n < 65536
  pub nul : f (off + n) ≡ 0
  pub characters : (i : ℕ) → i < n → f (off + i) ≢ 0

pub Text-head : (f : Bytes) (off n : ℕ) → Text f off (suc n) → f off ≢ 0
Text-head f off n v z =
    v.characters 0 (omega arith) (ap f {x = off + 0} {y = off} (omega arith) ∙ z)

pub Text-tail : (f : Bytes) (off n : ℕ) → Text f off (suc n) → Text f (off + 1) n
Text-tail f off n v = record {
  inside = omega (arith, v.inside);
  nul = ap f {x = off + 1 + n} {y = off + suc n} (omega arith) ∙ v.nul;
  characters = λ i hi z.
      v.characters (i + 1) (omega arith)
        (ap f {x = off + (i + 1)} {y = off + 1 + i} (omega arith) ∙ z);
}

find_eos_loop-stop :
    (fuel : ℕ) (f : Bytes) (off : ℕ)
    → f off ≡ 0
    → find_eos_loop (suc fuel) f off ≡ some (add16 off 1)
unfolding find_eos_loop
find_eos_loop-stop fuel f off h = ground arith

find_eos_loop-next :
    (fuel : ℕ) (f : Bytes) (off : ℕ)
    → f off ≢ 0
    → find_eos_loop (suc fuel) f off ≡ find_eos_loop fuel f (add16 off 1)
unfolding find_eos_loop
find_eos_loop-next fuel f off h = ground arith

find_eos_loop-Text :
    (fuel n : ℕ) (f : Bytes) (off : ℕ)
    → Text f off n
    → n < fuel
    → find_eos_loop fuel f off ≡ some (add16 off (n + 1))
find_eos_loop-Text zero n f off v h = absurd (omega arith)
find_eos_loop-Text (suc fuel) zero f off v h =
    find_eos_loop-stop fuel f off (ap f {x = off} {y = off + 0} (omega arith) ∙ v.nul)
find_eos_loop-Text (suc fuel) (suc n) f off v h =
    let e : add16 off 1 ≡ off + 1 = omega (arith, v.inside) in
    let e' : add16 (off + 1) (n + 1) ≡ add16 off (suc n + 1) = omega arith in
    find_eos_loop-next fuel f off (Text-head f off n v)
    ∙ rw e (find_eos_loop-Text fuel n f (off + 1) (Text-tail f off n v) (omega arith) ∙ ap some e')

-- crd_findEOS returns the address behind the text's NUL.
pub crd_find_eos-Text :
    (f : Bytes) (off n : ℕ) → Text f off n → crd_find_eos f off ≡ some (add16 off (n + 1))
unfolding crd_find_eos
crd_find_eos-Text f off n v = find_eos_loop-Text eos_fuel n f off v (omega (arith, v.inside))

-- The credential at flash address `off`, whose name is `n` characters long.
abbrev pub loaded : ℕ → ℕ → Device → Device
loaded off n d =
    on_crd
      (λ c. record c {
        credential = record {
          name = off;
          next = word_at (from d.flash (add16 off (n + 1))) 0;
          encrypt = add16 (add16 off (n + 1)) 2;
        };
      })
      d

-- crd_loadCredential returns where the name at the credential's address has an end: the credential
-- then is that name, the link behind its NUL, and the address behind the link.
pub crd_load_credential-Text :
    (b : Board) (cred n : ℕ) (d : Device)
    → Text d.flash (add16 cred b.credentials) n
    → crd_load_credential b cred d ≡ done (loaded (add16 cred b.credentials) n d)
unfolding crd_load_credential
crd_load_credential-Text b cred n d v =
    ground (arith, crd_find_eos-Text d.flash (add16 cred b.credentials) n v)
