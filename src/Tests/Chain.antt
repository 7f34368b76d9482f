-- ===== src/Tests/Chain.antt =====
-- Two credentials, whose links make a circle.
use memtype.Base.{ℕ, ◌%◌, ◌≡◌, refl, ◌==◌, if◌then◌else◌, Bytes, done, ◌>>=◌, arith}
use memtype.State.{Device, on_crd}
use memtype.Crd.Menu.{crd_next, crd_previous}
use memtype.Crd.Chain.{Chain, At, crd_next-crd_previous}
use memtype.Tests.Fixture.{test_board, fresh}

-- "a" with the link 8, and at 8 "b" with the link 0.
abbrev names : Bytes
names j = if j == 1024 then b'a' else if j == 1026 then 8 else if j == 1032 then b'b' else 0

abbrev link : ℕ → ℕ
link k = if k % 2 == 0 then 0 else 8

abbrev length_of : ℕ → ℕ
length_of x = 1

names-Chain : Chain test_board names 2 link length_of
names-Chain = record {
  base = omega arith;
  members = omega arith;
  few = omega arith;
  first = refl;
  circle = λ k. ground arith;
  different = λ i j lo hi e. ground (arith, lo, hi, e);
  links = λ k. ground arith;
  names = λ k. record {
    inside = ground arith;
    nul = ground arith;
    characters = λ i h z. ground (arith, h, z);
  };
  nexts = λ k. ground arith;
}

-- The second is chosen.
abbrev second : Device
second =
    on_crd (λ c. record c { credential = record { name = 1032; next = 0; encrypt = 1036 } })
      (record fresh { flash = names })

second-At : At test_board names 2 link length_of 1 second
second-At = record { flash_is = refl; chosen = refl }

crd_next-crd_previous_example :
    ((d' : Device) × ((crd_next test_board second >>= λ x. crd_previous test_board x) ≡ done d')
      × (d'.crd.credential ≡ second.crd.credential))
    × ((d' : Device) × ((crd_previous test_board second >>= λ x. crd_next test_board x) ≡ done d')
        × (d'.crd.credential ≡ second.crd.credential))
crd_next-crd_previous_example =
    crd_next-crd_previous test_board names 2 link length_of 1 second names-Chain second-At
