-- ===== src/Crd/Load.antt =====
-- crd_findEOS and crd_loadCredential of crd.c, and CRD_Init.
use memtype.Base.{
  ℕ, zero, suc, true, false, ◌==◌, Option, none, some, Bytes, word_at, from, add16, Outcome, done,
  ◌>>=◌, or_hang,
}
use memtype.State.{Device, on_crd}
use memtype.Board.{Board}

-- The loop of crd_findEOS; `none` is a loop that is still running.
unfoldable pub find_eos_loop : ℕ → Bytes → ℕ → Option ℕ
find_eos_loop zero flash off = none
find_eos_loop (suc fuel) flash off = elim (flash off == 0) [
  | true ↦ some (add16 off 1)
  | false ↦ find_eos_loop fuel flash (add16 off 1)
]

-- As many rounds as there are addresses.
abbrev pub eos_fuel : ℕ
eos_fuel = 65536

-- crd_findEOS
unfoldable pub crd_find_eos : Bytes → ℕ → Option ℕ
crd_find_eos = find_eos_loop eos_fuel

module _ (b : Board) where
  open b use {credentials}

  -- crd_loadCredential
  unfoldable pub crd_load_credential : ℕ → Device → Outcome Device Device
  crd_load_credential cred d = do
    let offset = add16 cred credentials
    let d1 = on_crd (λ c. record c { credential = record (c.credential) { name = offset } }) d
    off ← or_hang d1 (crd_find_eos d.flash offset)
    done (
        on_crd
          (λ c. record c {
            credential = record (c.credential) {
              next = word_at (from d.flash off) 0;
              encrypt = add16 off 2;
            };
          })
          d1)

  -- CRD_Init
  abbrev pub crd_init : Device → Outcome Device Device
  crd_init = crd_load_credential 0
