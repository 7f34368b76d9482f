-- ===== src/Crd/Menu.antt =====
-- The menu of credentials in crd.c: the list walked forwards and backwards.
use memtype.Base.{ℕ, zero, suc, ◌+◌, ◌-◌, ◌%◌, true, false, ◌==◌, Outcome, done, hang, ◌>>=◌}
use memtype.State.{Device, on_printer}
use memtype.Board.{Board}
use memtype.Print.{print_str_flash}
use memtype.Crd.Load.{crd_load_credential}

-- crd_print
abbrev pub crd_print : Device → Device
crd_print d = on_printer (print_str_flash d.crd.credential.name) d

-- As many rounds as there are values of `credential.next`.
abbrev pub list_fuel : ℕ
list_fuel = 65536

module _ (b : Board) where
  -- crd_next
  unfoldable pub crd_next : Device → Outcome Device Device
  crd_next d = do d1 ← crd_load_credential b d.crd.credential.next d; done (crd_print d1)

  -- The loop of crd_previous, with `lastcred`.
  unfoldable pub previous_loop : ℕ → ℕ → ℕ → Device → Outcome Device (ℕ × Device)
  previous_loop zero current lastcred d = hang d
  previous_loop (suc fuel) current lastcred d = elim (d.crd.credential.next == current) [
    | true ↦ done (lastcred, d)
    | false ↦
        let n = d.crd.credential.next in
        crd_load_credential b n d >>= λ d1. previous_loop fuel current n d1
  ]

  -- crd_previous
  unfoldable pub crd_previous : Device → Outcome Device Device
  unfolding previous_loop
  crd_previous d = do
    let current = (d.crd.credential.name + 65536 - b.credentials) % 65536
    (lastcred, d1) ← previous_loop list_fuel current 0 d
    d2 ← crd_load_credential b lastcred d1
    done (crd_print d2)
