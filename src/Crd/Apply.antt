-- ===== src/Crd/Apply.antt =====
-- CRD_apply and CRD_printDetail of crd.c: the pieces of the chosen credential, decrypted a block at a
-- time and handed to print.c.
use memtype.Base.{
  ℕ, zero, suc, ◌+◌, ◌-◌, ◌%◌, true, false, ◌&&◌, not, ◌==◌, ltb, leb, if◌then◌else◌, Bytes, from,
  blit, add8, add16,
}
use memtype.State.{Device, Crd, plain, empty_str, on_printer, on_crd}
use memtype.Board.{Board}
use memtype.Print.{print, print_n_str}

-- `credPosition_t`
abbrev pub crd_user : ℕ
crd_user = 0

abbrev pub crd_hop : ℕ
crd_hop = 1

abbrev pub crd_pass : ℕ
crd_pass = 2

abbrev pub crd_submit : ℕ
crd_submit = 3

abbrev pub crd_end : ℕ
crd_end = 4

-- The loop of crd_find, from `ptr[i]` on for `n` rounds.
unfoldable pub find_loop : ℕ → ℕ → Bytes → ℕ
find_loop zero i ptr = i
find_loop (suc n) i ptr = elim (ptr i == 0) [ true ↦ i | false ↦ find_loop n (i + 1) ptr ]

-- crd_find
unfoldable pub crd_find : Bytes → ℕ → ℕ
unfolding find_loop
crd_find ptr len = find_loop len 0 ptr

-- The ends of CRD_apply: what it prints, and how it moves on.
unfoldable pub apply_print : ℕ → ℕ → Device → Device
unfolding print
apply_print buffpos size d =
    if leb d.crd.crd_start d.crd.counter && not (size == 0)
    then on_printer (print_n_str (plain buffpos) size) d
    else on_printer (print_n_str (empty_str 0) 1) d

unfoldable pub apply_move : ℕ → ℕ → Crd → Crd
apply_move size pending c =
    let c1 =
      (if ltb size pending
        then record c { counter = add8 c.counter 1; position = add8 c.position 1 }
        else c) in
    record c1 { position = add8 c1.position size }

module _ (b : Board) where
  open b use {noekeon_decrypt}

  -- Step 1 of CRD_apply: the next block, if the plain buffer is used up.
  unfoldable pub decrypt_block : Device → Crd → Crd
  decrypt_block d c =
      let block = blit c.cipher.plain 0 16 (from d.flash (add16 c.credential.encrypt c.position)) in
      if c.position % 16 == 0
      then record c { cipher = record (c.cipher) { plain = noekeon_decrypt c.cipher.key block } }
      else c

  unfoldable pub crd_apply : Device → Device
  unfolding crd_find apply_print apply_move decrypt_block
  crd_apply d =
      if leb d.crd.crd_stop d.crd.counter
      then d
      else let buffpos = d.crd.position % 16 in
        let pending = 16 - buffpos in
        let d1 = on_crd (decrypt_block d) d in
        let size = crd_find (λ i. d1.crd.cipher.plain (buffpos + i)) pending in
        on_crd (apply_move size pending) (apply_print buffpos size d1)

  -- CRD_printDetail
  unfoldable pub crd_print_detail : ℕ → ℕ → Device → Device
  unfolding crd_apply
  crd_print_detail start stop d =
      crd_apply
        (on_crd (λ c. record c { position = 0; counter = 0; crd_start = start; crd_stop = stop }) d)
