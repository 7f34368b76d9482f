-- ===== src/Fls.antt =====
-- fls.c: writing bytes into the flash, page by page.
pub mod Page
pub mod Write
use memtype.Base.{
  ℕ, zero, suc, ◌+◌, ◌-◌, ◌*◌, ◌%◌, Option, none, some, true, false, ltb, if◌then◌else◌, Bytes,
  update, blit, from, add8, add16,
}
use memtype.Board.{Spm, spm_pagesize}

-- for (j = ...; j < ...; j++) tempBuff[j] = *buff++, for `n` rounds, `buff` at its `k`-th byte.
copy_bytes : ℕ → Bytes → ℕ → ℕ → Bytes → Bytes
copy_bytes zero buff k j temp = temp
copy_bytes (suc n) buff k j temp = copy_bytes n buff (k + 1) (j + 1) (update temp j (buff k))

-- The end of the part of the page that starts at `start`: uint8_t arithmetic, then the page's end.
unfoldable pub erase_buff_end : ℕ → ℕ → ℕ
erase_buff_end start pending =
    let e = add8 start pending in if ltb spm_pagesize e then spm_pagesize else e

module _ (s : Spm) where
  open s use {page_erase, page_fill, page_write}

  -- fls_loadPage, from round i / 2 on: fills the page buffer with the words of `buff`.
  load_page : ℕ → ℕ → Bytes → ℕ → Bytes → Bytes
  load_page zero i buff a page = page
  load_page (suc n) i buff a page =
      load_page n (i + 2) buff a (page_fill (add16 a i) (add16 (buff i) (buff (i + 1) * 256)) page)

  -- The page at `aligned`, read, erased, changed between `start` and `end`, and written back; `buff`
  -- is at its `k`-th byte.
  pub program_page : Bytes → Bytes → ℕ → ℕ → ℕ → ℕ → Bytes
  unfolding load_page copy_bytes
  program_page f buff aligned start end k =
      let temp = blit (λ _. 0) 0 spm_pagesize (from f aligned) in
      let temp' = copy_bytes (end - start) buff k start temp in
      page_write aligned (load_page 32 0 temp' aligned (λ _. 255)) (page_erase aligned f)

  -- One round of the loop of FLS_write on the flash, at byte `i`, with `k` bytes of `buff` consumed.
  pub write_page : Bytes → Bytes → ℕ → ℕ → ℕ → ℕ → Bytes
  unfolding program_page erase_buff_end
  write_page f buff startaddr size i k =
      let a = add16 startaddr i in
      let start = a % 64 in
      program_page f buff (a - start) start (erase_buff_end start ((size - i) % 256)) k

  -- The loop of FLS_write; `none` is a loop that is still running. `i` moves by a difference of
  -- two bytes, which wraps if the first is the smaller.
  pub write_loop : ℕ → Bytes → Bytes → ℕ → ℕ → ℕ → ℕ → Option Bytes
  unfolding write_page
  write_loop zero f buff startaddr size i k = none
  write_loop (suc fuel) f buff startaddr size i k = elim (ltb i size) [
    | true ↦
        let start = add16 startaddr i % 64 in
        let end = erase_buff_end start ((size - i) % 256) in
        write_loop fuel (write_page f buff startaddr size i k) buff startaddr size
          ((i + 65536 + end - start) % 65536) (k + (end - start))
    | false ↦ some f
  ]

  -- FLS_write(buff, startaddr, size), with a round for each byte.
  unfoldable pub fls_write : Bytes → Bytes → ℕ → ℕ → Option Bytes
  unfolding write_loop
  fls_write f buff startaddr size = write_loop (suc size) f buff startaddr size 0 0
