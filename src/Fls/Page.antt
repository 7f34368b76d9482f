-- ===== src/Fls/Page.antt =====
-- One round of FLS_write: what the page holds afterwards, and that no other page changes.
use memtype.Base.{
  ℕ, zero, suc, ◌+◌, ◌-◌, ◌*◌, ◌/◌, ◌%◌, ◌≤◌, ◌<◌, ◌≡◌, ◌∙◌, refl, Bytes, update, from, blit, add16,
  ltb, leb, ◌&&◌, if◌then◌else◌, arith, inl, inr, Bool-cases, false, leb→le, leb_false→lt, ap, sym,
  ==→eq, ==_false→ne, ◌==◌,
}
use memtype.Board.{Spm}
use memtype.Fls.{copy_bytes, load_page, program_page}

-- Every content is a byte.
abbrev pub IsBytes : Bytes → Type 0
IsBytes f = (j : ℕ) → f j < 256

copy_bytes-outside :
    (n : ℕ) (buff : Bytes) (k j : ℕ) (temp : Bytes) (t : ℕ)
    → t < j
    → copy_bytes n buff k j temp t ≡ temp t
unfolding copy_bytes
copy_bytes-outside zero buff k j temp t h = refl
copy_bytes-outside (suc n) buff k j temp t h =
    copy_bytes-outside n buff (k + 1) (j + 1) (update temp j (buff k)) t (omega arith)
    ∙ ground arith

-- The bytes that the copying loop leaves in `tempBuff`.
copy_bytes_lem :
    (n : ℕ) (buff : Bytes) (k j : ℕ) (temp : Bytes) (t : ℕ)
    → copy_bytes n buff k j temp t
      ≡ (if leb j t && ltb t (j + n) then buff (k + (t - j)) else temp t)
unfolding copy_bytes
copy_bytes_lem zero buff k j temp t = ground arith
copy_bytes_lem (suc n) buff k j temp t =
    ground (arith, copy_bytes_lem n buff (k + 1) (j + 1) (update temp j (buff k)) t)

copy_bytes-IsBytes :
    (n : ℕ) (buff : Bytes) (k j : ℕ) (temp : Bytes)
    → IsBytes buff
    → IsBytes temp
    → IsBytes (copy_bytes n buff k j temp)
unfolding copy_bytes
copy_bytes-IsBytes zero buff k j temp hb ht = ht
copy_bytes-IsBytes (suc n) buff k j temp hb ht =
    copy_bytes-IsBytes n buff (k + 1) (j + 1) (update temp j (buff k)) hb
      (λ i. ground (arith, hb k, ht i))

-- `tempBuff` after memcpy_P.
abbrev page_copy : Bytes → ℕ → Bytes
page_copy f aligned = blit (λ _. 0) 0 64 (from f aligned)

page_copy-IsBytes : (f : Bytes) (aligned : ℕ) → IsBytes f → IsBytes (page_copy f aligned)
page_copy-IsBytes f aligned hf t = ground (arith, hf (add16 aligned (t - 0)))

page_copy_lem :
    (f : Bytes) (aligned t j : ℕ)
    → aligned + 64 ≤ 65536
    → t < 64
    → j ≡ aligned + t
    → page_copy f aligned t ≡ f j
page_copy_lem f aligned t j hr ht e =
    ground (arith, ap f {x = add16 aligned (t - 0)} {y = j} (omega arith))

module _ (s : Spm) where
  open s use {page_erase, page_fill, page_write}

  load_page-below :
      (n i : ℕ) (buff : Bytes) (a : ℕ) (page : Bytes) (t : ℕ)
      → a % 64 ≡ 0
      → a + 64 ≤ 65536
      → i % 2 ≡ 0
      → i + 2 * n ≡ 64
      → t < i
      → load_page s n i buff a page t ≡ page t
  unfolding load_page
  load_page-below zero i buff a page t ha hb hi hn h = refl
  load_page-below (suc n) i buff a page t ha hb hi hn h =
      load_page-below n (i + 2) buff a _ t ha hb (omega arith) (omega arith) (omega arith)
      ∙ s.fill_other (add16 a i) _ page t (omega arith) (omega arith) (omega arith)

  load_page-from :
      (n i : ℕ) (buff : Bytes) (a : ℕ) (page : Bytes) (t : ℕ)
      → IsBytes buff
      → a % 64 ≡ 0
      → a + 64 ≤ 65536
      → i % 2 ≡ 0
      → i + 2 * n ≡ 64
      → i ≤ t
      → t < 64
      → load_page s n i buff a page t ≡ buff t
  unfolding load_page
  load_page-from zero i buff a page t hbuf ha hb hi hn h ht = absurd (omega arith)
  load_page-from (suc n) i buff a page t hbuf ha hb hi hn h ht = elim (Bool-cases (leb (i + 2) t)) [
    | inl later ↦
        load_page-from n (i + 2) buff a _ t hbuf ha hb (omega arith) (omega arith)
          (leb→le _ _ later) ht
    | inr now ↦
        load_page-below n (i + 2) buff a _ t ha hb (omega arith) (omega arith)
          (leb_false→lt _ _ now)
        ∙ filled now
  ]
    where
      filled :
          leb (i + 2) t ≡ false
          → page_fill (add16 a i) (add16 (buff i) (buff (i + 1) * 256)) page t ≡ buff t
      filled now = elim (Bool-cases (t == i)) [
        | inl e ↦
            s.fill_low (add16 a i) _ page t (omega arith) (omega (arith, ==→eq t i e))
            ∙ omega (arith, hbuf i, hbuf (i + 1))
            ∙ ap buff (sym (==→eq t i e))
        | inr e ↦
            s.fill_high (add16 a i) _ page t (omega arith)
              (omega (arith, leb_false→lt _ _ now, ==_false→ne t i e)) (omega arith)
            ∙ omega (arith, hbuf i, hbuf (i + 1))
            ∙ ap buff {x = i + 1} {y = t} (omega (arith, leb_false→lt _ _ now, ==_false→ne t i e))
      ]

  -- Programming a page changes the bytes from `start` to `end` of it, and nothing else.
  pub program_page_lem :
      (f buff : Bytes) (aligned start end k j : ℕ)
      → IsBytes f
      → IsBytes buff
      → aligned % 64 ≡ 0
      → aligned + 64 ≤ 65536
      → start ≤ end
      → end ≤ 64
      → program_page s f buff aligned start end k j ≡ (
          if leb (aligned + start) j && ltb j (aligned + end)
          then buff (k + (j - (aligned + start)))
          else f j)
  unfolding program_page
  program_page_lem f buff aligned start end k j hf hb ha hr hs he =
      let temp = copy_bytes (end - start) buff k start (page_copy f aligned) in
      elim (Bool-cases (j / 64 == aligned / 64)) [
        | inl here ↦
            s.write_page aligned _ _ j (==→eq _ _ here) (s.erase_page aligned f j (==→eq _ _ here))
            ∙ load_page-from 32 0 temp aligned _ (j % 64)
                (copy_bytes-IsBytes (end - start) buff k start _ hb
                  (page_copy-IsBytes f aligned hf))
                ha hr (omega arith) (omega arith) (omega arith) (omega arith)
            ∙ copy_bytes_lem (end - start) buff k start (page_copy f aligned) (j % 64)
            ∙ (let e : j / 64 ≡ aligned / 64 = ==→eq _ _ here in
                ground (
                  arith,
                  page_copy_lem f aligned (j % 64) j hr (omega arith) (omega arith),
                  ap buff {x = k + (j % 64 - start)} {y = k + (j - (aligned + start))}
                      (omega arith),
                ))
        | inr other ↦
            s.write_other aligned _ _ j (==_false→ne _ _ other)
            ∙ s.erase_other aligned f j (==_false→ne _ _ other)
            ∙ ground (arith, ==_false→ne _ _ other)
      ]
