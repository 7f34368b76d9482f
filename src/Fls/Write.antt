-- ===== src/Fls/Write.antt =====
-- FLS_write as a whole: it ends, and writes exactly the bytes that it is given.
use memtype.Base.{
  ℕ, zero, suc, ◌+◌, ◌-◌, ◌%◌, ◌≤◌, ◌<◌, ◌≡◌, ◌∙◌, refl, ap, Option, some, Bytes, update, add16,
  ◌==◌, ==→eq, ltb, leb, ◌&&◌, if◌then◌else◌, arith, inl, inr, Bool-cases, ltb→lt, lt→ltb,
  le→ltb_false, ltb_false→le,
}
use memtype.Board.{Spm}
use memtype.Fls.{erase_buff_end, write_page, write_loop, fls_write}
use memtype.Fls.Page.{IsBytes, program_page_lem}

-- The flash with the bytes of `buff` from address `a` on, `size` of them.
abbrev pub written : Bytes → Bytes → ℕ → ℕ → Bytes
written f buff a size j = if leb a j && ltb j (a + size) then buff (j - a) else f j

pub written-IsBytes :
    {f buff : Bytes} (a size : ℕ) → IsBytes f → IsBytes buff → IsBytes (written f buff a size)
written-IsBytes a size hf hb j = ground (arith, hf j, hb (j - a))

-- One byte more.
pub written-add_one :
    (f buff : Bytes) (a n j : ℕ)
    → written f buff a (n + 1) j ≡ (if j == a + n then buff n else written f buff a n j)
written-add_one f buff a n j = elim (Bool-cases (j == a + n)) [
  | inl e ↦ ground (arith, ap buff {x = j - a} {y = n} (omega (arith, ==→eq j (a + n) e)))
  | inr e ↦ ground arith
]

-- A byte past the end of what is written does not matter.
pub written-update_end :
    (f buff : Bytes) (a n x j : ℕ) → written f (update buff n x) a n j ≡ written f buff a n j
written-update_end f buff a n x j = ground arith

-- What a round writes, as a count of bytes.
abbrev chunk : ℕ → ℕ → ℕ
chunk start pending = erase_buff_end start pending - start

chunk_bounds :
    (start pending : ℕ)
    → start < 64
    → 0 < pending
    → pending ≤ 192
    → (start < erase_buff_end start pending)
      × (erase_buff_end start pending ≤ 64)
      × (erase_buff_end start pending ≤ start + pending)
unfolding erase_buff_end
chunk_bounds start pending hs hp hq = ground arith

shift :
    (buff : Bytes) (startaddr i j : ℕ)
    → startaddr + i ≤ j
    → buff (i + (j - (startaddr + i - (startaddr + i) % 64 + (startaddr + i) % 64)))
      ≡ buff (j - startaddr)
shift buff startaddr i j h =
    ap buff {x = i + (j - (startaddr + i - (startaddr + i) % 64 + (startaddr + i) % 64))}
      {y = j - startaddr} (omega arith)

module _ (s : Spm) {f buff : Bytes} (startaddr size : ℕ) (small : size ≤ 192)
    (fits : startaddr + size ≤ 65536) where
  -- One round, from byte `i` on.
  write_page_lem :
      (i : ℕ)
      → IsBytes f
      → IsBytes buff
      → i < size
      → (j : ℕ)
      → let start = (startaddr + i) % 64 in
        write_page s f buff startaddr size i i j ≡ (
          if leb (startaddr + i) j && ltb j (startaddr + i + chunk start (size - i))
          then buff (j - startaddr)
          else f j)
  unfolding write_page
  write_page_lem i hf hb hi j =
      let a : ℕ = startaddr + i in
      let ea : add16 startaddr i ≡ startaddr + i = omega arith in
      let ep : (size - i) % 256 ≡ size - i = omega arith in
      let (lo, hi', _) =
        chunk_bounds (a % 64) (size - i) (omega arith) (omega arith) (omega arith) in
      rw (ea, ep)
        (program_page_lem s f buff (a - a % 64) (a % 64) (erase_buff_end (a % 64) (size - i)) i j hf
            hb (omega arith) (omega arith) (omega arith) hi'
          ∙ ground (arith, shift buff startaddr i j))

-- FLS_write, from byte `i` on.
abbrev Done : Bytes → Bytes → ℕ → ℕ → ℕ → Option Bytes → Type 0
Done f buff startaddr size i r =
    (f' : Bytes) × (r ≡ some f')
    × IsBytes f'
    × ((j : ℕ)
        → f' j ≡ (
            if leb (startaddr + i) j && ltb j (startaddr + size)
            then buff (j - startaddr)
            else f j))

module _ (s : Spm) {buff : Bytes} (startaddr size : ℕ) (small : size ≤ 192)
    (fits : startaddr + size ≤ 65536) (hb : IsBytes buff) where
  -- A round of the loop moves on by a chunk.
  write_loop-more :
      (fuel : ℕ) (f : Bytes) (i : ℕ)
      → i < size
      → let i' = i + chunk ((startaddr + i) % 64) (size - i) in
        write_loop s (suc fuel) f buff startaddr size i i
        ≡ write_loop s fuel (write_page s f buff startaddr size i i) buff startaddr size i' i'
  unfolding write_loop
  write_loop-more fuel f i lt =
      let start : ℕ = (startaddr + i) % 64 in
      let end : ℕ = erase_buff_end start (size - i) in
      let ea : add16 startaddr i ≡ startaddr + i = omega arith in
      let ep : (size - i) % 256 ≡ size - i = omega arith in
      let (lo, hi', _) = chunk_bounds start (size - i) (omega arith) (omega arith) (omega arith) in
      let ei : (i + 65536 + end - start) % 65536 ≡ i + (end - start) = omega arith in
      rw (lt→ltb i size lt, write_loop) (rw (ea, ep, ei))

  write_loop-stop :
      (fuel : ℕ) (f : Bytes) (i : ℕ)
      → size ≤ i
      → write_loop s (suc fuel) f buff startaddr size i i ≡ some f
  unfolding write_loop
  write_loop-stop fuel f i h = rw (le→ltb_false i size h, write_loop)

  write_loop_lem :
      (fuel : ℕ) (f : Bytes) (i : ℕ)
      → IsBytes f
      → i ≤ size
      → size - i < fuel
      → Done f buff startaddr size i (write_loop s fuel f buff startaddr size i i)
  write_loop_lem zero f i hf hi hfuel = absurd (omega arith)
  write_loop_lem (suc fuel) f i hf hi hfuel = elim (Bool-cases (ltb i size)) [
    | inr stop ↦
        rw (write_loop-stop fuel f i (ltb_false→le _ _ stop)) (f, refl, hf, λ j. ground arith)
    | inl more ↦
        let lt : i < size = ltb→lt _ _ more in
        let (lo, hi', end_le) =
          chunk_bounds ((startaddr + i) % 64) (size - i) (omega arith) (omega arith)
            (omega arith) in
        let step = write_page_lem s startaddr size small fits i hf hb lt in
        let (f', e, hf', after) =
          write_loop_lem fuel (write_page s f buff startaddr size i i)
            (i + chunk ((startaddr + i) % 64) (size - i))
            (λ j. ground (arith, step j, hf j, hb (j - startaddr))) (omega arith) (omega arith) in
        rw (write_loop-more fuel f i lt) (f', e, hf', λ j. ground (arith, after j, step j))
  ]

  -- FLS_write ends, and leaves the flash with the `size` bytes of the buffer at `startaddr` and every
  -- other byte as it was: up to 192 bytes, inside the address space.
  pub fls_write_lem :
      (f : Bytes)
      → IsBytes f
      → (f' : Bytes) × (fls_write s f buff startaddr size ≡ some f')
        × IsBytes f'
        × ((j : ℕ) → f' j ≡ written f buff startaddr size j)
  unfolding fls_write
  fls_write_lem f hf =
      let (f', e, hf', after) = write_loop_lem (suc size) f 0 hf (omega arith) (omega arith) in
      (f', e, hf', λ j. ground (arith, after j))
