-- ===== src/Crd/Pieces.antt =====
-- A call of CRD_apply, from the end of a piece of a credential to the next piece.
use memtype.Base.{
  ℕ, zero, suc, ◌+◌, ◌-◌, ◌*◌, ◌/◌, ◌%◌, ◌≤◌, ◌<◌, ◌≡◌, ◌≢◌, ◌∙◌, refl, ap, ap₂, subst, ◌==◌, leb,
  not, ◌&&◌, if◌then◌else◌, true, inl, inr, Bool-cases, ==_false→ne, add16, blit, from, Bytes, List,
  [], ◌∷◌, arith,
}
use memtype.State.{Device, Printer, Info, Ptr, plain, empty_str, ram, on_printer}
use memtype.Board.{Board}
use memtype.Print.{print, entry, act, is_empty}
use memtype.Print.Queue.{print-same, slot, print-first}
use memtype.Print.Update.{read_ram, next_ptr}
use memtype.Crd.Apply.{find_loop, crd_find, apply_print, decrypt_block}
use memtype.Crd.Fields.{slice, Plain, Plain-head, Plain-tail}

-- What crd_find finds.
pub record Found (ptr : Bytes) (len n : ℕ) : Type 0 where
  pub inside : n ≤ len
  pub characters : (i : ℕ) → i < n → ptr i ≢ 0
  pub nul : n < len → ptr n ≡ 0

find_loop-Found :
    (len i : ℕ) (ptr : Bytes)
    → let n = find_loop len i ptr in
      (i ≤ n) × (n ≤ i + len) × ((j : ℕ) → i ≤ j → j < n → ptr j ≢ 0) × (n < i + len → ptr n ≡ 0)
unfolding find_loop
find_loop-Found zero i ptr = (
  omega arith,
  omega arith,
  λ j lo hi. absurd (omega (arith, lo, hi)),
  λ lt. absurd (omega (arith, lt)),
)
find_loop-Found (suc len) i ptr =
    let (lo, hi, before, stop) = find_loop-Found len (i + 1) ptr in
    elim (Bool-cases (ptr i == 0)) [
      | inl z ↦
          rw (z, find_loop)
            (
              omega arith,
              omega arith,
              λ j lo' hi'. absurd (omega (arith, lo', hi')),
              λ lt. ground (arith, z),
            )
      | inr nz ↦
          rw (nz, find_loop)
            (
              omega (arith, lo),
              omega (arith, hi),
              λ j lo' hi'. elim (Bool-cases (j == i)) [
                | inl here ↦
                    let e : i ≡ j = ground (arith, here) in
                    subst (λ x. ptr x ≢ 0) e (==_false→ne _ _ nz)
                | inr later ↦ before j (omega (arith, lo', ==_false→ne j i later)) hi'
              ],
              λ lt. stop (omega (arith, lt)),
            )
    ]

pub crd_find-Found : (ptr : Bytes) (len : ℕ) → Found ptr len (crd_find ptr len)
unfolding crd_find
crd_find-Found ptr len =
    let (lo, hi, before, stop) = find_loop-Found len 0 ptr in
    record {
      inside = omega (arith, hi);
      characters = λ i lt. before i (omega arith) lt;
      nul = λ lt. stop (omega (arith, lt));
    }

-- The pieces go into the ring, and nothing else changes.
pub apply_print-same :
    (buffpos size : ℕ) (d : Device)
    → let d' = apply_print buffpos size d in
      d' ≡ record d { printer = record (d.printer) { str_buf = d'.printer.str_buf } }
unfolding apply_print
apply_print-same buffpos size d =
    elim (Bool-cases (leb d.crd.crd_start d.crd.counter && not (size == 0))) [
      | inl typed ↦ rw typed (
          ap (λ (p : Printer). record d { printer = p })
            (print-same (Ptr.plain buffpos) Info.ram size d.printer))
      | inr skipped ↦ rw skipped (
          ap (λ (p : Printer). record d { printer = p })
            (print-same (Ptr.empty_str 0) Info.ram 1 d.printer))
    ]

-- The characters that printUpdate reads for an entry, and those that are not NUL.
module _ (b : Board) (d : Device) where
  abbrev pub chars : ℕ → Ptr → List ℕ
  chars zero p = []
  chars (suc n) p = read_ram b d p ∷ chars n (next_ptr p)

abbrev pub visible : List ℕ → List ℕ
visible [] = []
visible (x ∷ xs) = let rest = visible xs in if x == 0 then rest else x ∷ rest

module _ (b : Board) (text : Bytes) (from_field to_field : ℕ) where
  -- The text of the chosen credential, block by block, as noekeon.S decrypts it. The routine reads and
  -- writes the sixteen bytes of a block.
  pub record Deciphers (d : Device) : Type 0 where
    pub blocks :
        (k : ℕ) (block : Bytes)
        → ((j : ℕ) → j < 16 → block j ≡ from d.flash (add16 d.crd.credential.encrypt (16 * k)) j)
        → (j : ℕ) → j < 16
        → b.noekeon_decrypt d.crd.cipher.key block j ≡ text (16 * k + j)

  -- CRD_apply stands at a byte and in a field of the text, and the buffer holds the block of that byte.
  pub record Reading (pos field : ℕ) (d : Device) : Type 0 where
    pub deciphers : Deciphers d
    pub position_is : d.crd.position ≡ pos
    pub counter_is : d.crd.counter ≡ field
    pub start_is : d.crd.crd_start ≡ from_field
    pub stop_is : d.crd.crd_stop ≡ to_field
    pub buffer : pos % 16 ≢ 0 → (j : ℕ) → j < 16 → d.crd.cipher.plain j ≡ text (pos - pos % 16 + j)

  -- Step 1 of CRD_apply leaves the block of the byte in the buffer.
  pub buffer_filled :
      (pos field : ℕ) (d : Device)
      → Reading pos field d
      → (j : ℕ) → j < 16
      → (decrypt_block b d d.crd).cipher.plain j ≡ text (pos - pos % 16 + j)
  unfolding decrypt_block
  buffer_filled pos field d v j lt = elim (Bool-cases (d.crd.position % 16 == 0)) [
    | inl next ↦
        let k = pos / 16 in
        let e : 16 * k ≡ d.crd.position = ground (arith, next, v.position_is) in
        let block =
          blit d.crd.cipher.plain 0 16
            (from d.flash (add16 d.crd.credential.encrypt d.crd.position)) in
        let at : 16 * k + j ≡ pos - pos % 16 + j = ground (arith, next, v.position_is) in
        rw next (v.deciphers.blocks k block (λ i lt'. rw e (ground (arith, lt'))) j lt ∙ ap text at)
    | inr same ↦ rw same (v.buffer (ground (arith, same, v.position_is)) j lt)
  ]

  -- The characters of a piece that lies in the buffer.
  pub chars-plain :
      (n q pos : ℕ) (d : Device)
      → q + n ≤ 16
      → ((i : ℕ) → i < n → d.crd.cipher.plain (q + i) ≡ text (pos + i))
      → chars b d n (plain q) ≡ slice text from_field to_field pos n
  unfolding read_ram next_ptr
  chars-plain zero q pos d le h = refl
  chars-plain (suc n) q pos d le h =
      let here : read_ram b d (plain q) ≡ text pos = ground (
        arith,
        le,
        h 0 (omega arith),
        ap text {x = pos + 0} {y = pos} (omega arith),
        ap d.crd.cipher.plain {x = q + 0} {y = q} (omega arith),
      ) in
      ap₂ (λ x xs. x ∷ xs) here
        (chars-plain n (q + 1) (pos + 1) d (omega (arith, le)) (λ i lt.
          ap d.crd.cipher.plain {x = q + 1 + i} {y = q + (i + 1)} (omega arith)
          ∙ h (i + 1) (omega (arith, lt))
          ∙ ap text {x = pos + (i + 1)} {y = pos + 1 + i} (omega arith)))

  pub visible-slice :
      (n pos : ℕ)
      → Plain text from_field to_field pos n
      → visible (slice text from_field to_field pos n) ≡ slice text from_field to_field pos n
  visible-slice zero pos p = refl
  visible-slice (suc n) pos p = ground (
    arith,
    Plain-head text from_field to_field pos n p,
    visible-slice n (pos + 1) (Plain-tail text from_field to_field pos n p),
  )

  printed_first :
      (str : Ptr) (info : Info) (len : ℕ) (d : Device)
      → d.printer.act_string < 5
      → is_empty (act d.printer).info ≡ true
      → let d' = on_printer (print str info len) d in
        (act d'.printer ≡ entry str info len)
        × (d' ≡ record d { printer = d'.printer })
        × (d'.printer.act_string ≡ d.printer.act_string)
  printed_first str info len d lt free =
      let p = d.printer in
      let z : slot p 0 ≡ p.act_string = omega (arith, lt) in
      let first =
        print-first str info len 0 p (omega arith) (λ j h. absurd (omega (arith, h)))
          (ap (λ x. is_empty (p.str_buf x).info) z ∙ free) in
      (ap act first ∙ ground (arith, z), refl, ap (λ (x : Printer). x.act_string) first)

  -- The printer's first entry is free, and gets the piece.
  pub apply_print-act :
      (q size : ℕ) (d : Device)
      → d.printer.act_string < 5
      → is_empty (act d.printer).info ≡ true
      → let d' = apply_print q size d in
        (act d'.printer ≡ (
          if leb d.crd.crd_start d.crd.counter && not (size == 0)
          then entry (plain q) ram size
          else entry (empty_str 0) ram 1))
        × (d' ≡ record d { printer = d'.printer })
        × (d'.printer.act_string ≡ d.printer.act_string)
  unfolding apply_print
  apply_print-act q size d lt free =
      elim (Bool-cases (leb d.crd.crd_start d.crd.counter && not (size == 0))) [
        | inl typed ↦ rw typed (printed_first (plain q) ram size d lt free)
        | inr skipped ↦ rw skipped (printed_first (empty_str 0) ram 1 d lt free)
      ]
