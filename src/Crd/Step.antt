-- ===== src/Crd/Step.antt =====
-- One call of CRD_apply hands out the next characters of the text.
use memtype.Base.{
  ℕ, ◌+◌, ◌-◌, ◌%◌, ◌≤◌, ◌<◌, ◌≡◌, ◌∙◌, sym, ap, ap₂, ◌==◌, leb, ltb, not, ◌&&◌, if◌then◌else◌,
  Bool, true, false, inl, inr, Bool-cases, Bytes, List, [], ◌++◌, arith,
}
use memtype.State.{Device, Crd, StrPtr, plain, empty_str, ram, on_crd}
use memtype.Board.{Board}
use memtype.Print.{entry, act, is_empty}
use memtype.Print.Update.{read_ram, next_ptr}
use memtype.Crd.Apply.{crd_find, apply_print, apply_move, decrypt_block, crd_apply}
use memtype.Crd.Fields.{chosen, nuls, slice, Plain, piece}
use memtype.Crd.Pieces.{
  crd_find-Found, chars, visible, Reading, buffer_filled, chars-plain, visible-slice,
  apply_print-act,
}

apply_move-same :
    (size pending : ℕ) (c : Crd)
    → let c' = apply_move size pending c in
      c' ≡ record c { position = c'.position; counter = c'.counter }
unfolding apply_move
apply_move-same size pending c = ground arith

apply_move-numbers :
    (size pending pos field : ℕ) (c : Crd)
    → c.position ≡ pos
    → c.counter ≡ field
    → pos + size + 1 < 256
    → field + 1 < 256
    → let c' = apply_move size pending c in
      let more = ltb size pending in
      (c'.position ≡ (if more then pos + size + 1 else pos + size))
      × (c'.counter ≡ (if more then field + 1 else field))
unfolding apply_move
apply_move-numbers size pending pos field c e e' small small' =
    (ground (arith, e, e', small, small'), ground (arith, e, e', small, small'))

pub decrypt_block-same :
    (b : Board) (d : Device) (c : Crd)
    → let c' = decrypt_block b d c in
      c' ≡ record c { cipher = record (c.cipher) { plain = c'.cipher.plain } }
unfolding decrypt_block
decrypt_block-same b d c = ground arith

module _ (b : Board) (text : Bytes) (from_field to_field : ℕ) where
  -- Where CRD_apply stands after a call, with the `r'` bytes that are left of `r`.
  pub record Next (r pos field : ℕ) (d' : Device) : Type 0 where
    pub pos' : ℕ
    pub field' : ℕ
    pub r' : ℕ
    pub reading : Reading b text from_field to_field pos' field' d'
    pub sum : pos' + r' ≡ pos + r
    pub less : r' < r
    pub nuls_left : to_field ≤ field' + nuls text from_field to_field r' pos'
    pub busy : is_empty (act d'.printer).info ≡ false
    pub inside : d'.printer.act_string < 5
    pub handed :
        chosen text from_field to_field r pos field
        ≡ visible (chars b d' (act d'.printer).len (act d'.printer).str_ptr)
          ++ chosen text from_field to_field r' pos' field'

  -- The device in the steps of CRD_apply.
  abbrev pub buffered : Device → Device
  buffered d = on_crd (decrypt_block b d) d

  abbrev pub size_at : ℕ → Device → ℕ
  size_at pos d = crd_find (λ i. (buffered d).crd.cipher.plain (pos % 16 + i)) (16 - pos % 16)

  abbrev pub applied : ℕ → Device → Device
  applied pos d =
      on_crd (apply_move (size_at pos d) (16 - pos % 16))
        (apply_print (pos % 16) (size_at pos d) (buffered d))

  pub crd_apply-applied :
      (pos field : ℕ) (d : Device)
      → Reading b text from_field to_field pos field d
      → field < to_field
      → crd_apply b d ≡ applied pos d
  unfolding crd_apply
  crd_apply-applied pos field d v lt =
      let early : leb d.crd.crd_stop d.crd.counter ≡ false =
        ground (arith, v.stop_is, v.counter_is, lt) in
      rw early (
        ap
          (λ x.
            on_crd
              (apply_move (crd_find (λ i. (buffered d).crd.cipher.plain (x % 16 + i)) (16 - x % 16))
                (16 - x % 16))
              (apply_print (x % 16)
                (crd_find (λ i. (buffered d).crd.cipher.plain (x % 16 + i)) (16 - x % 16))
                (buffered d)))
          v.position_is)

  -- The bytes of the piece that CRD_apply found are no NULs, and the one behind it is, if it is in the
  -- block.
  pub size-Found :
      (pos field : ℕ) (d : Device)
      → Reading b text from_field to_field pos field d
      → let n = size_at pos d in
        (n ≤ 16 - pos % 16)
        × Plain text from_field to_field pos n
        × (n < 16 - pos % 16 → text (pos + n) ≡ 0)
  size-Found pos field d v =
      let n = size_at pos d in
      let found =
        crd_find-Found (λ i. (buffered d).crd.cipher.plain (pos % 16 + i)) (16 - pos % 16) in
      let at : (i : ℕ)
          → i < 16 - pos % 16
          → (buffered d).crd.cipher.plain (pos % 16 + i) ≡ text (pos + i) =
        λ i lt.
          buffer_filled b text from_field to_field pos field d v (pos % 16 + i) (omega (arith, lt))
          ∙ ap text {x = pos - pos % 16 + (pos % 16 + i)} {y = pos + i} (omega arith) in
      (
        found.inside,
        λ i lt z. found.characters i lt (at i (omega (arith, lt, found.inside)) ∙ z),
        λ lt. sym (at n lt) ∙ found.nul lt,
      )

  -- What the moves of CRD_apply leave alone.
  pub applied_kept :
      (pos field : ℕ) (d : Device)
      → d.printer.act_string < 5
      → is_empty (act d.printer).info ≡ true
      → Reading b text from_field to_field pos field d
      → let d' = applied pos d in
        (d'.flash ≡ d.flash)
        × (d'.crd.credential ≡ d.crd.credential)
        × (d'.crd.cipher.key ≡ d.crd.cipher.key)
        × (d'.crd.cipher.plain ≡ (buffered d).crd.cipher.plain)
        × (d'.crd.crd_start ≡ from_field)
        × (d'.crd.crd_stop ≡ to_field)
        × (d'.printer.act_string < 5)
  applied_kept pos field d lt free v =
      let n = size_at pos d in
      let d2 = apply_print (pos % 16) n (buffered d) in
      let (_, same, at) =
        apply_print-act b text from_field to_field (pos % 16) n (buffered d) lt free in
      let crd : d2.crd ≡ decrypt_block b d d.crd = ap (λ (x : Device). x.crd) same in
      let m = apply_move-same n (16 - pos % 16) d2.crd in
      let m' = decrypt_block-same b d d.crd in
      (
        ap (λ (x : Device). x.flash) same,
        ap (λ (x : Crd). x.credential) m
            ∙ ap (λ (x : Crd). x.credential) crd
            ∙ ap (λ (x : Crd). x.credential) m',
        ap (λ (x : Crd). x.cipher.key) m
            ∙ ap (λ (x : Crd). x.cipher.key) crd
            ∙ ap (λ (x : Crd). x.cipher.key) m',
        ap (λ (x : Crd). x.cipher.plain) m ∙ ap (λ (x : Crd). x.cipher.plain) crd,
        ap (λ (x : Crd). x.crd_start) m
            ∙ ap (λ (x : Crd). x.crd_start) crd
            ∙ ap (λ (x : Crd). x.crd_start) m'
            ∙ v.start_is,
        ap (λ (x : Crd). x.crd_stop) m
            ∙ ap (λ (x : Crd). x.crd_stop) crd
            ∙ ap (λ (x : Crd). x.crd_stop) m'
            ∙ v.stop_is,
        omega (arith, at, lt),
      )

  pub applied_moved :
      (pos field : ℕ) (d : Device)
      → d.printer.act_string < 5
      → is_empty (act d.printer).info ≡ true
      → Reading b text from_field to_field pos field d
      → pos + size_at pos d + 1 < 256
      → field + 1 < 256
      → let d' = applied pos d in
        let n = size_at pos d in
        let more = ltb n (16 - pos % 16) in
        (d'.crd.position ≡ (if more then pos + n + 1 else pos + n))
        × (d'.crd.counter ≡ (if more then field + 1 else field))
  applied_moved pos field d lt free v small small' =
      let n = size_at pos d in
      let d2 = apply_print (pos % 16) n (buffered d) in
      let (_, same, _) =
        apply_print-act b text from_field to_field (pos % 16) n (buffered d) lt free in
      let crd : d2.crd ≡ decrypt_block b d d.crd = ap (λ (x : Device). x.crd) same in
      let m' = decrypt_block-same b d d.crd in
      let at : d2.crd.position ≡ pos =
        ap (λ (x : Crd). x.position) crd ∙ ap (λ (x : Crd). x.position) m' ∙ v.position_is in
      let at' : d2.crd.counter ≡ field =
        ap (λ (x : Crd). x.counter) crd ∙ ap (λ (x : Crd). x.counter) m' ∙ v.counter_is in
      apply_move-numbers n (16 - pos % 16) pos field d2.crd at at' small small'

  -- The characters of the entry that CRD_apply makes.
  pub applied-chars :
      (pos field : ℕ) (d : Device)
      → d.printer.act_string < 5
      → is_empty (act d.printer).info ≡ true
      → Reading b text from_field to_field pos field d
      → let d' = applied pos d in
        (is_empty (act d'.printer).info ≡ false)
        × (visible (chars b d' (act d'.printer).len (act d'.printer).str_ptr)
            ≡ piece text from_field to_field pos field (size_at pos d))
  unfolding is_empty read_ram next_ptr
  applied-chars pos field d lt free v =
      let n = size_at pos d in
      let d1 = buffered d in
      let d' = applied pos d in
      let (here, _, _) = apply_print-act b text from_field to_field (pos % 16) n d1 lt free in
      let m' = decrypt_block-same b d d.crd in
      let wanted : leb d1.crd.crd_start d1.crd.counter ≡ leb from_field field =
        ap₂ leb (ap (λ (x : Crd). x.crd_start) m' ∙ v.start_is)
          (ap (λ (x : Crd). x.counter) m' ∙ v.counter_is) in
      let read : StrPtr → List ℕ = λ s. visible (chars b d' s.len s.str_ptr) in
      let choice : Bool → StrPtr =
        λ w. if w then entry (plain (pos % 16)) ram n else entry (empty_str 0) ram 1 in
      let made = here ∙ ap (λ w. choice (w && not (n == 0))) wanted in
      let slice_if : Bool → ℕ → List ℕ =
        λ w k. if w then slice text from_field to_field pos k else [] in
      elim (Bool-cases (leb from_field field && not (n == 0))) [
        | inl typed ↦
            let e = made ∙ ap choice typed in
            let asked : leb from_field field ≡ true = ground (arith, typed) in
            let (le, plain_bytes, _) = size-Found pos field d v in
            let (_, _, _, kept, _, _, _) = applied_kept pos field d lt free v in
            (
              ap (λ (s : StrPtr). is_empty s.info) e,
              ap read e
                  ∙ ap visible (
                      chars-plain b text from_field to_field n (pos % 16) pos d' (omega (arith, le))
                        (λ i h.
                          (λ k. kept k (pos % 16 + i))
                          ∙ buffer_filled b text from_field to_field pos field d v (pos % 16 + i)
                              (omega (arith, h, le))
                          ∙ ap text {x = pos - pos % 16 + (pos % 16 + i)} {y = pos + i}
                              (omega arith)))
                  ∙ visible-slice b text from_field to_field n pos plain_bytes
                  ∙ sym (ap (λ w. slice_if w n) asked),
            )
        | inr skipped ↦
            let e = made ∙ ap choice skipped in
            (
              ap (λ (s : StrPtr). is_empty s.info) e,
              ap read e ∙ elim (Bool-cases (leb from_field field)) [
                | inr unasked ↦ sym (ap (λ w. slice_if w n) unasked)
                | inl asked ↦
                    let none_there : n ≡ 0 = ground (arith, skipped, asked) in
                    sym (ap₂ slice_if asked none_there)
              ],
            )
      ]
