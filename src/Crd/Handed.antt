-- ===== src/Crd/Handed.antt =====
-- The characters of a credential that the calls of CRD_apply hand out to the printer.
use memtype.Base.{
  ◌≢◌, ℕ, suc, ◌+◌, ◌-◌, ◌*◌, ◌%◌, ◌≤◌, ◌<◌, ◌≡◌, ◌∙◌, sym, ap, subst₃, ltb, if◌then◌else◌, true,
  inl, inr, Bool-cases, add16, from, Bytes, ◌++◌, arith,
}
use memtype.State.{Device, Credential}
use memtype.Board.{Board}
use memtype.Print.{act, is_empty}
use memtype.Crd.Fields.{
  chosen, nuls, Plain, chosen-Plain, chosen-field, nuls-Plain, nuls-field, nuls-few,
}
use memtype.Crd.Pieces.{Deciphers, Reading, buffer_filled}
use memtype.Crd.Step.{
  Next, applied, size_at, size-Found, applied_kept, applied_moved, applied-chars,
}

module _ (b : Board) (text : Bytes) (from_field to_field : ℕ) where
  pub Deciphers-same :
      (d d' : Device)
      → d'.flash ≡ d.flash
      → d'.crd.credential ≡ d.crd.credential
      → d'.crd.cipher.key ≡ d.crd.cipher.key
      → Deciphers b text from_field to_field d
      → Deciphers b text from_field to_field d'
  Deciphers-same d d' fl cr ky v = record {
    blocks =
        subst₃
          (λ f (c : Credential) key.
            (k : ℕ) (block : Bytes)
            → ((j : ℕ) → j < 16 → block j ≡ from f (add16 c.encrypt (16 * k)) j)
            → (j : ℕ) → j < 16
            → b.noekeon_decrypt key block j ≡ text (16 * k + j))
          (sym fl) (sym cr) (sym ky) v.blocks;
  }

  -- The bytes left are more than the piece, since a field still ends in them.
  piece_short :
      (n r pos field : ℕ)
      → field < to_field
      → to_field ≤ field + nuls text from_field to_field r pos
      → Plain text from_field to_field pos n
      → n < r
  piece_short n r pos field lt enough p = elim (Bool-cases (ltb n r)) [
    | inl shorter ↦ ground (arith, shorter)
    | inr longer ↦
        let none_left = nuls-few text from_field to_field r n pos (ground (arith, longer)) p in
        absurd (omega (arith, lt, enough, none_left))
  ]

  -- What CRD_apply keeps, with where it stands then.
  applied-Reading :
      (pos field pos' field' : ℕ) (d : Device)
      → d.printer.act_string < 5
      → is_empty (act d.printer).info ≡ true
      → Reading b text from_field to_field pos field d
      → let d' = applied b text from_field to_field pos d in
        d'.crd.position ≡ pos'
        → d'.crd.counter ≡ field'
        → (pos' % 16 ≢ 0 → pos' - pos' % 16 ≡ pos - pos % 16)
        → Reading b text from_field to_field pos' field' d'
  applied-Reading pos field pos' field' d lt free v ep ec block =
      let d' = applied b text from_field to_field pos d in
      let (fl, cr, ky, pl, st, sp, _) =
        applied_kept b text from_field to_field pos field d lt free v in
      record {
        deciphers = Deciphers-same d d' fl cr ky v.deciphers;
        position_is = ep;
        counter_is = ec;
        start_is = st;
        stop_is = sp;
        buffer = λ ne j h.
            (λ k. pl k j)
            ∙ buffer_filled b text from_field to_field pos field d v j h
            ∙ ap (λ x. text (x + j)) (sym (block ne));
      }

  pub applied-Next :
      (r pos field : ℕ) (d : Device)
      → d.printer.act_string < 5
      → is_empty (act d.printer).info ≡ true
      → Reading b text from_field to_field pos field d
      → field < to_field
      → to_field < 256
      → pos + r < 256
      → to_field ≤ field + nuls text from_field to_field r pos
      → Next b text from_field to_field r pos field (applied b text from_field to_field pos d)
  applied-Next r pos field d lt free v more byte small enough =
      let n = size_at b text from_field to_field pos d in
      let (le, plain_bytes, stop) = size-Found b text from_field to_field pos field d v in
      let short : n < r = piece_short n r pos field more enough plain_bytes in
      let (_, _, _, _, _, _, at) = applied_kept b text from_field to_field pos field d lt free v in
      let (ep, ec) =
        applied_moved b text from_field to_field pos field d lt free v (omega (arith, short, small))
          (omega (arith, more, byte)) in
      let (busy, out) = applied-chars b text from_field to_field pos field d lt free v in
      let goes_on = applied-Reading pos field in
      elim (Bool-cases (ltb n (16 - pos % 16))) [
        | inl field_ends ↦
            let r' = r - n - 1 in
            let in_block : n < 16 - pos % 16 = ground (arith, field_ends) in
            let er : n + suc r' ≡ r = omega (arith, short) in
            let count =
              nuls-field text from_field to_field n r' r pos er plain_bytes (stop in_block) in
            record {
              pos' = pos + n + 1;
              field' = field + 1;
              r' = r';
              reading =
                  goes_on (pos + n + 1) (field + 1) d lt free v
                    (ep ∙ ap (λ w. if w then pos + n + 1 else pos + n) field_ends)
                    (ec ∙ ap (λ w. if w then field + 1 else field) field_ends)
                    (λ ne. omega (arith, ne, in_block));
              sum = omega (arith, short);
              less = omega (arith, short);
              nuls_left = omega (arith, enough, count);
              busy = busy;
              inside = at;
              handed =
                  chosen-field text from_field to_field n r' r pos field er more plain_bytes
                    (stop in_block)
                  ∙ ap (λ l. l ++ chosen text from_field to_field r' (pos + n + 1) (field + 1))
                      (sym out);
            }
        | inr block_ends ↦
            let r' = r - n in
            let er : n + r' ≡ r = omega (arith, short) in
            let count =
              ap (λ x. nuls text from_field to_field x pos) (sym er)
              ∙ nuls-Plain text from_field to_field n r' pos plain_bytes in
            let whole : n ≡ 16 - pos % 16 = ground (arith, block_ends, le) in
            record {
              pos' = pos + n;
              field' = field;
              r' = r';
              reading =
                  goes_on (pos + n) field d lt free v
                    (ep ∙ ap (λ w. if w then pos + n + 1 else pos + n) block_ends)
                    (ec ∙ ap (λ w. if w then field + 1 else field) block_ends)
                    (λ ne. absurd (ne (omega (arith, whole))));
              sum = omega (arith, short);
              less = omega (arith, short, whole);
              nuls_left = omega (arith, enough, count);
              busy = busy;
              inside = at;
              handed =
                  ap (λ x. chosen text from_field to_field x pos field) (sym er)
                  ∙ chosen-Plain text from_field to_field n r' pos field more plain_bytes
                  ∙ ap (λ l. l ++ chosen text from_field to_field r' (pos + n) field) (sym out);
            }
      ]
