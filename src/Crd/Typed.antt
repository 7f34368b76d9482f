-- ===== src/Crd/Typed.antt =====
-- All the calls of CRD_apply for a credential: exactly the chosen fields are handed out.
use memtype.Base.{
  ℕ, zero, suc, ◌+◌, ◌≤◌, ◌<◌, ◌≡◌, ◌∙◌, refl, sym, ap, subst, ==_refl, leb, ltb, Bool,
  if◌then◌else◌, true, false, inl, inr, Bool-cases, Bytes, List, [], ◌++◌, arith,
}
use memtype.State.{Device, Printer, on_crd, on_printer}
use memtype.Board.{Board}
use memtype.Print.{act, is_empty}
use memtype.Print.Update.{call_back, free_act}
use memtype.Crd.Apply.{crd_apply}
use memtype.Crd.Fields.{chosen, nuls, nuls-few, chosen-over}
use memtype.Crd.Pieces.{chars, visible, Deciphers, Reading}
use memtype.Crd.Step.{Next, crd_apply-applied}
use memtype.Crd.Handed.{applied-Next, Deciphers-same}

module _ (b : Board) where
  -- The characters that so many calls from printUpdate bring, less the NULs; and the device after them.
  unfoldable pub handed_out : ℕ → Device → List ℕ
  handed_out zero d = []
  handed_out (suc n) d =
      let d' = call_back b d in
      let s = act d'.printer in
      let read = chars b d' s.len s.str_ptr in
      visible (if is_empty s.info then [] else read) ++ handed_out n d'

  unfoldable pub after_calls : ℕ → Device → Device
  after_calls zero d = d
  after_calls (suc n) d = after_calls n (call_back b d)

  pub free_act-empty : (d : Device) → is_empty (act (on_printer free_act d).printer).info ≡ true
  unfolding is_empty
  free_act-empty d = rw (==_refl d.printer.act_string) refl

  handed_out-empty :
      (n : ℕ) (d : Device)
      → is_empty (act (call_back b d).printer).info ≡ true
      → handed_out (suc n) d ≡ handed_out n (call_back b d)
  unfolding handed_out
  handed_out-empty n d e = rw e refl

  handed_out-busy :
      (n : ℕ) (d : Device)
      → let d' = call_back b d in
        is_empty (act d'.printer).info ≡ false
        → handed_out (suc n) d
          ≡ visible (chars b d' (act d'.printer).len (act d'.printer).str_ptr) ++ handed_out n d'
  unfolding handed_out
  handed_out-busy n d e = rw e refl

  module _ (text : Bytes) (from_field to_field : ℕ) where
    -- The text of a credential: fewer than 256 bytes, in which the last of the chosen fields ends.
    pub record Ends (r pos field : ℕ) : Type 0 where
      pub byte : to_field < 256
      pub small : pos + r < 256
      pub enough : to_field ≤ field + nuls text from_field to_field r pos

    pub printing-Reading :
        (f : Printer → Printer) (pos field : ℕ) (d : Device)
        → Reading b text from_field to_field pos field d
        → Reading b text from_field to_field pos field (on_printer f d)
    printing-Reading f pos field d v = record {
      deciphers =
          Deciphers-same b text from_field to_field d (on_printer f d) refl refl refl v.deciphers;
      position_is = v.position_is;
      counter_is = v.counter_is;
      start_is = v.start_is;
      stop_is = v.stop_is;
      buffer = v.buffer;
    }

    pub call_back-more :
        (r pos field : ℕ) (d : Device)
        → d.printer.act_string < 5
        → Reading b text from_field to_field pos field d
        → Ends r pos field
        → field < to_field
        → Next b text from_field to_field r pos field (call_back b d)
    unfolding call_back
    call_back-more r pos field d lt v ends more =
        let d0 = on_printer free_act d in
        let v0 = printing-Reading free_act pos field d v in
        let next =
          applied-Next b text from_field to_field r pos field d0 lt (free_act-empty d) v0 more
            ends.byte ends.small ends.enough in
        let e = crd_apply-applied b text from_field to_field pos field d0 v0 more in
        let next' = subst (Next b text from_field to_field r pos field) (sym e) next in
        rw (next'.busy) next'

    crd_apply-over :
        (pos field : ℕ) (d : Device)
        → d.crd.crd_stop ≡ to_field
        → d.crd.counter ≡ field
        → to_field ≤ field
        → crd_apply b d ≡ d
    unfolding crd_apply
    crd_apply-over pos field d es ec le =
        let over : leb d.crd.crd_stop d.crd.counter ≡ true = ground (arith, es, ec, le) in
        rw over refl

    -- Nothing more is handed out once all the fields were.
    pub call_back-over :
        (pos field : ℕ) (d : Device)
        → Reading b text from_field to_field pos field d
        → to_field ≤ field
        → call_back b d ≡ on_printer (λ p. record (free_act p) { eos = 1 }) d
    unfolding call_back
    call_back-over pos field d v le =
        let ended : Device → Device = λ x. on_printer (λ p. record p { eos = 1 }) x in
        let checked : Bool → Device → Device = λ w x. if w then ended x else x in
        ap (λ x. checked (is_empty (act x.printer).info) x)
          (crd_apply-over pos field (on_printer free_act d) v.stop_is v.counter_is le)
        ∙ ap (λ w. checked w (on_printer free_act d)) (free_act-empty d)

    handed_out-over :
        (n pos field : ℕ) (d : Device)
        → Reading b text from_field to_field pos field d
        → to_field ≤ field
        → (handed_out n d ≡ []) × Reading b text from_field to_field pos field (after_calls n d)
    unfolding handed_out after_calls
    handed_out-over zero pos field d v le = (refl, v)
    handed_out-over (suc n) pos field d v le =
        let d' = on_printer (λ p. record (free_act p) { eos = 1 }) d in
        let e = call_back-over pos field d v le in
        let (rest, v') =
          handed_out-over n pos field d'
            (printing-Reading (λ p. record (free_act p) { eos = 1 }) pos field d v) le in
        (
          handed_out-empty n d (ap (λ x. is_empty (act x.printer).info) e ∙ free_act-empty d)
              ∙ ap (handed_out n) e
              ∙ rest,
          subst (Reading b text from_field to_field pos field) (ap (after_calls n) (sym e)) v',
        )

    handed_out-Reading :
        (n r pos field : ℕ) (d : Device)
        → d.printer.act_string < 5
        → Reading b text from_field to_field pos field d
        → Ends r pos field
        → r ≤ n
        → (handed_out n d ≡ chosen text from_field to_field r pos field)
          × (pos' : ℕ) × (field' : ℕ) × (to_field ≤ field')
          × Reading b text from_field to_field pos' field' (after_calls n d)
    unfolding handed_out after_calls
    handed_out-Reading zero r pos field d lt v ends le =
        let none_left =
          nuls-few text from_field to_field r 0 pos le (λ i h. absurd (omega (arith, h))) in
        let over : to_field ≤ field = omega (arith, ends.enough, none_left) in
        (sym (chosen-over text from_field to_field r pos field over), pos, field, over, v)
    handed_out-Reading (suc n) r pos field d lt v ends le = elim (Bool-cases (ltb field to_field)) [
      | inl more ↦
          let next = call_back-more r pos field d lt v ends (ground (arith, more)) in
          let d' = call_back b d in
          let ends' : Ends next.r' next.pos' next.field' = record {
            byte = ends.byte;
            small = omega (arith, ends.small, next.sum);
            enough = next.nuls_left;
          } in
          let (rest, pos', field', over, v') =
            handed_out-Reading n next.r' next.pos' next.field' d' next.inside next.reading ends'
              (omega (arith, le, next.less)) in
          (
            handed_out-busy n d next.busy
                ∙ ap (λ l. visible (chars b d' (act d'.printer).len (act d'.printer).str_ptr) ++ l)
                    rest
                ∙ sym next.handed,
            pos',
            field',
            over,
            v',
          )
      | inr all ↦
          let over : to_field ≤ field = ground (arith, all) in
          let (nothing, v') = handed_out-over (suc n) pos field d v over in
          (
            nothing ∙ sym (chosen-over text from_field to_field r pos field over),
            pos,
            field,
            over,
            v',
          )
    ]

    -- When CRD_printDetail starts on a credential whose text is at most 255 bytes long and has the chosen
    -- fields in its first `r` bytes, the calls of CRD_apply hand out, in order, the characters of these
    -- fields and no others but NULs; `r` calls are enough, and the next one ends the string.
    pub handed_out-chosen :
        (r : ℕ) (d : Device)
        → d.printer.act_string < 5
        → Deciphers b text from_field to_field d
        → Ends r 0 0
        → let started =
            on_crd
              (λ c. record c {
                position = 0;
                counter = 0;
                crd_start = from_field;
                crd_stop = to_field;
              })
              d in
          let d' = call_back b (after_calls r started) in
          (handed_out r started ≡ chosen text from_field to_field r 0 0)
          × (d'.printer.eos ≡ 1)
          × (is_empty (act d'.printer).info ≡ true)
    handed_out-chosen r d lt v ends =
        let d0 =
          on_crd
            (λ c. record c {
              position = 0;
              counter = 0;
              crd_start = from_field;
              crd_stop = to_field;
            })
            d in
        let v0 : Reading b text from_field to_field 0 0 d0 = record {
          deciphers = Deciphers-same b text from_field to_field d d0 refl refl refl v;
          position_is = refl;
          counter_is = refl;
          start_is = refl;
          stop_is = refl;
          buffer = λ ne j h. absurd (ne refl);
        } in
        let (out, pos', field', over, v') =
          handed_out-Reading r r 0 0 d0 lt v0 ends (omega arith) in
        let e = call_back-over pos' field' (after_calls r d0) v' over in
        (
          out,
          ap (λ (x : Device). x.printer.eos) e,
          ap (λ (x : Device). is_empty (act x.printer).info) e ∙ free_act-empty (after_calls r d0),
        )
