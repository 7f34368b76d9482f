-- ===== src/Crd/Started.antt =====
-- What CRD_printDetail leaves: the first piece of the credential waits in the ring.
use memtype.Base.{ℕ, ◌<◌, ◌≡◌, ◌≢◌, refl, sym, subst, true, Bytes, arith}
use memtype.State.{Device, on_crd}
use memtype.Board.{Board}
use memtype.Print.{act, is_empty}
use memtype.Print.Update.{synchronous_idle_key}
use memtype.Crd.Apply.{crd_apply}
use memtype.Crd.Entry.{Piece, applied-Piece}
use memtype.Crd.Handed.{applied-Next, Deciphers-same}
use memtype.Crd.Pieces.{Deciphers, Reading}
use memtype.Crd.Step.{Next, crd_apply-applied}
use memtype.Crd.Typed.{Ends}

module _ (b : Board) (text : Bytes) (from_field to_field : ℕ) where
  -- The text, from its start on.
  abbrev pub started : Device → Device
  started =
      on_crd
        (λ c. record c { position = 0; counter = 0; crd_start = from_field; crd_stop = to_field })

  started-Reading :
      (d : Device)
      → Deciphers b text from_field to_field d
      → Reading b text from_field to_field 0 0 (started d)
  started-Reading d v = record {
    deciphers = Deciphers-same b text from_field to_field d (started d) refl refl refl v;
    position_is = refl;
    counter_is = refl;
    start_is = refl;
    stop_is = refl;
    buffer = λ ne j lt. absurd (ne refl);
  }

  pub crd_apply-started :
      (r : ℕ) (d : Device)
      → d.printer.act_string < 5
      → is_empty (act d.printer).info ≡ true
      → Deciphers b text from_field to_field d
      → Ends b text from_field to_field r 0 0
      → 0 < to_field
      → ((j : ℕ) → j < 256 → text j ≢ synchronous_idle_key)
      → Next b text from_field to_field r 0 0 (crd_apply b (started d))
        × Piece b (crd_apply b (started d))
  crd_apply-started r d lt free v ends some quiet =
      let d0 = started d in
      let v0 = started-Reading d v in
      let e = crd_apply-applied b text from_field to_field 0 0 d0 v0 some in
      (
        subst (Next b text from_field to_field r 0 0) (sym e) (
            applied-Next b text from_field to_field r 0 0 d0 lt free v0 some ends.byte ends.small
              ends.enough),
        subst (Piece b) (sym e)
            (applied-Piece b text from_field to_field 0 0 d0 lt free v0 (omega arith) quiet),
      )
