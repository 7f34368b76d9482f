-- ===== src/Ucp/Write/Packet.antt =====
-- One packet of a flash write: UCP_WriteTask consumes its eight bytes, or those up to the end.
use memtype.Base.{
  ℕ, zero, suc, ◌+◌, ◌≤◌, ◌<◌, ◌≡◌, ◌∙◌, ◌⊎◌, refl, sym, ap, Bytes, leb, true, false, Outcome, done,
  ◌>>=◌, arith, inl, inr, Bool-cases, leb→le, leb_false→lt,
}
use memtype.State.{Device, UcpState, on_ucp}
use memtype.Board.{Board}
use memtype.Crd.Load.{crd_init}
use memtype.Fls.Page.{IsBytes}
use memtype.Fls.Write.{written}
use memtype.Ucp.Write.{store_byte, flush_due, flush, store_loop, ucp_write_task}
use memtype.Ucp.Write.Store.{Job, Fits, Written, store_byte-Stored, Stored-Written, flush-Stored}

-- The job is done: the flash holds all of it, and the protocol is idle.
pub record Finished (w : Job) (d : Device) : Type 0 where
  pub contents : (j : ℕ) → d.flash j ≡ written w.before w.content w.a w.len j
  pub flash_bytes : IsBytes d.flash
  pub state : d.ucp.ucp_state ≡ UcpState.idle

-- usbWrite = 0
abbrev pub written_out : Device → Device
written_out d = on_ucp (λ u. record u { usb_write = 0 }) d

written_out-Written :
    {w : Job} {k : ℕ} {r : Bytes} {d : Device} → Written w k r d → Written w k r (written_out d)
written_out-Written v = record {
  offset = v.offset;
  end = v.end;
  address = v.address;
  few = v.few;
  report = v.report;
  state = v.state;
  flash_bytes = v.flash_bytes;
  buffer_bytes = v.buffer_bytes;
  contents = v.contents;
}

module _ (b : Board) where
  -- The loop's step where the buffer is due.
  pub store_loop-last :
      (n i : ℕ) (d d2 : Device)
      → flush_due (on_ucp (store_byte i) d).ucp ≡ true
      → flush b (on_ucp (store_byte i) d) ≡ done d2
      → leb d2.ucp.read_end d2.ucp.read_offset ≡ true
      → store_loop b (suc n) i d
        ≡ crd_init b (on_ucp (λ u. record u { ucp_state = UcpState.idle }) d2)
  unfolding store_loop
  store_loop-last n i d d2 due e last = ground arith

  store_loop-more :
      (n i : ℕ) (d d2 : Device)
      → flush_due (on_ucp (store_byte i) d).ucp ≡ true
      → flush b (on_ucp (store_byte i) d) ≡ done d2
      → leb d2.ucp.read_end d2.ucp.read_offset ≡ false
      → store_loop b (suc n) i d ≡ store_loop b n (i + 1) d2
  unfolding store_loop
  store_loop-more n i d d2 due e more = ground arith

  store_loop-early :
      (n i : ℕ) (d : Device)
      → flush_due (on_ucp (store_byte i) d).ucp ≡ false
      → store_loop b (suc n) i d ≡ store_loop b n (i + 1) (on_ucp (store_byte i) d)
  unfolding store_loop
  store_loop-early n i d early = ground arith

module _ (b : Board) (w : Job) (fits : Fits w) where
  -- What the loop comes to when it has consumed the bytes up to `k`: it has more to get, or it is done
  -- and loads the credentials anew.
  abbrev After : ℕ → Bytes → Outcome Device Device → Type 0
  After k r out =
      ((d' : Device) × (out ≡ done d') × Written w k r d' × (k < w.len))
      ⊎ ((d' : Device) × (out ≡ crd_init b d') × Finished w d' × (w.len ≤ k))

  store_loop-After :
      (n i k base : ℕ) (r : Bytes) (d : Device)
      → Written w k r d
      → k < w.len
      → k ≡ base + i
      → i + n ≡ 8
      → ((t : ℕ) → t < 8 → r t ≡ w.content (base + t))
      → After (base + 8) r (store_loop b n i d)
  unfolding store_loop
  store_loop-After zero i k base r d v lt e en hr =
      let q : k ≡ base + 8 = omega arith in inl (d, refl, rw q at v, omega arith)
  store_loop-After (suc n) i k base r d v lt e en hr =
      let d1 = on_ucp (store_byte i) d in
      let ri : r i ≡ w.content k = hr i (omega arith) ∙ ap w.content (sym e) in
      let s = store_byte-Stored b w fits k i r d v lt ri in
      let e' : k + 1 ≡ base + (i + 1) = omega arith in
      let en' : i + 1 + n ≡ 8 = omega arith in
      elim (Bool-cases (flush_due d1.ucp)) [
        | inr early ↦
            let (v', lt') = Stored-Written b w fits (k + 1) r d1 s early in
            rw (store_loop-early b n i d early)
              (store_loop-After n (i + 1) (k + 1) base r d1 v' lt' e' en' hr)
        | inl due ↦
            let (d2, e2, v2, all) = flush-Stored b w fits (k + 1) r d1 s (omega arith) in
            elim (Bool-cases (leb d2.ucp.read_end d2.ucp.read_offset)) [
              | inl last ↦
                  let ek : k + 1 ≡ w.len = omega (arith, leb→le _ _ last, v2.offset, v2.end) in
                  rw (store_loop-last b n i d d2 due e2 last) (
                    inr (
                      _,
                      refl,
                      record {
                        contents = λ j. ground (arith, all j, ek);
                        flash_bytes = v2.flash_bytes;
                        state = refl;
                      },
                      omega arith,
                    ))
              | inr more ↦ rw (store_loop-more b n i d d2 due e2 more) (
                  store_loop-After n (i + 1) (k + 1) base r d2 v2
                    (omega (arith, leb_false→lt _ _ more, v2.offset, v2.end)) e' en' hr)
            ]
      ]

  -- UCP_WriteTask on a packet that was accepted.
  pub ucp_write_task-Written :
      (base : ℕ) (r : Bytes) (d : Device)
      → Written w base r d
      → base < w.len
      → d.ucp.usb_write ≡ 1
      → ((t : ℕ) → t < 8 → r t ≡ w.content (base + t))
      → ((d' : Device) × (ucp_write_task b d ≡ done d')
          × Written w (base + 8) r d'
          × (d'.ucp.usb_write ≡ 0)
          × (base + 8 < w.len))
        ⊎ ((d' : Device) × (ucp_write_task b d ≡ (crd_init b d' >>= λ d1. done (written_out d1)))
            × Finished w d'
            × (w.len ≤ base + 8))
  unfolding ucp_write_task
  ucp_write_task-Written base r d v lt req hr =
      let e : base ≡ base + 0 = omega arith in
      elim (store_loop-After 8 0 base base r d v lt e refl hr) [
        | inl (d', out, v', lt') ↦
            inl (written_out d', ground arith, written_out-Written v', refl, lt')
        | inr (d', out, fin, le) ↦ inr (d', ground arith, fin, le)
      ]
