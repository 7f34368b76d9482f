-- ===== src/Ucp/Write/Session.antt =====
-- A write session: a WRITE packet, and the packets that carry the bytes. After each the host reads
-- the report, and the main loop runs UCP_WriteTask.
use memtype.Base.{
  ℕ, zero, suc, ◌+◌, ◌*◌, ◌%◌, ◌≤◌, ◌<◌, ◌≡◌, refl, ◌⊎◌, fun_ext, Bytes, blit, word_at, add16,
  Outcome, done, ◌>>=◌, >>=-done, arith, inl, inr,
}
use memtype.State.{Device, idle, writting, on_ucp}
use memtype.Board.{Board}
use memtype.Crd.Load.{crd_init}
use memtype.Crd.Eos.{Text, crd_load_credential-Text}
use memtype.Fls.Page.{IsBytes}
use memtype.Fls.Write.{written}
use memtype.Ucp.Cmd
use memtype.Ucp.Task.{ucp_task}
use memtype.Ucp.Decode.{ucp_decode}
use memtype.Ucp.Write.{ucp_write_task}
use memtype.Ucp.Write.Store.{Job, Fits, Written}
use memtype.Ucp.Write.Packet.{Finished, written_out, ucp_write_task-Written}

module _ (b : Board) where
  -- A packet of the session, with what follows it.
  unfoldable pub send_packet : Bytes → Device → Outcome Device Device
  send_packet packet d = ucp_write_task b (ucp_task b (ucp_decode b packet 8 d))

  -- `n` packets with the bytes of `content`, from packet `p` on.
  unfoldable pub send_packets : ℕ → ℕ → Bytes → Device → Outcome Device Device
  send_packets zero p content d = done d
  send_packets (suc n) p content d =
      send_packet (λ i. content (8 * p + i)) d >>= λ d1. send_packets n (p + 1) content d1

  -- The report with a packet in it.
  abbrev filled : Bytes → Device → Bytes
  filled packet d = blit d.ucp.custom_report 0 8 packet

  -- A packet is accepted, and the host's reading of the report makes it ready to be written.
  accept_lem :
      (packet : Bytes) (d : Device)
      → d.ucp.ucp_state ≡ writting
      → d.ucp.usb_write ≡ 0
      → d.ucp.read_offset < d.ucp.read_end
      → ucp_task b (ucp_decode b packet 8 d)
        ≡ on_ucp
            (λ u. record u {
              custom_report = filled packet d;
              usb_write = 1;
              usb_write_accepted = 0;
            })
            d
  unfolding ucp_task ucp_decode
  accept_lem packet d st free lt = ground arith

  module _ (w : Job) (fits : Fits w) where
    send_packet-Written :
        (p : ℕ) {r : Bytes} (d : Device)
        → Written w (8 * p) r d
        → d.ucp.usb_write ≡ 0
        → 8 * p < w.len
        → ((d' : Device) × (send_packet (λ i. w.content (8 * p + i)) d ≡ done d')
            × Written w (8 * p + 8) (filled (λ i. w.content (8 * p + i)) d) d'
            × (d'.ucp.usb_write ≡ 0)
            × (8 * p + 8 < w.len))
          ⊎ ((d' : Device) × (send_packet (λ i. w.content (8 * p + i)) d
                ≡ (crd_init b d' >>= λ d1. done (written_out d1)))
              × Finished w d'
              × (w.len ≤ 8 * p + 8))
    unfolding send_packet
    send_packet-Written p {r} d v free lt =
        let packet : Bytes = λ i. w.content (8 * p + i) in
        rw (accept_lem packet d v.state free (omega (arith, v.offset, v.end))) (
          ucp_write_task-Written b w fits (8 * p) (filled packet d) _
            (record {
              offset = v.offset;
              end = v.end;
              address = v.address;
              few = v.few;
              report = refl;
              state = v.state;
              flash_bytes = v.flash_bytes;
              buffer_bytes = v.buffer_bytes;
              contents = v.contents;
            })
            lt refl (λ t ht. ground arith))

    -- The end of a session: the credentials are loaded anew from the flash that was written.
    Ended : Outcome Device Device → Type 0
    Ended out =
        (d' : Device) × (out ≡ done d')
        × ((j : ℕ) → d'.flash j ≡ written w.before w.content w.a w.len j)
        × (d'.ucp.ucp_state ≡ idle)
        × (d'.ucp.usb_write ≡ 0)
        × (d'.crd.credential.name ≡ b.credentials % 65536)

    Finished-Ended :
        (m : ℕ) (d : Device)
        → Finished w d
        → Text (written w.before w.content w.a w.len) (b.credentials % 65536) m
        → Ended (crd_init b d >>= λ d1. done (written_out d1))
    unfolding Ended
    Finished-Ended m d fin txt =
        let e : d.flash ≡ written w.before w.content w.a w.len = fun_ext fin.contents in
        let ea : add16 0 b.credentials ≡ b.credentials % 65536 = omega arith in
        let txt' : Text d.flash (add16 0 b.credentials) m = rw (e, ea) txt in
        rw (crd_load_credential-Text b 0 m d txt') (_, refl, fin.contents, fin.state, refl, ea)

    send_packets-Written :
        (n p m : ℕ) {r : Bytes} (d : Device)
        → Written w (8 * p) r d
        → d.ucp.usb_write ≡ 0
        → 8 * (p + n) < w.len
        → w.len ≤ 8 * (p + suc n)
        → Text (written w.before w.content w.a w.len) (b.credentials % 65536) m
        → Ended (send_packets (suc n) p w.content d)
    unfolding send_packets
    send_packets-Written zero p m d v free lo hi txt =
        elim (send_packet-Written p d v free (omega arith)) [
          | inl (_, _, _, _, more) ↦ absurd (omega arith)
          | inr (d', out, fin, _) ↦ rw (>>=-done, out) (Finished-Ended m d' fin txt)
        ]
    send_packets-Written (suc n) p m d v free lo hi txt =
        elim (send_packet-Written p d v free (omega arith)) [
          | inl (d', out, v', free', _) ↦
              let q : 8 * p + 8 ≡ 8 * (p + 1) = omega arith in
              rw out (
                send_packets-Written n (p + 1) m d' (rw q at v') free' (omega arith) (omega arith)
                  txt)
          | inr (_, _, _, le) ↦ absurd (omega arith)
        ]

  -- The job that a WRITE packet asks for.
  abbrev pub job : Bytes → Bytes → Device → Job
  job packet content d = record {
    before = d.flash;
    content = content;
    a = add16 (word_at packet 1) b.credentials;
    o = word_at packet 1;
    len = word_at packet 3;
  }

  -- The session is open.
  abbrev opened : Bytes → Device → Device
  opened packet d =
      on_ucp
        (λ u. record u {
          custom_report = filled packet d;
          ucp_state = writting;
          read_offset = word_at packet 1;
          read_end = add16 (word_at packet 1) (word_at packet 3);
          buff_index = 0;
          flash_write_addr = add16 (word_at packet 1) b.credentials;
        })
        d

  open_write :
      (packet : Bytes) (d : Device)
      → d.ucp.ucp_state ≡ idle
      → packet 0 ≡ Cmd.write
      → ucp_decode b packet 8 d ≡ opened packet d
  unfolding ucp_decode
  open_write packet d st cmd = ground arith

  opened-Written :
      (packet content : Bytes) (d : Device)
      → IsBytes d.flash
      → IsBytes d.ucp.temp_buff
      → Fits (job packet content d)
      → Written (job packet content d) 0 (filled packet d) (opened packet d)
  opened-Written packet content d fb bb fits = record {
    offset = omega arith;
    end = omega (arith, fits.offsets);
    address = omega arith;
    few = omega arith;
    report = refl;
    state = refl;
    flash_bytes = fb;
    buffer_bytes = bb;
    contents = λ j. ground arith;
  }

  -- From the idle state, a WRITE packet for `len` bytes at offset `o`, and then as many packets as hold
  -- `len` bytes, each followed by a report request: the session ends, the flash holds those bytes from
  -- `credentials + o` on and is otherwise as before, the protocol is idle and free, and the first
  -- credential is loaded anew. So it is if the bytes do not run past the 16-bit offsets and addresses,
  -- and if the flash then has a text at `credentials`.
  pub write_session :
      (packet content : Bytes) (n m : ℕ) (d : Device)
      → d.ucp.ucp_state ≡ idle
      → d.ucp.usb_write ≡ 0
      → IsBytes d.flash
      → IsBytes d.ucp.temp_buff
      → packet 0 ≡ Cmd.write
      → Fits (job packet content d)
      → 8 * n < word_at packet 3
      → word_at packet 3 ≤ 8 * suc n
      → Text
          (written d.flash content (add16 (word_at packet 1) b.credentials) (word_at packet 3))
          (b.credentials % 65536)
          m
      → (d' : Device) × (send_packets (suc n) 0 content (ucp_decode b packet 8 d) ≡ done d')
        × ((j : ℕ)
            → d'.flash j
              ≡ written d.flash content
                  (add16 (word_at packet 1) b.credentials)
                  (word_at packet 3)
                  j)
        × (d'.ucp.ucp_state ≡ idle)
        × (d'.ucp.usb_write ≡ 0)
        × (d'.crd.credential.name ≡ b.credentials % 65536)
  unfolding Ended
  write_session packet content n m d st free fb bb cmd fits lo hi txt =
      rw (open_write packet d st cmd) (
        send_packets-Written (job packet content d) fits n 0 m (opened packet d)
          (opened-Written packet content d fb bb fits) free (omega arith) (omega arith) txt)
