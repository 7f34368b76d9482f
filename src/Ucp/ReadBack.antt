-- ===== src/Ucp/ReadBack.antt =====
-- What a host can do after a session that sets the PIN: the protocol is not locked.
use memtype.Base.{ℕ, ◌+◌, ◌<◌, ◌≡◌, ◌∙◌, ap, ap₂, Bytes, [], ◌∷◌, ◌++◌, from, arith}
use memtype.State.{Device, idle, write_eeprom}
use memtype.Board.{Board}
use memtype.Ucp.Cmd
use memtype.Ucp.Err
use memtype.Ucp.Decode.{ucp_decode}
use memtype.Ucp.Task.{ucp_task}
use memtype.Ucp.Read.{eight, reports_of, host_data, read_pin_session}
use memtype.Ucp.SetPin.{set_pin_session, ucp_decode-PinSet}

eight-same : (f g : Bytes) → ((k : ℕ) → k < 8 → f k ≡ g k) → eight f ≡ eight g
unfolding eight
eight-same f g same = λ i.
    same 0 (omega arith) i
    ∷ same 1 (omega arith) i
    ∷ same 2 (omega arith) i
    ∷ same 3 (omega arith) i
    ∷ same 4 (omega arith) i
    ∷ same 5 (omega arith) i
    ∷ same 6 (omega arith) i
    ∷ same 7 (omega arith) i
    ∷ []

module _ (b : Board) where
  -- SET_PIN does not lock the device. From the idle state, a SET_PIN packet and two more leave the
  -- protocol in WRITE_EEPROM; the next packet, whatever it holds, is refused with a protocol error and
  -- makes the protocol idle; and then READ_PIN brings the host, without the PIN, the sixteen bytes that
  -- the two packets had. So it is if the hash ends below the last 16-bit address.
  pub set_pin_session-read_pin_session :
      (packet low high next ask : Bytes) (d : Device)
      → d.ucp.ucp_state ≡ idle
      → packet 0 ≡ Cmd.set_pin
      → ask 0 ≡ Cmd.read_pin
      → b.lock_hash + 16 < 65536
      → let d1 = ucp_decode b high 8 (ucp_decode b low 8 (ucp_decode b packet 8 d)) in
        let d2 = ucp_decode b next 8 d1 in
        (d1.ucp.ucp_state ≡ write_eeprom)
        × (d2.ucp.custom_report 0 ≡ Cmd.error)
        × (d2.ucp.custom_report 1 ≡ Err.protocol)
        × (d2.ucp.ucp_state ≡ idle)
        × (host_data b 2 (ucp_task b (ucp_decode b ask 8 d2)) ≡ eight low ++ (eight high ++ []))
  unfolding reports_of
  set_pin_session-read_pin_session packet low high next ask d st set cmd small =
      let d1 = ucp_decode b high 8 (ucp_decode b low 8 (ucp_decode b packet 8 d)) in
      let d2 = ucp_decode b next 8 d1 in
      let (lo, hi, _, v) = set_pin_session b packet low high d st set small in
      let (is_idle, e0, e1, _, ee) = ucp_decode-PinSet b next d d1 v in
      let (_, answer, _) = read_pin_session b ask d2 is_idle cmd small in
      let low_half : eight (from d2.eeprom b.lock_hash) ≡ eight low =
        eight-same (from d2.eeprom b.lock_hash) low
          (λ k h. ap (λ m. from m b.lock_hash k) ee ∙ ground (arith, lo k h)) in
      let high_half : eight (from d2.eeprom (b.lock_hash + 8)) ≡ eight high =
        eight-same (from d2.eeprom (b.lock_hash + 8)) high
          (λ k h. ap (λ m. from m (b.lock_hash + 8) k) ee ∙ ground (arith, hi k h)) in
      (v.state, e0, e1, is_idle, answer ∙ ap₂ (λ x y. x ++ (y ++ [])) low_half high_half)
