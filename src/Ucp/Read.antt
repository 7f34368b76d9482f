-- ===== src/Ucp/Read.antt =====
-- A read session: a READ or READ_PIN packet, and the reports that the host then asks for.
use memtype.Base.{
  ℕ, zero, suc, ◌+◌, ◌*◌, ◌≤◌, ◌<◌, ◌≡◌, ◌≢◌, refl, ap₂, ◌∙◌, Bytes, List, [], ◌∷◌, ◌++◌, from,
  word_at, leb, ◌==◌, if◌then◌else◌, add16, arith,
}
use memtype.State.{Device, idle, reading}
use memtype.Board.{Board}
use memtype.Ucp.Cmd
use memtype.Ucp.Task.{ucp_task}
use memtype.Ucp.Decode.{ucp_decode, hash_size}

-- The eight bytes of a report.
unfoldable pub eight : Bytes → List ℕ
eight r = r 0 ∷ r 1 ∷ r 2 ∷ r 3 ∷ r 4 ∷ r 5 ∷ r 6 ∷ r 7 ∷ []

-- The reports at a memory's addresses a, a + 8, ..., `n` of them.
unfoldable pub reports_of : (ℕ → Bytes) → ℕ → ℕ → List ℕ
reports_of m a zero = []
reports_of m a (suc n) = eight (m a) ++ reports_of m (a + 8) n

module _ (b : Board) where
  -- The memory that a session of type `ty` reads, by the report's offset: the flash from
  -- `credentials` on, or the EEPROM.
  abbrev pub source : ℕ → Device → ℕ → Bytes
  source ty d o = if ty == 0 then from d.flash (add16 b.credentials o) else from d.eeprom o

  -- What `n` reports bring to the host, and the device afterwards.
  unfoldable pub host_data : ℕ → Device → List ℕ
  host_data zero d = []
  host_data (suc n) d = let d' = ucp_task b d in eight d'.ucp.custom_report ++ host_data n d'

  unfoldable pub after_reports : ℕ → Device → Device
  after_reports zero d = d
  after_reports (suc n) d = after_reports n (ucp_task b d)

  -- One report: the bytes, the offset moved on, and the state that it ends in.
  pub ucp_task-reading :
      (d : Device)
      → d.ucp.ucp_state ≡ reading
      → d.ucp.read_type ≢ 1
      → d.ucp.read_offset < d.ucp.read_end
      → d.ucp.read_offset + 8 < 65536
      → let d' = ucp_task b d in
        (eight d'.ucp.custom_report ≡ eight (source d.ucp.read_type d d.ucp.read_offset))
        × (d'.flash ≡ d.flash)
        × (d'.eeprom ≡ d.eeprom)
        × (d'.ucp.read_type ≡ d.ucp.read_type)
        × (d'.ucp.read_end ≡ d.ucp.read_end)
        × (d'.ucp.read_offset ≡ d.ucp.read_offset + 8)
        × (d'.ucp.ucp_state
            ≡ (if leb d.ucp.read_end (d.ucp.read_offset + 8) then idle else reading))
  unfolding ucp_task eight
  ucp_task-reading d st ty lt small = ground arith

  -- From `o` to `e`, `suc n` reports of the memory `m`.
  host_data-reading :
      (n : ℕ) (d : Device) {m : ℕ → Bytes} {o e : ℕ}
      → d.ucp.ucp_state ≡ reading
      → d.ucp.read_type ≢ 1
      → source d.ucp.read_type d ≡ m
      → d.ucp.read_offset ≡ o
      → d.ucp.read_end ≡ e
      → o + 8 * n < e
      → e ≤ o + 8 * suc n
      → o + 8 * suc n < 65536
      → (host_data (suc n) d ≡ reports_of m o (suc n))
        × ((after_reports (suc n) d).ucp.ucp_state ≡ idle)
  unfolding host_data after_reports reports_of
  host_data-reading zero d st ty src eo ee lo hi small =
      let r = ucp_task-reading d st ty (omega arith) (omega arith) in
      (ap₂ ◌++◌ (r.0 ∙ ap₂ (λ s k. eight (s k)) src eo) refl, ground (arith, r.6))
  host_data-reading (suc n) d {m} {o} {e} st ty src eo ee lo hi small =
      let lt : d.ucp.read_offset < d.ucp.read_end = omega arith in
      let small' : d.ucp.read_offset + 8 < 65536 = omega arith in
      let (bytes, fl, eep, ty', end', off', st') = ucp_task-reading d st ty lt small' in
      let d' = ucp_task b d in
      let same : source d'.ucp.read_type d' ≡ source d.ucp.read_type d =
        λ i. λ o'. if ty' i == 0 then from (fl i) (add16 b.credentials o') else from (eep i) o' in
      let (rest, last) =
        host_data-reading n d' (ground (arith, st')) (rw ty' ty) (same ∙ src) (off' ∙ omega arith)
          (end' ∙ ee) (omega arith) (omega arith) (omega arith) in
      (ap₂ ◌++◌ (bytes ∙ ap₂ (λ s k. eight (s k)) src eo) rest, last)

  -- A session that is open: the echo is out, and the reports are to come.
  abbrev Opened : Bytes → Device → Device → ℕ → ℕ → ℕ → Type 0
  Opened packet d d' ty o e =
      (eight d'.ucp.custom_report ≡ eight packet)
      × (d'.flash ≡ d.flash)
      × (d'.eeprom ≡ d.eeprom)
      × (d'.ucp.ucp_state ≡ reading)
      × (d'.ucp.read_type ≡ ty)
      × (d'.ucp.read_offset ≡ o)
      × (d'.ucp.read_end ≡ e)

  open_read :
      (packet : Bytes) (d : Device)
      → d.ucp.ucp_state ≡ idle
      → packet 0 ≡ Cmd.read
      → Opened packet d
          (ucp_task b (ucp_decode b packet 8 d))
          (packet 5)
          (word_at packet 1)
          (add16 (word_at packet 1) (word_at packet 3))
  unfolding ucp_task ucp_decode eight
  open_read packet d st cmd = ground arith

  open_read_pin :
      (packet : Bytes) (d : Device)
      → d.ucp.ucp_state ≡ idle
      → packet 0 ≡ Cmd.read_pin
      → Opened packet d
          (ucp_task b (ucp_decode b packet 8 d))
          2
          b.lock_hash
          (add16 b.lock_hash hash_size)
  unfolding ucp_task ucp_decode eight
  open_read_pin packet d st cmd = ground arith

  session :
      (packet : Bytes) (n : ℕ) (d d' : Device) (ty o e : ℕ)
      → Opened packet d d' ty o e
      → ty ≢ 1
      → o + 8 * n < e
      → e ≤ o + 8 * suc n
      → o + 8 * suc n < 65536
      → (eight d'.ucp.custom_report ≡ eight packet)
        × (host_data (suc n) d' ≡ reports_of (source ty d) o (suc n))
        × ((after_reports (suc n) d').ucp.ucp_state ≡ idle)
  session packet n d d' ty o e (echo, fl, eep, st, ty', o', e') ne lo hi small =
      let same : source d'.ucp.read_type d' ≡ source ty d =
        λ i. λ k. if ty' i == 0 then from (fl i) (add16 b.credentials k) else from (eep i) k in
      let (rest, last) = host_data-reading n d' st (rw ty' ne) same o' e' lo hi small in
      (echo, rest, last)

  -- From the idle state, a READ packet for `len` bytes from offset `o` on, of the flash or the EEPROM,
  -- answers the next report request with an echo of the packet; then as many reports as hold `len`
  -- bytes bring the memory from `o` on, eight bytes each, and the last leaves the protocol idle.
  pub read_session :
      (packet : Bytes) (n : ℕ) (d : Device)
      → d.ucp.ucp_state ≡ idle
      → packet 0 ≡ Cmd.read
      → packet 5 ≢ 1
      → 8 * n < word_at packet 3
      → word_at packet 3 ≤ 8 * suc n
      → word_at packet 1 + 8 * suc n < 65536
      → let d' = ucp_task b (ucp_decode b packet 8 d) in
        (eight d'.ucp.custom_report ≡ eight packet)
        × (host_data (suc n) d' ≡ reports_of (source (packet 5) d) (word_at packet 1) (suc n))
        × ((after_reports (suc n) d').ucp.ucp_state ≡ idle)
  read_session packet n d st cmd ty lo hi small =
      session packet n d _ (packet 5) (word_at packet 1) _ (open_read packet d st cmd) ty
        (omega arith) (omega arith) (omega arith)

  -- From the idle state, READ_PIN gives the host the sixteen bytes of the PIN's hash in two reports.
  pub read_pin_session :
      (packet : Bytes) (d : Device)
      → d.ucp.ucp_state ≡ idle
      → packet 0 ≡ Cmd.read_pin
      → b.lock_hash + 16 < 65536
      → let d' = ucp_task b (ucp_decode b packet 8 d) in
        (eight d'.ucp.custom_report ≡ eight packet)
        × (host_data 2 d' ≡ reports_of (λ o. from d.eeprom o) b.lock_hash 2)
        × ((after_reports 2 d').ucp.ucp_state ≡ idle)
  read_pin_session packet d st cmd small =
      session packet 1 d _ 2 b.lock_hash _ (open_read_pin packet d st cmd) (omega arith)
        (omega arith) (omega arith) (omega arith)
