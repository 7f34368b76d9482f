-- ===== src/Tests/Protocol.antt =====
-- Sessions of the protocol at concrete inputs.
use memtype.Base.{ℕ, ◌+◌, ◌≡◌, refl, Bytes, [], ◌∷◌, ltb, if◌then◌else◌, done, arith}
use memtype.State.{Device, idle}
use memtype.Fls.Page.{IsBytes}
use memtype.Fls.Write.{written}
use memtype.Crd.Eos.{Text}
use memtype.Ucp.Task.{ucp_task}
use memtype.Ucp.Decode.{ucp_decode}
use memtype.Ucp.Read.{eight, reports_of, host_data, after_reports, source, read_session}
use memtype.Ucp.Write.Store.{Fits}
use memtype.Ucp.Write.Session.{send_packets, job, write_session}
use memtype.Tests.Fixture.{packet_of, test_board, fresh}

abbrev read_packet : Bytes
read_packet = packet_of (2 ∷ 8 ∷ 0 ∷ 20 ∷ 0 ∷ 0 ∷ [])

abbrev write_packet : Bytes
write_packet = packet_of (3 ∷ 0 ∷ 0 ∷ 10 ∷ 0 ∷ [])

read_session_example :
    let d' = ucp_task test_board (ucp_decode test_board read_packet 8 fresh) in
    (eight d'.ucp.custom_report ≡ eight read_packet)
    × (host_data test_board 3 d' ≡ reports_of (source test_board 0 fresh) 8 3)
    × ((after_reports test_board 3 d').ucp.ucp_state ≡ idle)
read_session_example =
    read_session test_board read_packet 2 fresh refl refl (omega arith) (omega arith) (omega arith)
      (omega arith)

-- "Site" with its NUL, and what follows.
abbrev site : Bytes
site i = if ltb i 4 then b'S' + i else 0

site-IsBytes : IsBytes site
site-IsBytes j = ground arith

fresh-IsBytes : IsBytes (λ (i : ℕ). 0)
fresh-IsBytes j = omega arith

site-Fits : Fits (job test_board write_packet site fresh)
site-Fits = record { offsets = omega arith; addresses = omega arith; bytes = site-IsBytes }

site-Text : Text (written fresh.flash site 1024 10) 1024 4
site-Text = record { inside = omega arith; nul = refl; characters = λ i h. ground arith }

write_session_example :
    (d' : Device) × (send_packets test_board 2 0 site (ucp_decode test_board write_packet 8 fresh)
      ≡ done d')
    × ((j : ℕ) → d'.flash j ≡ written fresh.flash site 1024 10 j)
    × (d'.ucp.ucp_state ≡ idle)
    × (d'.ucp.usb_write ≡ 0)
    × (d'.crd.credential.name ≡ 1024)
write_session_example =
    write_session test_board write_packet site 1 4 fresh refl refl fresh-IsBytes fresh-IsBytes refl
      site-Fits (omega arith) (omega arith) site-Text
