-- ===== src/Tests/Flash.antt =====
-- The flash writer at a concrete input.
use memtype.Base.{ℕ, ◌+◌, ◌≡◌, some, ltb, if◌then◌else◌, Bytes, arith}
use memtype.Fls.{fls_write}
use memtype.Fls.Page.{IsBytes}
use memtype.Fls.Write.{written, fls_write_lem}
use memtype.Tests.Fixture.{data_sheet}

abbrev erased : Bytes
erased i = 255

abbrev letters : Bytes
letters i = if ltb i 26 then b'a' + i else 0

erased-IsBytes : IsBytes erased
erased-IsBytes j = omega arith

letters-IsBytes : IsBytes letters
letters-IsBytes j = ground arith

-- Twenty bytes over the end of a page.
fls_write_lem_example :
    (f' : Bytes) × (fls_write data_sheet erased letters 1080 20 ≡ some f')
    × IsBytes f'
    × ((j : ℕ) → f' j ≡ written erased letters 1080 20 j)
fls_write_lem_example =
    fls_write_lem data_sheet 1080 20 (omega arith) (omega arith) letters-IsBytes erased
      erased-IsBytes
