-- ===== src/Base/Arrays.antt =====
-- Memory and C arrays: the content at each index. A write names the index that the code names;
-- that it lies inside the array is a theorem where it matters.
use Prim.Native.Nat.{ℕ, suc, ◌+◌, ◌-◌, ◌*◌, ◌%◌}
use mathlib.Core.Bool.{◌&&◌}
use mathlib.Core.List.{List, [], ◌∷◌}
use memtype.Base.Tests.{ltb, leb, ◌==◌, if◌then◌else◌}

abbrev pub Bytes : Type 0
Bytes = ℕ → ℕ

abbrev pub update {ℓ} : {A : Type ℓ} → (ℕ → A) → ℕ → A → ℕ → A
update f i v j = if j == i then v else f j

-- The number of elements.
abbrev pub length {ℓ} : {A : Type ℓ} → List A → ℕ
length [] = 0
length (x ∷ xs) = suc (length xs)

-- memcpy(dst + at, src, n)
abbrev pub blit : Bytes → ℕ → ℕ → Bytes → Bytes
blit dst at n src j = if leb at j && ltb j (at + n) then src (j - at) else dst j

-- `uint8_t` and `uint16_t` sums.
abbrev pub add8 : ℕ → ℕ → ℕ
add8 a b = (a + b) % 256

abbrev pub add16 : ℕ → ℕ → ℕ
add16 a b = (a + b) % 65536

-- The bytes from a 16-bit address on.
abbrev pub from : Bytes → ℕ → Bytes
from m a i = m (add16 a i)

-- *(uint16_t*)&m[i], little-endian.
abbrev pub word_at : Bytes → ℕ → ℕ
word_at m i = m i + 256 * m (i + 1)
