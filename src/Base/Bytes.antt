-- ===== src/Base/Bytes.antt =====
-- Byte slices as lists of numbers below 256, and the integers of encoding/binary in them.
use Prim.Native.Nat.{ℕ, ◌+◌, ◌*◌, ◌/◌, ◌%◌, ◌<◌}
use mathlib.Core.Path.{◌≡◌}
use mathlib.Core.List.{List, [], ◌∷◌}
use native.Mathlib.Omega.{arith}

abbrev pub Bytes : Type 0
Bytes = List ℕ

abbrev pub IsByte : ℕ → Type 0
IsByte b = b < 256

abbrev pub u8 : ℕ → ℕ
u8 n = n % 256

abbrev pub u16 : ℕ → ℕ
u16 n = n % 65536

abbrev pub u32 : ℕ → ℕ
u32 n = n % 4294967296

abbrev pub u64 : ℕ → ℕ
u64 n = n % 18446744073709551616

-- `BigEndian.PutUint16`, `PutUint32`, `PutUint64`: the bytes written.
unfoldable pub be16 : ℕ → Bytes
be16 v = (v / 256 % 256) ∷ (v % 256) ∷ []

unfoldable pub be32 : ℕ → Bytes
be32 v = (v / 16777216 % 256) ∷ (v / 65536 % 256) ∷ (v / 256 % 256) ∷ (v % 256) ∷ []

unfoldable pub be64 : ℕ → Bytes
be64 v =
    (v / 72057594037927936 % 256)
    ∷ (v / 281474976710656 % 256)
    ∷ (v / 1099511627776 % 256)
    ∷ (v / 4294967296 % 256)
    ∷ (v / 16777216 % 256)
    ∷ (v / 65536 % 256)
    ∷ (v / 256 % 256)
    ∷ (v % 256)
    ∷ []

-- The number that a byte string stands for, highest byte first; `acc` holds what was read.
unfoldable pub of_be_from : ℕ → Bytes → ℕ
of_be_from acc [] = acc
of_be_from acc (b ∷ bs) = of_be_from (acc * 256 + b) bs

unfoldable pub of_be : Bytes → ℕ
unfolding of_be_from
of_be bs = of_be_from 0 bs

pub of_be-be16 : (v : ℕ) → v < 65536 → of_be (be16 v) ≡ v
unfolding of_be be16
of_be-be16 v h = omega arith

pub of_be-be32 : (v : ℕ) → v < 4294967296 → of_be (be32 v) ≡ v
unfolding of_be be32
of_be-be32 v h = omega arith

pub of_be-be64 : (v : ℕ) → v < 18446744073709551616 → of_be (be64 v) ≡ v
unfolding of_be be64
of_be-be64 v h = omega arith
