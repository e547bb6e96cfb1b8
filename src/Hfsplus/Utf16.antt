-- ===== src/Hfsplus/Utf16.antt =====
-- `encodeUTF16` of internal/hfsplus/unicode.go. A rune is a number; a string of Go ranges over runes.
pub mod RoundTrip
mod Tests
use Prim.Native.Nat.{bit_or}
use go_dmg_writer.Base.{ℕ, ◌-◌, ◌/◌, ◌%◌, List, [], ◌∷◌, ◌++◌, ltb, if◌then◌else◌}
use go_dmg_writer.Base.Bytes.{u16}

-- The code units of one rune: itself, or a surrogate pair.
unfoldable pub units_of_rune : ℕ → List ℕ
units_of_rune r =
    if ltb r 0x10000
    then u16 r ∷ []
    else bit_or 0xd800 (u16 ((r - 0x10000) / 1024))
      ∷ bit_or 0xdc00 (u16 ((r - 0x10000) % 1024))
      ∷ []

-- `encodeUTF16`
unfoldable pub encode_utf16 : List ℕ → List ℕ
encode_utf16 [] = []
encode_utf16 (r ∷ rs) = units_of_rune r ++ encode_utf16 rs
