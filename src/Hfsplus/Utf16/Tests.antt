-- ===== src/Hfsplus/Utf16/Tests.antt =====
-- A letter and an emoji.
use go_dmg_writer.Base.{ℕ, ◌≡◌, refl, inl, inr, List, [], ◌∷◌, none, ok, arith}
use go_dmg_writer.Hfsplus.Utf16.{units_of_rune, encode_utf16}
use go_dmg_writer.Hfsplus.Utf16.RoundTrip.{decode_utf16, decode_utf16-encode_utf16}

abbrev two_runes : List ℕ
two_runes = 0x61 ∷ 0x1f600 ∷ []

three_units : encode_utf16 two_runes ≡ 0x61 ∷ 0xd83d ∷ 0xde00 ∷ []
unfolding encode_utf16 units_of_rune
three_units = refl

decode_utf16-encode_utf16_example : decode_utf16 none (encode_utf16 two_runes) ≡ ok two_runes
decode_utf16-encode_utf16_example =
    decode_utf16-encode_utf16 two_runes (inl (omega arith), (inr (omega arith, omega arith), tt))
