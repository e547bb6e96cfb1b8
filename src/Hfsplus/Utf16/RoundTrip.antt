-- ===== src/Hfsplus/Utf16/RoundTrip.antt =====
-- `encodeUTF16` of internal/hfsplus/unicode.go against a strict reader of UTF-16.
use Prim.Native.Nat.{bit_or}
use go_dmg_writer.Base.{
  ℕ, ◌+◌, ◌-◌, ◌*◌, ◌/◌, ◌%◌, ◌<◌, ◌≤◌, ◌≡◌, refl, Bool, true, ◌&&◌, ◌⊎◌, inl, inr, Bool-cases,
  List, [], ◌∷◌, ◌++◌, All, Option, none, some, Result, ok, err, ◌>>=◌, ltb, leb, ltb→lt, ◌==◌,
  ==_iff, if◌then◌else◌, arith,
}
use go_dmg_writer.Base.Below.{all_below, all_below-eq_true}
use go_dmg_writer.Base.Bytes.{u16}
use go_dmg_writer.Hfsplus.Utf16.{units_of_rune, encode_utf16}

-- A Unicode scalar value: a code point that is no surrogate.
abbrev pub IsScalar : ℕ → Type 0
IsScalar r = (r < 0xd800) ⊎ ((0xe000 ≤ r) × (r < 0x110000))

abbrev is_high : ℕ → Bool
is_high u = leb 0xd800 u && ltb u 0xdc00

abbrev is_low : ℕ → Bool
is_low u = leb 0xdc00 u && ltb u 0xe000

-- The errors of a reader: a surrogate without its partner.
pub data Utf16Error : Type 0 where
  lone_surrogate : ℕ → Utf16Error

-- One code unit behind a high surrogate, or behind none: the runes that are complete, and the high
-- surrogate that waits for a low one.
unfoldable pub read_unit : Option ℕ → ℕ → Result Utf16Error (List ℕ × Option ℕ)
read_unit none u =
    if is_high u
    then ok ([], some u)
    else if is_low u
    then err (lone_surrogate u)
    else ok (u ∷ [], none)
read_unit (some h) u =
    if is_low u
    then ok ((0x10000 + (h - 0xd800) * 1024 + (u - 0xdc00)) ∷ [], none)
    else err (lone_surrogate h)

-- The runes of the code units behind a high surrogate, or behind none.
unfoldable pub decode_utf16 : Option ℕ → List ℕ → Result Utf16Error (List ℕ)
unfolding read_unit
decode_utf16 none [] = ok []
decode_utf16 (some h) [] = err (lone_surrogate h)
decode_utf16 waiting (u ∷ us) =
    read_unit waiting u >>= λ (runes, next). decode_utf16 next us >>= λ rest. ok (runes ++ rest)

-- The mark of a surrogate and its ten bits are apart.
is_sum : ℕ → ℕ → Bool
is_sum mark x = bit_or mark x == mark + x

all_sums : (all_below 1024 (is_sum 0xd800) ≡ true) × (all_below 1024 (is_sum 0xdc00) ≡ true)
unfolding all_below is_sum
all_sums = (refl, refl)

high_mark : (x : ℕ) → x < 1024 → bit_or 0xd800 x ≡ 0xd800 + x
unfolding is_sum
high_mark x lt = (==_iff _ _).0 (all_below-eq_true (is_sum 0xd800) 1024 all_sums.0 x lt)

low_mark : (x : ℕ) → x < 1024 → bit_or 0xdc00 x ≡ 0xdc00 + x
unfolding is_sum
low_mark x lt = (==_iff _ _).0 (all_below-eq_true (is_sum 0xdc00) 1024 all_sums.1 x lt)

read_unit-plain : (r : ℕ) → IsScalar r → r < 0x10000 → read_unit none r ≡ ok (r ∷ [], none)
unfolding read_unit
read_unit-plain r (inl low) small = ground arith
read_unit-plain r (inr (above, in_range)) small = ground arith

read_unit-high : (x : ℕ) → x < 1024 → read_unit none (0xd800 + x) ≡ ok ([], some (0xd800 + x))
unfolding read_unit
read_unit-high x lt = ground arith

read_unit-low :
    (h x : ℕ)
    → x < 1024
    → read_unit (some h) (0xdc00 + x) ≡ ok ((0x10000 + (h - 0xd800) * 1024 + x) ∷ [], none)
unfolding read_unit
read_unit-low h x lt =
    let is_one : is_low (0xdc00 + x) ≡ true = ground arith in
    let same : 0xdc00 + x - 0xdc00 ≡ x = omega arith in rw (is_one, same) refl

-- What the units of one rune, put before others, are read as.
decode-units_of_rune :
    (r : ℕ) (us : List ℕ) {rs : List ℕ}
    → IsScalar r
    → decode_utf16 none us ≡ ok rs
    → decode_utf16 none (units_of_rune r ++ us) ≡ ok (r ∷ rs)
unfolding decode_utf16 units_of_rune
decode-units_of_rune r us scalar e = elim (Bool-cases (ltb r 0x10000)) [
  | inl small ↦
      let lt : r < 0x10000 = ltb→lt _ _ small in
      let whole : u16 r ≡ r = omega arith in rw (small, whole, read_unit-plain r scalar lt, e) refl
  | inr large ↦
      let x = r - 0x10000 in
      let ge : 0x10000 ≤ r = ground arith in
      let top : r < 0x110000 = ground arith in
      let high : u16 (x / 1024) ≡ x / 1024 = omega arith in
      let low : u16 (x % 1024) ≡ x % 1024 = omega arith in
      let back : 0x10000 + (0xd800 + x / 1024 - 0xd800) * 1024 + x % 1024 ≡ r = omega arith in
      rw
        (
          large,
          high,
          low,
          high_mark (x / 1024) (omega arith),
          low_mark (x % 1024) (omega arith),
          read_unit-high (x / 1024) (omega arith),
          read_unit-low (0xd800 + x / 1024) (x % 1024) (omega arith),
          e,
          back,
        )
        refl
]

-- A reader that refuses a surrogate without its partner gets from the code units of `encodeUTF16` the
-- runes of the string back, if each of them is a Unicode scalar value.
pub decode_utf16-encode_utf16 :
    (rs : List ℕ) → All IsScalar rs → decode_utf16 none (encode_utf16 rs) ≡ ok rs
unfolding decode_utf16 encode_utf16
decode_utf16-encode_utf16 [] scalar = refl
decode_utf16-encode_utf16 (r ∷ rs) scalar =
    decode-units_of_rune r (encode_utf16 rs) scalar.0 (decode_utf16-encode_utf16 rs scalar.1)
