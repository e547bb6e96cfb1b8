-- ===== src/Hfsplus/Keys.antt =====
-- The order of names and of catalog keys: `HFSCompare` of internal/hfsplus/unicode.go, and
-- `encodeCatalogKey` and `compareCatalogKeys` of internal/hfsplus/catalog.go.
mod Tests
pub mod Agree
pub mod Lexicographic
use go_dmg_writer.Base.{
  ℕ, zero, suc, ◌+◌, ◌-◌, ◌*◌, Bool, true, false, ◌||◌, List, [], ◌∷◌, ◌++◌, Option, none, some,
  ltb, leb, if◌then◌else◌, length, get_or, take, drop,
}
use go_dmg_writer.Base.Bytes.{Bytes, be16, be32, of_be, u16}
use go_dmg_writer.Hfsplus.Entry.{HfsName}

-- The results -1, 0 and 1 of a comparison.
pub data Sign : Type 0 where
  less same more : Sign

-- `HFSName.Bytes`
unfoldable pub unit_bytes : List ℕ → Bytes
unit_bytes [] = []
unit_bytes (u ∷ us) = be16 u ++ unit_bytes us

-- `HFSName.IsASCII`
unfoldable pub is_ascii : List ℕ → Bool
is_ascii [] = true
is_ascii (u ∷ us) = let rest = is_ascii us in if ltb u 0x20 || leb 0x7f u then false else rest

-- `TextEncodingHint`
unfoldable pub text_encoding_hint : HfsName → ℕ
text_encoding_hint n = if is_ascii n.units then 0 else 0x7f

-- The comparison of two numbers in both functions; `none` goes on.
abbrev pub differ : ℕ → ℕ → Option Sign
differ a b = if ltb a b then some less else if ltb b a then some more else none

-- A difference that ends a loop, or what the rest of the loop finds.
abbrev pub or_rest : Option Sign → Option Sign → Option Sign
or_rest none rest = rest
or_rest (some s) rest = some s

-- A difference, or what the code returns behind it.
abbrev pub or_then : Option Sign → Sign → Sign
or_then none s = s
or_then (some d) s = d

-- The loop of `HFSCompare` from index `i` on, with `left` rounds to go.
unfoldable pub units_loop : ℕ → ℕ → List ℕ → List ℕ → Option Sign
units_loop zero i a b = none
units_loop (suc left) i a b =
    let rest = units_loop left (i + 1) a b in or_rest (differ (get_or a i 0) (get_or b i 0)) rest

-- The last switch of both functions, if the loop has found no difference.
abbrev pub by_length : Option Sign → ℕ → ℕ → Sign
by_length found la lb = or_then found (or_then (differ la lb) same)

abbrev pub minimum : ℕ → ℕ → ℕ
minimum la lb = if ltb lb la then lb else la

unfoldable pub hfs_compare : HfsName → HfsName → Sign
unfolding units_loop
hfs_compare n o =
    let la = length n.units in
    let lb = length o.units in by_length (units_loop (minimum la lb) 0 n.units o.units) la lb

unfoldable pub encode_catalog_key : ℕ → HfsName → Bytes
encode_catalog_key parent_id name =
    be32 parent_id ++ be16 (u16 (length name.units)) ++ unit_bytes name.units

-- `binary.BigEndian.Uint16` and `Uint32` at an offset. The code panics on a key that ends before,
-- which no encoded key does.
abbrev pub uint16_at : ℕ → Bytes → ℕ
uint16_at at b = of_be (take 2 (drop at b))

abbrev pub uint32_at : ℕ → Bytes → ℕ
uint32_at at b = of_be (take 4 (drop at b))

unfoldable pub keys_loop : ℕ → ℕ → Bytes → Bytes → Option Sign
keys_loop zero i a b = none
keys_loop (suc left) i a b =
    let rest = keys_loop left (i + 1) a b in
    or_rest (differ (uint16_at (6 + i * 2) a) (uint16_at (6 + i * 2) b)) rest

unfoldable pub compare_catalog_keys : Bytes → Bytes → Sign
compare_catalog_keys a b =
    let la = uint16_at 4 a in
    let lb = uint16_at 4 b in
    let names = by_length (keys_loop (minimum la lb) 0 a b) la lb in
    or_then (differ (uint32_at 0 a) (uint32_at 0 b)) names
