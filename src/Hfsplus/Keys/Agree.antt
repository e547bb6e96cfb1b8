-- ===== src/Hfsplus/Keys/Agree.antt =====
-- internal/hfsplus/catalog.go and unicode.go: the order of encoded keys against the order of names.
use go_dmg_writer.Base.{
  ℕ, zero, suc, ◌+◌, ◌*◌, ◌≤◌, ◌<◌, ◌≡◌, refl, sym, ap, ap₂, ◌∙◌, List, [], ◌∷◌, All, Option,
  length, get_or, take, drop, drop-drop, arith,
}
use go_dmg_writer.Base.Bytes.{Bytes, be16, be32, of_be, u16, of_be-be16, of_be-be32}
use go_dmg_writer.Hfsplus.Entry.{HfsName}
use go_dmg_writer.Hfsplus.Keys.{
  Sign, unit_bytes, differ, or_rest, or_then, units_loop, by_length, minimum, hfs_compare,
  encode_catalog_key, uint16_at, uint32_at, keys_loop, compare_catalog_keys,
}

-- At most 255 code units of 16 bits.
pub record IsName (n : HfsName) : Type 0 where
  pub short : length n.units ≤ 255
  pub words : All (λ u. u < 65536) n.units

unit_at :
    (us : List ℕ) (i : ℕ)
    → i < length us
    → take 2 (drop (i * 2) (unit_bytes us)) ≡ be16 (get_or us i 0)
unfolding unit_bytes be16
unit_at [] i lt = absurd (omega arith)
unit_at (u ∷ us) zero lt = refl
unit_at (u ∷ us) (suc i) lt =
    let two : suc i * 2 ≡ suc (suc (i * 2)) = omega arith in rw two (unit_at us i (omega arith))

unit-lt : (us : List ℕ) (i : ℕ) → All (λ u. u < 65536) us → i < length us → get_or us i 0 < 65536
unit-lt [] i h lt = absurd (omega arith)
unit-lt (u ∷ us) zero h lt = h.0
unit-lt (u ∷ us) (suc i) h lt = unit-lt us i h.1 (omega arith)

-- What the readers find in an encoded key.
key_tail : (p : ℕ) (n : HfsName) → drop 6 (encode_catalog_key p n) ≡ unit_bytes n.units
unfolding encode_catalog_key be32 be16
key_tail p n = refl

key_unit :
    (p i : ℕ) (n : HfsName)
    → IsName n
    → i < length n.units
    → uint16_at (6 + i * 2) (encode_catalog_key p n) ≡ get_or n.units i 0
key_unit p i n ok_name lt =
    ap (λ (b : Bytes). of_be (take 2 b))
      (sym (drop-drop 6 (i * 2) (encode_catalog_key p n)) ∙ ap (drop (i * 2)) (key_tail p n))
    ∙ ap of_be (unit_at n.units i lt)
    ∙ of_be-be16 (get_or n.units i 0) (unit-lt n.units i ok_name.words lt)

key_length :
    (p : ℕ) (n : HfsName) → IsName n → uint16_at 4 (encode_catalog_key p n) ≡ length n.units
unfolding encode_catalog_key be32 be16
key_length p n ok_name =
    of_be-be16 (u16 (length n.units)) (omega arith) ∙ omega (arith, ok_name.short)

key_parent : (p : ℕ) (n : HfsName) → p < 4294967296 → uint32_at 0 (encode_catalog_key p n) ≡ p
unfolding encode_catalog_key be32
key_parent p n small = of_be-be32 p small

keys_loop-units_loop :
    (left i p q : ℕ) (n o : HfsName)
    → IsName n
    → IsName o
    → i + left ≤ length n.units
    → i + left ≤ length o.units
    → keys_loop left i (encode_catalog_key p n) (encode_catalog_key q o)
      ≡ units_loop left i n.units o.units
unfolding keys_loop units_loop
keys_loop-units_loop zero i p q n o hn ho ln lo = refl
keys_loop-units_loop (suc left) i p q n o hn ho ln lo =
    ap₂ or_rest (ap₂ differ (key_unit p i n hn (omega arith)) (key_unit q i o ho (omega arith)))
      (keys_loop-units_loop left (i + 1) p q n o hn ho (omega arith) (omega arith))

-- On keys encoded from parents below 2^32 and names of at most 255 units, the comparison of the
-- keys compares the parents, and under one parent it agrees with the comparison of the names.
pub compare_catalog_keys_lem :
    (p q : ℕ) (n o : HfsName)
    → p < 4294967296
    → q < 4294967296
    → IsName n
    → IsName o
    → compare_catalog_keys (encode_catalog_key p n) (encode_catalog_key q o)
      ≡ or_then (differ p q) (hfs_compare n o)
unfolding compare_catalog_keys hfs_compare
compare_catalog_keys_lem p q n o hp hq hn ho =
    ap₂ or_then (ap₂ differ (key_parent p n hp) (key_parent q o hq)) (
      ap₂
        (λ (la : ℕ) (lb : ℕ).
          by_length (keys_loop (minimum la lb) 0 (encode_catalog_key p n) (encode_catalog_key q o))
            la lb)
        (key_length p n hn) (key_length q o ho)
      ∙ ap (λ (f : Option Sign). by_length f (length n.units) (length o.units))
          (keys_loop-units_loop (minimum (length n.units) (length o.units)) 0 p q n o hn ho
            (ground arith) (ground arith)))
