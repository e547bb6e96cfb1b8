-- ===== src/Hfsplus/Attr/Order.antt =====
-- The order of encoded attribute keys in internal/hfsplus/attributes.go.
use go_dmg_writer.Base.{
  ℕ, zero, suc, ◌+◌, ◌*◌, ◌<◌, ◌≡◌, refl, sym, ap, ap₂, ◌∙◌, Option, take, drop, drop-drop, arith,
}
use go_dmg_writer.Base.Bytes.{Bytes, be16, be32, of_be, of_be-be32}
use go_dmg_writer.Hfsplus.Entry.{HfsName}
use go_dmg_writer.Hfsplus.Keys.{
  Sign, differ, or_rest, or_then, by_length, minimum, hfs_compare, uint16_at, uint32_at,
  encode_catalog_key, keys_loop, compare_catalog_keys,
}
use go_dmg_writer.Hfsplus.Keys.Agree.{IsName, compare_catalog_keys_lem}
use go_dmg_writer.Hfsplus.Attr.{encode_attr_key, attr_keys_loop, compare_attr_keys}

-- Behind the padding and the file, an attribute key is laid out as a catalog key.
key_rest : (f s : ℕ) (n : HfsName) → drop 6 (encode_attr_key f s n) ≡ encode_catalog_key s n
unfolding encode_attr_key encode_catalog_key be16 be32
key_rest f s n = refl

read_rest :
    (w at f s : ℕ) (n : HfsName)
    → of_be (take w (drop (6 + at) (encode_attr_key f s n)))
      ≡ of_be (take w (drop at (encode_catalog_key s n)))
read_rest w at f s n =
    ap (λ (b : Bytes). of_be (take w b))
      (sym (drop-drop 6 at (encode_attr_key f s n)) ∙ ap (drop at) (key_rest f s n))

loop_rest :
    (left i f g s t : ℕ) (n o : HfsName)
    → attr_keys_loop left i (encode_attr_key f s n) (encode_attr_key g t o)
      ≡ keys_loop left i (encode_catalog_key s n) (encode_catalog_key t o)
unfolding attr_keys_loop keys_loop
loop_rest zero i f g s t n o = refl
loop_rest (suc left) i f g s t n o =
    ap₂ or_rest
      (ap₂ differ
        (ap (λ (k : ℕ). uint16_at k (encode_attr_key f s n))
            (let e : 12 + i * 2 ≡ 6 + (6 + i * 2) = omega arith in e)
          ∙ read_rest 2 (6 + i * 2) f s n)
        (ap (λ (k : ℕ). uint16_at k (encode_attr_key g t o))
            (let e : 12 + i * 2 ≡ 6 + (6 + i * 2) = omega arith in e)
          ∙ read_rest 2 (6 + i * 2) g t o))
      (loop_rest left (i + 1) f g s t n o)

key_file : (f s : ℕ) (n : HfsName) → f < 4294967296 → uint32_at 2 (encode_attr_key f s n) ≡ f
unfolding encode_attr_key be16 be32
key_file f s n small = of_be-be32 f small

-- On keys encoded from files and start blocks below 2^32 and names of at most 255 units, the
-- comparison of the keys compares the files, under one file the start blocks, and then agrees with
-- the comparison of the names.
pub compare_attr_keys_lem :
    (f g s t : ℕ) (n o : HfsName)
    → f < 4294967296
    → g < 4294967296
    → s < 4294967296
    → t < 4294967296
    → IsName n
    → IsName o
    → compare_attr_keys (encode_attr_key f s n) (encode_attr_key g t o)
      ≡ or_then (differ f g) (or_then (differ s t) (hfs_compare n o))
unfolding compare_attr_keys compare_catalog_keys
compare_attr_keys_lem f g s t n o hf hg hs ht hn ho =
    let (a, b) : Bytes × Bytes = (encode_attr_key f s n, encode_attr_key g t o) in
    let (c, d) : Bytes × Bytes = (encode_catalog_key s n, encode_catalog_key t o) in
    let names =
      ap₂ (λ (la : ℕ) (lb : ℕ). by_length (attr_keys_loop (minimum la lb) 0 a b) la lb)
        (read_rest 2 4 f s n) (read_rest 2 4 g t o)
      ∙ ap (λ (x : Option Sign). by_length x (uint16_at 4 c) (uint16_at 4 d))
          (loop_rest (minimum (uint16_at 4 c) (uint16_at 4 d)) 0 f g s t n o) in
    let starts = ap₂ or_then (ap₂ differ (read_rest 4 0 f s n) (read_rest 4 0 g t o)) names in
    ap₂ or_then (ap₂ differ (key_file f s n hf) (key_file g t o hg))
      (starts ∙ compare_catalog_keys_lem s t n o hs ht hn ho)
