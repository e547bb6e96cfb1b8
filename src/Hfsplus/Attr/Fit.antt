-- ===== src/Hfsplus/Attr/Fit.antt =====
-- The records that `buildAttrRecords` of internal/hfsplus/attributes.go makes fit the nodes of the
-- attributes tree, and hold the data.
use mathlib.Core.Path.{subst}
use go_dmg_writer.Base.{
  ℕ, ◌+◌, ◌*◌, ◌%◌, ◌≤◌, ◌<◌, ◌≡◌, refl, ap, ◌∙◌, List, [], ◌∷◌, Option, ltb, le→leb, length, ok,
  ok-injective, bind-ok, refuse_if-ok, ltb-false, arith,
}
use go_dmg_writer.Base.Bytes.{Bytes, be16, be32}
use go_dmg_writer.Wire.{uint_at, slice}
use go_dmg_writer.Wire.Laws.{encode-Found}
use go_dmg_writer.Hfsplus.Btree.{Record, record_size, node_descriptor_size}
use go_dmg_writer.Hfsplus.Entry.{HfsName}
use go_dmg_writer.Hfsplus.Records.Read.{length-unit_bytes}
use go_dmg_writer.Hfsplus.Attr.{
  Attr, attributes_node_size, max_attr_name_runes, max_inline_attr_data, encode_attr_key,
  inline_fields, inline_size, encode_inline_attr_data, attr_name_too_long, attr_too_large,
  or_attr_name, attr_record, build_attr_records,
}

-- The record of an attribute fits a node, ends at an even offset, and its data can be read back.
pub record IsAttrRecord (a : Attr) (r : Record) : Type 0 where
  pub fits : record_size r + node_descriptor_size + 2 ≤ attributes_node_size
  pub key_short : length r.key ≤ 266
  pub even : length r.content % 2 ≡ 0
  pub kind : uint_at 4 0 r.content ≡ 0x10
  pub size : uint_at 4 12 r.content ≡ length a.content
  pub data_found : slice 16 (length a.content) r.content ≡ a.content

length-encode_attr_key :
    (f s : ℕ) (n : HfsName) → length (encode_attr_key f s n) ≡ 12 + length n.units * 2
unfolding encode_attr_key be16 be32
length-encode_attr_key f s n = omega (arith, length-unit_bytes n.units)

inline_size-even : (n : ℕ) → inline_size n % 2 ≡ 0
inline_size-even n = ground arith

inline_size-bounds : (n : ℕ) → (16 + n ≤ inline_size n) × (inline_size n ≤ 17 + n)
inline_size-bounds n = ground arith

inline_found :
    (content : Bytes)
    → length content < 4294967296
    → (length (encode_inline_attr_data content) ≡ inline_size (length content))
      × (uint_at 4 0 (encode_inline_attr_data content) ≡ 0x10)
      × (uint_at 4 12 (encode_inline_attr_data content) ≡ length content)
      × (slice 16 (length content) (encode_inline_attr_data content) ≡ content)
unfolding encode_inline_attr_data
inline_found content small =
    let n = inline_size (length content) in
    let (len, (kind, (size, (found, _)))) =
      encode-Found n (inline_fields content) (le→leb _ _ (inline_size-bounds (length content)).0)
        (omega arith, (omega arith, (refl, tt))) in
    (len, kind, size ∙ omega arith, found)

IsAttrRecord-encoded :
    (a : Attr) (name : HfsName)
    → length name.units ≤ max_attr_name_runes
    → length a.content ≤ max_inline_attr_data attributes_node_size
    → IsAttrRecord a (record {
      key = encode_attr_key a.file_id 0 name;
      content = encode_inline_attr_data a.content;
    })
IsAttrRecord-encoded a name short small =
    let (len, kind, size, found) = inline_found a.content (omega arith) in
    let key_len = length-encode_attr_key a.file_id 0 name in
    let even = inline_size-even (length a.content) in
    let bounds = (inline_size-bounds (length a.content)).1 in
    record {
      fits = omega (arith, len, key_len, short, small, even, bounds);
      key_short = omega (arith, key_len, short);
      even = ap (λ (n : ℕ). n % 2) len ∙ even;
      kind = kind;
      size = size;
      data_found = found;
    }

-- The attributes and the records that are made of them, one by one.
abbrev pub AreAttrRecords : List Attr → List Record → Type 0
AreAttrRecords [] [] = Unit {0}
AreAttrRecords [] (r ∷ rs) = ⊥
AreAttrRecords (a ∷ attrs) [] = ⊥
AreAttrRecords (a ∷ attrs) (r ∷ rs) = IsAttrRecord a r × AreAttrRecords attrs rs

module _ (new_name : Bytes → Option HfsName) where
  attr_record-IsAttrRecord :
      (a : Attr) {r : Record} → attr_record new_name a ≡ ok r → IsAttrRecord a r
  unfolding attr_record
  attr_record-IsAttrRecord a done =
      let (name, named, rest) = bind-ok (or_attr_name a.name (new_name a.name)) _ done in
      let (short, rest') =
        refuse_if-ok (ltb max_attr_name_runes (length name.units)) (attr_name_too_long a.name) _
          rest in
      let (small, last) =
        refuse_if-ok (ltb (max_inline_attr_data attributes_node_size) (length a.content))
          (attr_too_large a.name a.file_id (length a.content)) _ rest' in
      subst (IsAttrRecord a) (ok-injective last)
        (IsAttrRecord-encoded a name (ltb-false _ _ short) (ltb-false _ _ small))

  -- `buildAttrRecords` returns one record for each attribute, in their order. Each takes no more than
  -- a node of the attributes tree has room for, so that the tree does not refuse it, its key has at
  -- most the 266 bytes that the tree's header announces, its length is even, and a reader finds in it
  -- the kind of an inline record, the number of data bytes, and the data.
  pub build_attr_records-AreAttrRecords :
      (attrs : List Attr) {rs : List Record}
      → build_attr_records new_name attrs ≡ ok rs
      → AreAttrRecords attrs rs
  unfolding build_attr_records
  build_attr_records-AreAttrRecords [] done = subst (AreAttrRecords []) (ok-injective done) tt
  build_attr_records-AreAttrRecords (a ∷ attrs) done =
      let (r, first, rest) = bind-ok (attr_record new_name a) _ done in
      let (rs, others, last) = bind-ok (build_attr_records new_name attrs) _ rest in
      subst (AreAttrRecords (a ∷ attrs)) (ok-injective last)
        (attr_record-IsAttrRecord a first, build_attr_records-AreAttrRecords attrs others)
