-- ===== src/Hfsplus/Attr.antt =====
-- The extended attributes of internal/hfsplus/attributes.go: keys, inline records, and their order.
-- `NewName` is an argument.
pub mod Fit
pub mod Order
mod Tests
use go_dmg_writer.Base.{
  ℕ, zero, suc, ◌+◌, ◌-◌, ◌*◌, ◌%◌, Bool, true, false, List, [], ◌∷◌, ◌++◌, Option, none, some, ltb,
  ◌==◌, if◌then◌else◌, length, replicate, Result, ok, err, ◌>>=◌, ◌>>◌, refuse_if,
}
use go_dmg_writer.Base.Bytes.{Bytes, be16, be32, u16, u32}
use go_dmg_writer.Wire.{Field, at32, raw, encode}
use go_dmg_writer.Hfsplus.Btree.{Record}
use go_dmg_writer.Hfsplus.Entry.{HfsName}
use go_dmg_writer.Hfsplus.Keys.{
  Sign, unit_bytes, differ, or_rest, or_then, by_length, minimum, uint16_at, uint32_at,
}

-- `name` is the UTF-8 string.
pub record Attr : Type 0 where
  pub file_id : ℕ
  pub name : Bytes
  pub content : Bytes

abbrev pub attributes_node_size : ℕ
attributes_node_size = 8192

abbrev pub max_attr_name_runes : ℕ
max_attr_name_runes = 127

-- `maxInlineAttrData`, in int; every node size of the code is above what is taken off.
abbrev pub max_inline_attr_data : ℕ → ℕ
max_inline_attr_data node_size = node_size - 14 - 2 - 2 - (2 + 266 + 16)

-- `encodeAttrKey`
unfoldable pub encode_attr_key : ℕ → ℕ → HfsName → Bytes
encode_attr_key file_id start_block name =
    be16 0
    ++ be32 file_id
    ++ be32 start_block
    ++ be16 (u16 (length name.units))
    ++ unit_bytes name.units

-- The loop of `compareAttrKeys` over the code units.
unfoldable pub attr_keys_loop : ℕ → ℕ → Bytes → Bytes → Option Sign
attr_keys_loop zero i a b = none
attr_keys_loop (suc left) i a b =
    let rest = attr_keys_loop left (i + 1) a b in
    or_rest (differ (uint16_at (12 + i * 2) a) (uint16_at (12 + i * 2) b)) rest

-- `compareAttrKeys`
unfoldable pub compare_attr_keys : Bytes → Bytes → Sign
unfolding attr_keys_loop
compare_attr_keys a b =
    let la = uint16_at 10 a in
    let lb = uint16_at 10 b in
    let names = by_length (attr_keys_loop (minimum la lb) 0 a b) la lb in
    let starts = or_then (differ (uint32_at 6 a) (uint32_at 6 b)) names in
    or_then (differ (uint32_at 2 a) (uint32_at 2 b)) starts

abbrev pub inline_fields : Bytes → List Field
inline_fields content =
    at32 0 0x10 ∷ at32 12 (u32 (length content)) ∷ raw 16 (length content) content ∷ []

-- The size of an inline record: the header and the data, made even.
abbrev pub inline_size : ℕ → ℕ
inline_size n = if (16 + n) % 2 == 0 then 16 + n else 16 + n + 1

-- `encodeInlineAttrData`
unfoldable pub encode_inline_attr_data : Bytes → Bytes
encode_inline_attr_data content = encode (inline_size (length content)) (inline_fields content)

pub data AttrError : Type 0 where
  attr_name : Bytes → AttrError
  attr_name_too_long : Bytes → AttrError
  attr_too_large : Bytes → ℕ → ℕ → AttrError

abbrev pub or_attr_name : Bytes → Option HfsName → Result AttrError HfsName
or_attr_name s none = err (attr_name s)
or_attr_name s (some name) = ok name

module _ (new_name : Bytes → Option HfsName) where
  -- The body of the loop of `buildAttrRecords`.
  unfoldable pub attr_record : Attr → Result AttrError Record
  attr_record a = do
    name ← or_attr_name a.name (new_name a.name)
    refuse_if (ltb max_attr_name_runes (length name.units)) (attr_name_too_long a.name)
    refuse_if (ltb (max_inline_attr_data attributes_node_size) (length a.content))
        (attr_too_large a.name a.file_id (length a.content))
    ok (record {
      key = encode_attr_key a.file_id 0 name;
      content = encode_inline_attr_data a.content;
    })

  -- `buildAttrRecords`
  unfoldable pub build_attr_records : List Attr → Result AttrError (List Record)
  unfolding attr_record
  build_attr_records [] = ok []
  build_attr_records (a ∷ attrs) =
      attr_record a >>= λ r. build_attr_records attrs >>= λ rs. ok (r ∷ rs)
