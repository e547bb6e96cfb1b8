-- ===== src/Hfsplus/Attr/Tests.antt =====
-- The records of two attributes, one with data of an odd length.
use go_dmg_writer.Base.{ℕ, ◌≡◌, refl, List, [], ◌∷◌, Option, some, arith}
use go_dmg_writer.Base.Bytes.{Bytes}
use go_dmg_writer.Hfsplus.Entry.{HfsName}
use go_dmg_writer.Hfsplus.Keys.{or_then, differ, hfs_compare}
use go_dmg_writer.Hfsplus.Btree.{Record}
use go_dmg_writer.Hfsplus.Attr.{
  Attr, encode_attr_key, encode_inline_attr_data, compare_attr_keys, attr_record,
  build_attr_records,
}
use go_dmg_writer.Hfsplus.Attr.Order.{compare_attr_keys_lem}
use go_dmg_writer.Hfsplus.Attr.Fit.{AreAttrRecords, build_attr_records-AreAttrRecords}

abbrev as_units : Bytes → Option HfsName
as_units s = some (record { units = s })

abbrev an_attr : ℕ → List ℕ → Bytes → Attr
an_attr id name content = record { file_id = id; name = name; content = content }

abbrev two_attrs : List Attr
two_attrs = an_attr 16 (97 ∷ []) (1 ∷ 2 ∷ 3 ∷ []) ∷ an_attr 17 (97 ∷ 98 ∷ []) [] ∷ []

abbrev two_records : List Record
two_records =
    record {
      key = encode_attr_key 16 0 (record { units = 97 ∷ [] });
      content = encode_inline_attr_data (1 ∷ 2 ∷ 3 ∷ []);
    }
    ∷ record {
      key = encode_attr_key 17 0 (record { units = 97 ∷ 98 ∷ [] });
      content = encode_inline_attr_data [];
    }
    ∷ []

build_attr_records-AreAttrRecords_example : AreAttrRecords two_attrs two_records
unfolding build_attr_records attr_record
build_attr_records-AreAttrRecords_example =
    build_attr_records-AreAttrRecords as_units two_attrs refl

abbrev one_name : HfsName
one_name = record { units = 97 ∷ [] }

abbrev other_name : HfsName
other_name = record { units = 97 ∷ 98 ∷ [] }

compare_attr_keys_lem_example :
    compare_attr_keys (encode_attr_key 16 0 one_name) (encode_attr_key 16 0 other_name)
    ≡ or_then (differ 16 16) (or_then (differ 0 0) (hfs_compare one_name other_name))
compare_attr_keys_lem_example =
    compare_attr_keys_lem 16 16 0 0 one_name other_name (omega arith) (omega arith) (omega arith)
      (omega arith) (record { short = omega arith; words = (omega arith, tt) })
      (record { short = omega arith; words = (omega arith, (omega arith, tt)) })
