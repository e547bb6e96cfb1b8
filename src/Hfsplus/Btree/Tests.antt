-- ===== src/Hfsplus/Btree/Tests.antt =====
-- Small trees: three records in nodes of 40 bytes, and their index.
use go_dmg_writer.Base.{ℕ, ◌≡◌, refl, List, [], ◌∷◌, some, ok, err, arith}
use go_dmg_writer.Base.Bytes.{Bytes}
use go_dmg_writer.Hfsplus.Btree.{
  Record, IdxRec, add_item, close_packing, pack_records, pack_leaves, index_levels, map_loop,
  map_bits_in_header_node, map_bits_in_map_node, record_too_large,
}
use go_dmg_writer.Hfsplus.Btree.Pack.{LeavesResult, pack_leaves_lem}
use go_dmg_writer.Hfsplus.Btree.Levels.{IsTower, index_levels-IsTower}
use go_dmg_writer.Hfsplus.Btree.MapNodes.{IsLeastMap, map_loop_lem}

abbrev record_of : ℕ → Record
record_of n = record { key = 0 ∷ n ∷ []; content = 1 ∷ 2 ∷ 3 ∷ 4 ∷ [] }

abbrev three : List Record
three = record_of 1 ∷ record_of 2 ∷ record_of 3 ∷ []

pack_leaves_lem_example : LeavesResult 40 three (pack_leaves three 40)
pack_leaves_lem_example = pack_leaves_lem three 40 (omega arith)

two_nodes : pack_leaves three 40 ≡ ok ((record_of 1 ∷ record_of 2 ∷ []) ∷ (record_of 3 ∷ []) ∷ [])
unfolding pack_leaves pack_records add_item close_packing
two_nodes = refl

one_too_large : pack_leaves three 25 ≡ err (record_too_large 8)
unfolding pack_leaves pack_records add_item close_packing
one_too_large = refl

abbrev four_keys : List Bytes
four_keys = (1 ∷ []) ∷ (2 ∷ []) ∷ (3 ∷ []) ∷ (4 ∷ []) ∷ []

index_levels-IsTower_example :
    (levels : List (List (List IdxRec))) × (index_levels 5 34 four_keys ≡ ok levels)
    × IsTower 34 four_keys levels
index_levels-IsTower_example =
    index_levels-IsTower 5 34 four_keys (omega arith)
      (omega arith, (omega arith, (omega arith, (omega arith, tt)))) (omega arith)

map_loop_lem_example :
    (r : ℕ × ℕ) × (map_loop 100001 2048 32000 0 100000 ≡ some r)
    × IsLeastMap 2048 32000 100000 r.0 r.1
map_loop_lem_example = map_loop_lem 2048 32000 100000 (omega arith) (omega arith)

map_bits : (map_bits_in_header_node 4096 ≡ 30720) × (map_bits_in_map_node 4096 ≡ 32624)
unfolding map_bits_in_header_node map_bits_in_map_node
map_bits = (refl, refl)
