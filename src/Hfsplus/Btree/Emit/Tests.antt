-- ===== src/Hfsplus/Btree/Emit/Tests.antt =====
-- A tree of one leaf in nodes of 512 bytes.
use go_dmg_writer.Base.{ℕ, ◌*◌, ◌≤◌, ◌≡◌, refl, List, [], ◌∷◌, All, ok, length, arith}
use go_dmg_writer.Wire.{Found}
use go_dmg_writer.Hfsplus.Btree.{
  Record, pack_leaves, pack_records, add_item, close_packing, index_levels,
}
use go_dmg_writer.Hfsplus.Btree.Nodes.{
  NodeDescriptor, leaf_node, descriptor_fields, write_records_node,
}
use go_dmg_writer.Hfsplus.Btree.Nodes.ReadBack.{read_node_records, write_records_node_lem}
use go_dmg_writer.Hfsplus.Btree.Emit.{BuildOpts, BuildResult, build_tree}
use go_dmg_writer.Hfsplus.Btree.Emit.Chain.{read_chain}
use go_dmg_writer.Hfsplus.Btree.Emit.Built.{IsNodeSize, build_tree-read_chain}

abbrev record_of : ℕ → Record
record_of n = record { key = 0 ∷ n ∷ []; content = 1 ∷ 2 ∷ 3 ∷ 4 ∷ [] }

abbrev two_records : List Record
two_records = record_of 2 ∷ record_of 3 ∷ []

abbrev a_descriptor : NodeDescriptor
a_descriptor = record {
  flink = 7;
  blink = 0;
  kind = leaf_node;
  height = 1;
  num_records = 3;
  reserved = 0;
}

abbrev small_opts : BuildOpts
small_opts = record {
  node_size = 512;
  attributes = 6;
  key_compare_type = 0xbc;
  btree_type = 0;
  max_key_length = 516;
  clump_size = 0;
}

write_records_node_lem_example :
    (length (write_records_node 512 a_descriptor two_records) ≡ 512)
    × All (Found (write_records_node 512 a_descriptor two_records)) (descriptor_fields a_descriptor)
    × (read_node_records 512 2 0 (write_records_node 512 a_descriptor two_records) ≡ two_records)
write_records_node_lem_example =
    write_records_node_lem 512 a_descriptor two_records
      (omega arith, (omega arith, (omega arith, (omega arith, (omega arith, (omega arith, tt))))))
      (omega arith) (omega arith)

small_opts-IsNodeSize : IsNodeSize 512
small_opts-IsNodeSize = record { power = refl; big = omega arith; word = omega arith }

build_tree-read_chain_example :
    (tree : BuildResult) × (build_tree two_records small_opts ≡ ok tree)
    × (2 ≤ tree.total_nodes)
    × (length tree.bytes ≡ tree.total_nodes * 512)
    × (read_chain 1 512 tree.first_leaf tree.bytes ≡ two_records)
unfolding pack_leaves pack_records add_item close_packing index_levels
build_tree-read_chain_example =
    build_tree-read_chain small_opts small_opts-IsNodeSize two_records two_records [] [] refl refl
      (omega arith)
