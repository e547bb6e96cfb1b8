-- ===== src/Hfsplus/Btree/Pad/Tests.antt =====
-- A tree of one node grows to two.
use go_dmg_writer.Base.{[], ◌∷◌, replicate}
use go_dmg_writer.Wire.{at32, write_all}
use go_dmg_writer.Hfsplus.Btree.Emit.{BuildResult}

abbrev one_node : BuildResult
one_node = record {
  bytes = write_all (at32 36 1 ∷ []) (replicate 512 0);
  total_nodes = 1;
  tree_depth = 0;
  root_node = 0;
  first_leaf = 0;
  last_leaf = 0;
  leaf_records = 0;
  free_nodes = 0;
  map_coverage = 2048;
  opts = record {
    node_size = 512;
    attributes = 6;
    key_compare_type = 0xbc;
    btree_type = 0;
    max_key_length = 10;
    clump_size = 0;
  };
}
