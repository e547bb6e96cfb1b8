-- ===== src/Hfsplus/Btree/Emit.antt =====
-- The last steps of `BuildTree` in internal/hfsplus/btree.go: the numbers of the nodes, the links between
-- them, and the image of the tree; with the steps before them, `BuildTree` itself.
pub mod Rows
pub mod Chain
pub mod Built
mod Tests
use Prim.Native.Nat.{bit_and}
use mathlib.Core.Bool.{not}
use go_dmg_writer.Base.{
  ℕ, zero, suc, ◌+◌, ◌-◌, ◌*◌, Bool, true, false, List, [], ◌∷◌, ◌++◌, Option, none, some, map, ltb,
  ◌==◌, if◌then◌else◌, length, get_or, replicate, Result, ok, err, ◌>>=◌, ◌>>◌, refuse_if,
}
use go_dmg_writer.Base.Bytes.{Bytes, u8, u16, u32, be32}
use go_dmg_writer.Wire.{Field, raw, encode}
use go_dmg_writer.Hfsplus.Btree.{
  Record, IdxRec, TreeError, zero_node_size, not_power_of_two, node_size_too_small, no_fuel,
  is_empty, pack_leaves, first_leaf_key, index_levels, map_bits_in_header_node,
  map_bits_in_map_node, map_loop,
}
use go_dmg_writer.Hfsplus.Btree.Nodes.{
  NodeKind, leaf_node, index_node, NodeDescriptor, HeaderRec, write_records_node, emit_header_node,
  emit_map_node,
}

pub record BuildOpts : Type 0 where
  pub node_size : ℕ
  pub attributes : ℕ
  pub key_compare_type : ℕ
  pub btree_type : ℕ
  pub max_key_length : ℕ
  pub clump_size : ℕ

pub record BuildResult : Type 0 where
  pub bytes : Bytes
  pub total_nodes : ℕ
  pub tree_depth : ℕ
  pub root_node : ℕ
  pub first_leaf : ℕ
  pub last_leaf : ℕ
  pub leaf_records : ℕ
  pub free_nodes : ℕ
  pub map_coverage : ℕ
  pub opts : BuildOpts

-- The numbers of the nodes of a level, from `next` on.
unfoldable pub assign : ℕ → ℕ → List ℕ
assign zero next = []
assign (suc count) next = next ∷ assign count (u32 (next + 1))

-- An index record as `writeRecordsNode` takes it; `assigned` are the numbers of the level below. The
-- code panics on an index out of range, which no index record has.
abbrev pub resolve : List ℕ → IdxRec → Record
resolve assigned r = record { key = r.key; content = be32 (get_or assigned r.child_idx 0) }

-- The descriptor of the node at index `i` of a level.
abbrev pub level_descriptor : NodeKind → ℕ → List ℕ → ℕ → List Record → NodeDescriptor
level_descriptor kind height assigned i recs = record {
  flink = if ltb (i + 1) (length assigned) then get_or assigned (i + 1) 0 else 0;
  blink = if ltb 0 i then get_or assigned (i - 1) 0 else 0;
  kind = kind;
  height = height;
  num_records = u16 (length recs);
  reserved = 0;
}

-- The nodes of a level, from index `i` on, each at its place in the image.
unfoldable pub level_pieces : ℕ → NodeKind → ℕ → List ℕ → ℕ → List (List Record) → List Field
level_pieces node_size kind height assigned i [] = []
level_pieces node_size kind height assigned i (recs ∷ rest) =
    raw (get_or assigned i 0 * node_size) node_size
      (write_records_node node_size (level_descriptor kind height assigned i recs) recs)
    ∷ level_pieces node_size kind height assigned (i + 1) rest

-- The index levels, lowest first; `child` are the numbers of the level below, `next` is the first
-- number that is free.
unfoldable pub index_pieces : ℕ → ℕ → List ℕ → ℕ → List (List (List IdxRec)) → List Field
unfolding assign level_pieces
index_pieces node_size height child next [] = []
index_pieces node_size height child next (idx ∷ levels) =
    let assigned = assign (length idx) next in
    level_pieces node_size index_node (u8 height) assigned 0 (map (map (resolve child)) idx)
    ++ index_pieces node_size (height + 1) assigned (u32 (next + length idx)) levels

-- The map nodes, from index `i` on with `left` to go.
unfoldable pub map_pieces : ℕ → ℕ → ℕ → ℕ → ℕ → List Field
map_pieces node_size zero i map_nodes total = []
map_pieces node_size (suc left) i map_nodes total =
    let next : ℕ = if ltb (i + 1) map_nodes then 1 + i + 1 else 0 in
    let first_bit = u32 (map_bits_in_header_node node_size + i * map_bits_in_map_node node_size) in
    raw ((1 + i) * node_size) node_size (emit_map_node node_size next first_bit total)
    ∷ map_pieces node_size left (i + 1) map_nodes total

-- The number of the root, from the numbers of the level below the levels that are left.
unfoldable pub root_number : List ℕ → ℕ → List (List (List IdxRec)) → ℕ
unfolding assign
root_number assigned next [] = get_or assigned 0 0
root_number assigned next (idx ∷ levels) =
    root_number (assign (length idx) next) (u32 (next + length idx)) levels

-- `countLeafRecords`
unfoldable pub count_leaf_records : ℕ → List (List Record) → ℕ
count_leaf_records n [] = n
count_leaf_records n (recs ∷ leaves) = count_leaf_records (u32 (n + length recs)) leaves

unfoldable pub count_nodes : ℕ → List (List (List IdxRec)) → ℕ
count_nodes n [] = n
count_nodes n (idx ∷ levels) = count_nodes (u32 (n + length idx)) levels

abbrev pub header_of : BuildOpts → ℕ → HeaderRec
header_of opts clump_size = record {
  tree_depth = 0;
  root_node = 0;
  leaf_records = 0;
  first_leaf_node = 0;
  last_leaf_node = 0;
  node_size = opts.node_size;
  max_key_length = opts.max_key_length;
  total_nodes = 1;
  free_nodes = 0;
  reserved1 = 0;
  clump_size = clump_size;
  btree_type = opts.btree_type;
  key_compare_type = opts.key_compare_type;
  attributes = opts.attributes;
  reserved3 = replicate 16 0;
}

-- `emitEmptyTree`
unfoldable pub emit_empty_tree : BuildOpts → ℕ → BuildResult
emit_empty_tree opts clump_size = record {
  bytes = emit_header_node opts.node_size (header_of opts clump_size) 1 0;
  total_nodes = 1;
  tree_depth = 0;
  root_node = 0;
  first_leaf = 0;
  last_leaf = 0;
  leaf_records = 0;
  free_nodes = 0;
  map_coverage = u32 (map_bits_in_header_node opts.node_size);
  opts = opts;
}

-- The image of a tree, all of its nodes at their places: the header, the map, the leaves, the index.
abbrev pub tree_pieces :
    ℕ → HeaderRec → List (List Record) → List (List (List IdxRec)) → ℕ → ℕ → List Field
tree_pieces node_size hdr leaves levels map_nodes total =
    let first = u32 (1 + map_nodes) in
    let assigned = assign (length leaves) first in
    raw 0 node_size (emit_header_node node_size hdr total map_nodes)
    ∷ (map_pieces node_size map_nodes 0 map_nodes total
        ++ (level_pieces node_size leaf_node 1 assigned 0 leaves
            ++ index_pieces node_size 2 assigned (u32 (first + length leaves)) levels))

-- The steps of `BuildTree` behind the count of the nodes.
unfoldable pub emit_tree :
    BuildOpts → ℕ → List (List Record) → List (List (List IdxRec)) → ℕ → ℕ → BuildResult
unfolding assign root_number count_leaf_records level_pieces map_pieces index_pieces
emit_tree opts clump_size leaves levels map_nodes total =
    let first = u32 (1 + map_nodes) in
    let assigned = assign (length leaves) first in
    let root = root_number assigned (u32 (first + length leaves)) levels in
    let last = get_or assigned (length assigned - 1) 0 in
    let counted = count_leaf_records 0 leaves in
    let hdr : HeaderRec = record (header_of opts clump_size) {
      tree_depth = u16 (1 + length levels);
      root_node = root;
      leaf_records = counted;
      first_leaf_node = get_or assigned 0 0;
      last_leaf_node = last;
      total_nodes = total;
    } in
    record {
      bytes =
          encode (total * opts.node_size)
            (tree_pieces opts.node_size hdr leaves levels map_nodes total);
      total_nodes = total;
      tree_depth = u16 (1 + length levels);
      root_node = root;
      first_leaf = get_or assigned 0 0;
      last_leaf = last;
      leaf_records = counted;
      free_nodes = 0;
      map_coverage = u32 (
          map_bits_in_header_node opts.node_size + map_nodes * map_bits_in_map_node opts.node_size);
      opts = opts;
    }

abbrev pub or_no_map : Option (ℕ × ℕ) → Result TreeError (ℕ × ℕ)
or_no_map none = err no_fuel
or_no_map (some p) = ok p

abbrev pub clump_or_default : BuildOpts → ℕ
clump_or_default opts =
    if opts.clump_size == 0 then u32 (8 * u32 opts.node_size) else opts.clump_size

-- The tree over leaves, of which there is at least one.
unfoldable pub build_levels : BuildOpts → List (List Record) → Result TreeError BuildResult
unfolding emit_tree count_nodes
build_levels opts leaves =
    index_levels (suc (length leaves)) opts.node_size (map first_leaf_key leaves) >>= λ levels.
    let others = count_nodes (u32 (1 + length leaves)) levels in
    or_no_map (
      map_loop (suc others) (map_bits_in_header_node opts.node_size)
        (map_bits_in_map_node opts.node_size) 0 others)
    >>= λ (map_nodes, total).
        ok (emit_tree opts (clump_or_default opts) leaves levels map_nodes total)

abbrev pub build_leaves : BuildOpts → List (List Record) → Result TreeError BuildResult
build_leaves opts leaves =
    if is_empty leaves
    then ok (emit_empty_tree opts (clump_or_default opts))
    else build_levels opts leaves

-- `BuildTree`
unfoldable pub build_tree : List Record → BuildOpts → Result TreeError BuildResult
unfolding build_levels emit_empty_tree
build_tree records opts =
    refuse_if (opts.node_size == 0) zero_node_size
    >> (refuse_if (not (bit_and opts.node_size (opts.node_size - 1) == 0))
          (not_power_of_two opts.node_size)
        >> (refuse_if (ltb opts.node_size 512) (node_size_too_small opts.node_size)
            >> (pack_leaves records opts.node_size >>= λ leaves. build_leaves opts leaves)))
