-- ===== src/Hfsplus/Btree/Emit/Built.antt =====
-- `BuildTree` of internal/hfsplus/btree.go: the tree that is returned holds the records.
use Prim.Native.Nat.{bit_and}
use mathlib.Core.Bool.{not}
use mathlib.Core.Path.{subst}
use go_dmg_writer.Base.{
  ℕ, zero, suc, ◌+◌, ◌-◌, ◌*◌, ◌<◌, ◌≤◌, ◌≡◌, ap, ◌∙◌, false, ltb, ◌==◌, List, [], ◌∷◌, All-map,
  map, length, ok, arith,
}
use go_dmg_writer.Base.Bytes.{u32}
use go_dmg_writer.Hfsplus.Btree.{
  Record, IdxRec, record_size, pack_leaves, first_leaf_key, index_levels, map_bits_in_header_node,
  map_bits_in_map_node,
}
use go_dmg_writer.Hfsplus.Btree.Pack.{LeavesResult, IsPacked, pack_leaves_lem, node_bytes}
use go_dmg_writer.Hfsplus.Btree.MapNodes.{IsLeastMap, map_loop_lem}
use go_dmg_writer.Hfsplus.Btree.Emit.{
  BuildOpts, BuildResult, count_nodes, clump_or_default, emit_tree, build_levels, build_leaves,
  build_tree,
}
use go_dmg_writer.Hfsplus.Btree.Emit.Rows.{index_nodes}
use go_dmg_writer.Hfsplus.Btree.Emit.Chain.{read_chain, read_chain-emit_tree}

count_nodes_lem :
    (n : ℕ) (levels : List (List (List IdxRec)))
    → n + index_nodes levels < 4294967296
    → count_nodes n levels ≡ n + index_nodes levels
unfolding count_nodes
count_nodes_lem n [] small = omega arith
count_nodes_lem n (idx ∷ levels) small =
    let next : u32 (n + length idx) ≡ n + length idx = omega arith in
    ap (λ (k : ℕ). count_nodes k levels) next
    ∙ count_nodes_lem (n + length idx) levels (omega arith)
    ∙ omega arith

twice : (k per : ℕ) → 2 ≤ per → 2 * k ≤ k * per
twice k per h = grind arith

-- The map never needs more nodes than the rest of the tree.
least-le : (bits per others m total : ℕ) → 2 ≤ per → IsLeastMap bits per others m total → m ≤ others
least-le bits per others zero total gains h = omega arith
least-le bits per others (suc k) total gains h =
    omega (arith, h.least k (omega arith), twice k per gains)

-- What the tests at the start of `BuildTree` let through.
pub record IsNodeSize (n : ℕ) : Type 0 where
  pub power : bit_and n (n - 1) ≡ 0
  pub big : 512 ≤ n
  pub word : n < 65536

module _ (opts : BuildOpts) (valid : IsNodeSize opts.node_size) where
  tests_passed :
      (records : List Record) {leaves : List (List Record)}
      → pack_leaves records opts.node_size ≡ ok leaves
      → build_tree records opts ≡ build_leaves opts leaves
  unfolding build_tree
  tests_passed records packed =
      let nonzero : (opts.node_size == 0) ≡ false = ground (arith, valid.big) in
      let power : not (bit_and opts.node_size (opts.node_size - 1) == 0) ≡ false =
        ap (λ (k : ℕ). not (k == 0)) valid.power in
      let big : ltb opts.node_size 512 ≡ false = ground (arith, valid.big) in
      rw (nonzero, power, big, packed)

  -- If the leaves and the index levels are packed, and the nodes without the map are fewer than
  -- 2^31, `BuildTree` returns a tree of at least that many nodes, whose image is as long as its nodes
  -- together, and in which a reader that starts at the first leaf and follows the links finds
  -- the records that `BuildTree` was given, all of them and in their order.
  pub build_tree-read_chain :
      (records : List Record) (recs : List Record) (rest : List (List Record))
      (levels : List (List (List IdxRec)))
      → pack_leaves records opts.node_size ≡ ok (recs ∷ rest)
      → index_levels (suc (length (recs ∷ rest))) opts.node_size (map first_leaf_key (recs ∷ rest))
        ≡ ok levels
      → 1 + length (recs ∷ rest) + index_nodes levels < 2147483648
      → (tree : BuildResult) × (build_tree records opts ≡ ok tree)
        × (1 + length (recs ∷ rest) + index_nodes levels ≤ tree.total_nodes)
        × (length tree.bytes ≡ tree.total_nodes * opts.node_size)
        × (read_chain (length (recs ∷ rest)) opts.node_size tree.first_leaf tree.bytes ≡ records)
  unfolding build_levels emit_tree map_bits_in_map_node
  build_tree-read_chain records recs rest levels packed indexed few =
      let leaves = recs ∷ rest in
      let size = opts.node_size in
      let others = count_nodes (u32 (1 + length leaves)) levels in
      let counted : others ≡ 1 + length leaves + index_nodes levels =
        count_nodes_lem (u32 (1 + length leaves)) levels (omega arith) ∙ omega arith in
      let (bits, per) : ℕ × ℕ = (map_bits_in_header_node size, map_bits_in_map_node size) in
      let gains : 2 ≤ per = omega (arith, valid.big) in
      let ((map_nodes, total), found, least) =
        map_loop_lem bits per others gains (omega (arith, counted, few)) in
      let total_small : total < 4294967296 = omega (
        arith,
        least.is_total,
        least-le bits per others map_nodes total gains least,
        counted,
        few,
      ) in
      let is_packed : IsPacked record_size size records leaves =
        subst (LeavesResult size records) packed
          (pack_leaves_lem records size (omega (arith, valid.big))) in
      let fits =
        All-map _ (λ (n : List Record). node_bytes record_size n ≤ size) leaves (λ n h. h.1)
          is_packed.full in
      let tree = emit_tree opts (clump_or_default opts) leaves levels map_nodes total in
      let (len, chain) =
        read_chain-emit_tree opts (clump_or_default opts) recs rest levels map_nodes total
          (omega (arith, least.is_total, counted)) total_small fits valid.word in
      let built : build_leaves opts leaves ≡ ok tree = rw (indexed, found) in
      let more : 1 + length leaves + index_nodes levels ≤ total =
        omega (arith, least.is_total, counted) in
      (tree, tests_passed records packed ∙ built, more, len, chain ∙ is_packed.items)
