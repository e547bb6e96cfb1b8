-- ===== src/Hfsplus/Btree/Emit/Chain.antt =====
-- The leaf chain of the image that `BuildTree` of internal/hfsplus/btree.go writes.
use mathlib.Core.Path.{subst}
use go_dmg_writer.Base.{
  ℕ, zero, suc, ◌+◌, ◌-◌, ◌*◌, ◌<◌, ◌≤◌, ◌≡◌, sym, ap, ap₂, ◌∙◌, Bool, true, false, ltb, lt→ltb,
  ◌==◌, if◌then◌else◌, List, [], ◌∷◌, ◌++◌, All, append-All, flatten, length, get_or, arith,
}
use go_dmg_writer.Base.Bytes.{Bytes, u32}
use go_dmg_writer.Wire.{Field, offset, width, content, slice, uint_at, encode}
use go_dmg_writer.Wire.Laws.{encode-contents}
use go_dmg_writer.Wire.Writes.{fit_self}
use go_dmg_writer.Hfsplus.Btree.{Record, IdxRec, record_size}
use go_dmg_writer.Hfsplus.Btree.Pack.{node_bytes}
use go_dmg_writer.Hfsplus.Btree.Nodes.{leaf_node, HeaderRec, write_records_node}
use go_dmg_writer.Hfsplus.Btree.Nodes.ReadBack.{read_node_records, write_records_node_lem}
use go_dmg_writer.Hfsplus.Btree.Emit.{
  BuildOpts, assign, level_descriptor, level_pieces, map_pieces, index_pieces, tree_pieces,
  emit_tree,
}
use go_dmg_writer.Hfsplus.Btree.Emit.Rows.{
  get_or-assign, length-assign, index_nodes, tree_pieces-in_line,
}

-- A reader that starts at node `number` and follows the forward links until one is 0, over at most
-- `fuel` nodes; it takes the number of records from each descriptor.
unfoldable pub read_chain : ℕ → ℕ → ℕ → Bytes → List Record
unfolding read_node_records
read_chain zero size number bytes = []
read_chain (suc fuel) size number bytes =
    let node = slice (number * size) size bytes in
    let next = uint_at 4 0 node in
    let rest = read_chain fuel size next bytes in
    read_node_records size (uint_at 2 10 node) 0 node ++ (if next == 0 then [] else rest)

-- What the reader finds in the node of the leaf at index `i`.
abbrev IsLeafNode : ℕ → List ℕ → ℕ → List Record → Bytes → Type 0
IsLeafNode size assigned i recs node =
    (uint_at 4 0 node ≡ (if ltb (i + 1) (length assigned) then get_or assigned (i + 1) 0 else 0))
    × (uint_at 2 10 node ≡ length recs)
    × (read_node_records size (length recs) 0 node ≡ recs)

node_length : (size : ℕ) (recs : List Record) → 2 * length recs ≤ node_bytes record_size recs
node_length size [] = omega arith
node_length size (r ∷ recs) = omega (arith, node_length size recs)

-- The numbers of a level are values of uint32.
get_or-small : (count next i : ℕ) → next < 4294967296 → get_or (assign count next) i 0 < 4294967296
unfolding assign
get_or-small zero next i small = omega arith
get_or-small (suc count) next zero small = small
get_or-small (suc count) next (suc i) small = get_or-small count (u32 (next + 1)) i (omega arith)

or_zero-small : (b : Bool) (x : ℕ) → x < 4294967296 → (if b then x else 0) < 4294967296
or_zero-small true x small = small
or_zero-small false x small = omega arith

written-IsLeafNode :
    (size base count i : ℕ) (recs : List Record)
    → base + count ≤ 4294967296
    → i < count
    → node_bytes record_size recs ≤ size
    → size < 65536
    → let node =
        write_records_node size (level_descriptor leaf_node 1 (assign count base) i recs) recs in
      (length node ≡ size) × IsLeafNode size (assign count base) i recs node
written-IsLeafNode size base count i recs small lt fits narrow =
    let numbers = assign count base in
    let link = λ (j : ℕ). get_or-small count base j (omega (arith, small, lt)) in
    let (len, (flink, (_, (_, (_, (number, _))))), read) =
      write_records_node_lem size (level_descriptor leaf_node 1 numbers i recs) recs
        (
          or_zero-small (ltb (i + 1) (length numbers)) (get_or numbers (i + 1) 0) (link (i + 1)),
          (
            or_zero-small (ltb 0 i) (get_or numbers (i - 1) 0) (link (i - 1)),
            (omega arith, (omega arith, (omega arith, (omega arith, tt)))),
          ),
        )
        fits narrow in
    (len, (flink, number ∙ omega (arith, node_length size recs, fits, narrow), read))

-- The slice of the image at a leaf's number.
abbrev node_at : ℕ → ℕ → Bytes → Bytes
node_at size number bytes = slice (number * size) size bytes

placed-IsLeafNode :
    (size base count i : ℕ) (recs : List Record) (rest : List (List Record)) (bytes : Bytes)
    → base + count ≤ 4294967296
    → i < count
    → node_bytes record_size recs ≤ size
    → size < 65536
    → All
        (λ (f : Field). slice (offset f) (width f) bytes ≡ content f)
        (level_pieces size leaf_node 1 (assign count base) i (recs ∷ rest))
    → IsLeafNode size (assign count base) i recs (node_at size (base + i) bytes)
unfolding level_pieces
placed-IsLeafNode size base count i recs rest bytes small lt fits narrow (here, _) =
    let (len, leaf) = written-IsLeafNode size base count i recs small lt fits narrow in
    let found : node_at size (base + i) bytes
        ≡ write_records_node size (level_descriptor leaf_node 1 (assign count base) i recs) recs =
      ap (λ (k : ℕ). node_at size k bytes) (sym (get_or-assign count base i small lt))
      ∙ here
      ∙ fit_self size _ len in
    subst (IsLeafNode size (assign count base) i recs) (sym found) leaf

-- One node of the chain.
read_chain-node :
    (fuel size number next : ℕ) (recs : List Record) (bytes : Bytes)
    → uint_at 4 0 (node_at size number bytes) ≡ next
    → uint_at 2 10 (node_at size number bytes) ≡ length recs
    → read_node_records size (length recs) 0 (node_at size number bytes) ≡ recs
    → read_chain (suc fuel) size number bytes
      ≡ recs ++ (if next == 0 then [] else read_chain fuel size next bytes)
unfolding read_chain
read_chain-node fuel size number next recs bytes link count read =
    ap₂ ◌++◌ (ap (λ (k : ℕ). read_node_records size k 0 (node_at size number bytes)) count ∙ read)
      (ap (λ (k : ℕ). if k == 0 then [] else read_chain fuel size k bytes) link)

read_chain-level :
    (size base count i : ℕ) (recs : List Record) (rest : List (List Record)) (bytes : Bytes)
    → base + count ≤ 4294967296
    → 1 ≤ base
    → i + suc (length rest) ≡ count
    → All (λ (n : List Record). node_bytes record_size n ≤ size) (recs ∷ rest)
    → size < 65536
    → All
        (λ (f : Field). slice (offset f) (width f) bytes ≡ content f)
        (level_pieces size leaf_node 1 (assign count base) i (recs ∷ rest))
    → read_chain (suc (length rest)) size (base + i) bytes ≡ flatten (recs ∷ rest)
unfolding flatten level_pieces
read_chain-level size base count i recs [] bytes small one e (fits, _) narrow placed =
    let (link, number, read) =
      placed-IsLeafNode size base count i recs [] bytes small (omega arith) fits narrow placed in
    let last : ltb (i + 1) (length (assign count base)) ≡ false =
      ground (arith, length-assign count base) in
    read_chain-node 0 size (base + i) 0 recs bytes
      (link ∙ ap (λ (b : Bool). if b then get_or (assign count base) (i + 1) 0 else 0) last) number
      read
read_chain-level size base count i recs (recs' ∷ rest) bytes small one e (fits, fits') narrow
      placed =
    let (link, number, read) =
      placed-IsLeafNode size base count i recs (recs' ∷ rest) bytes small (omega arith) fits narrow
        placed in
    let more : ltb (i + 1) (length (assign count base)) ≡ true =
      lt→ltb _ _ (omega (arith, length-assign count base)) in
    let next : uint_at 4 0 (node_at size (base + i) bytes) ≡ base + (i + 1) =
      link
      ∙ ap (λ (b : Bool). if b then get_or (assign count base) (i + 1) 0 else 0) more
      ∙ get_or-assign count base (i + 1) small (omega arith) in
    let rest_read =
      read_chain-level size base count (i + 1) recs' rest bytes small one (omega arith) fits' narrow
        placed.1 in
    let on : (base + (i + 1) == 0) ≡ false = ground arith in
    read_chain-node (suc (length rest)) size (base + i) (base + (i + 1)) recs bytes next number read
    ∙ ap
        (λ (b : Bool).
          recs ++ (if b then [] else read_chain (suc (length rest)) size (base + (i + 1)) bytes))
        on
    ∙ ap (λ (l : List Record). recs ++ l) rest_read

read_chain-tree_pieces :
    (size : ℕ) (hdr : HeaderRec) (recs : List Record) (rest : List (List Record))
    (levels : List (List (List IdxRec))) (map_nodes total : ℕ)
    → total ≡ 1 + map_nodes + length (recs ∷ rest) + index_nodes levels
    → total < 4294967296
    → All (λ (n : List Record). node_bytes record_size n ≤ size) (recs ∷ rest)
    → size < 65536
    → let bytes =
        encode (total * size) (tree_pieces size hdr (recs ∷ rest) levels map_nodes total) in
      (length bytes ≡ total * size)
      × (read_chain
            (length (recs ∷ rest))
            size
            (get_or (assign (length (recs ∷ rest)) (u32 (1 + map_nodes))) 0 0)
            bytes
          ≡ flatten (recs ∷ rest))
read_chain-tree_pieces size hdr recs rest levels map_nodes total sum small fits narrow =
    let leaves = recs ∷ rest in
    let base = u32 (1 + map_nodes) in
    let base' : base ≡ 1 + map_nodes = omega arith in
    let assigned = assign (length leaves) base in
    let pieces = tree_pieces size hdr leaves levels map_nodes total in
    let bytes = encode (total * size) pieces in
    let first : get_or assigned 0 0 ≡ base + 0 =
      get_or-assign (length leaves) base 0 (omega arith) (omega arith) in
    let (len, (_, placed)) =
      encode-contents (total * size) pieces
        (tree_pieces-in_line size hdr leaves levels map_nodes total sum small) in
    let P = λ (f : Field). slice (offset f) (width f) bytes ≡ content f in
    let level = level_pieces size leaf_node 1 assigned 0 leaves in
    let index = index_pieces size 2 assigned (u32 (base + length leaves)) levels in
    let (_, others) =
      append-All P (map_pieces size map_nodes 0 map_nodes total) (level ++ index) placed in
    let (found, _) = append-All P level index others in
    (
      len,
      ap (λ (k : ℕ). read_chain (length leaves) size k bytes) first
          ∙ read_chain-level size base (length leaves) 0 recs rest bytes (omega arith) (omega arith)
              (omega arith) fits narrow found,
    )

-- In the image of a tree with at least one leaf, whose leaves fit the nodes, a reader that starts at
-- the first leaf and follows the forward links finds the records of all leaves, in their order. The
-- nodes are fewer than 2^32 and of less than 2^16 bytes.
pub read_chain-emit_tree :
    (opts : BuildOpts) (clump_size : ℕ) (recs : List Record) (rest : List (List Record))
    (levels : List (List (List IdxRec))) (map_nodes total : ℕ)
    → total ≡ 1 + map_nodes + length (recs ∷ rest) + index_nodes levels
    → total < 4294967296
    → All (λ (n : List Record). node_bytes record_size n ≤ opts.node_size) (recs ∷ rest)
    → opts.node_size < 65536
    → let tree = emit_tree opts clump_size (recs ∷ rest) levels map_nodes total in
      (length tree.bytes ≡ tree.total_nodes * opts.node_size)
      × (read_chain (length (recs ∷ rest)) opts.node_size tree.first_leaf tree.bytes
          ≡ flatten (recs ∷ rest))
unfolding emit_tree
read_chain-emit_tree opts clump_size recs rest levels map_nodes total sum small fits narrow =
    read_chain-tree_pieces opts.node_size _ recs rest levels map_nodes total sum small fits narrow
