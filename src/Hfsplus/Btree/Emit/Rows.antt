-- ===== src/Hfsplus/Btree/Emit/Rows.antt =====
-- The nodes of a tree of internal/hfsplus/btree.go fill the image one behind the other.
use go_dmg_writer.Base.{
  ℕ, zero, suc, ◌+◌, ◌*◌, ◌<◌, ◌≤◌, ◌≡◌, refl, sym, ap, ◌∙◌, true, leb, List, [], ◌∷◌, ◌++◌, map,
  le→leb, length, length-map, get_or, arith,
}
use go_dmg_writer.Base.Bytes.{Bytes, u8, u32}
use go_dmg_writer.Wire.{Field, raw, offset, width, in_line}
use go_dmg_writer.Wire.Writes.{cons-in_line, in_line-cons, in_line-le}
use go_dmg_writer.Hfsplus.Btree.{Record, IdxRec}
use go_dmg_writer.Hfsplus.Btree.Nodes.{
  NodeKind, leaf_node, index_node, HeaderRec, write_records_node, emit_header_node,
}
use go_dmg_writer.Hfsplus.Btree.Emit.{
  assign, resolve, level_descriptor, level_pieces, index_pieces, map_pieces, tree_pieces,
}

pub get_or-assign :
    (count next i : ℕ)
    → next + count ≤ 4294967296
    → i < count
    → get_or (assign count next) i 0 ≡ next + i
unfolding assign
get_or-assign zero next i le lt = absurd (omega arith)
get_or-assign (suc count) next zero le lt = omega arith
get_or-assign (suc count) next (suc i) le lt =
    ap (λ (n : ℕ). get_or (assign count n) i 0)
      (let e : u32 (next + 1) ≡ next + 1 = omega arith in e)
    ∙ get_or-assign count (next + 1) i (omega arith) (omega arith)
    ∙ omega arith

pub length-assign : (count next : ℕ) → length (assign count next) ≡ count
unfolding assign
length-assign zero next = refl
length-assign (suc count) next = ap suc (length-assign count (u32 (next + 1)))

in_line-from :
    (n from from' : ℕ) (fs : List Field)
    → from' ≤ from
    → in_line n from fs ≡ true
    → in_line n from' fs ≡ true
in_line-from n from from' [] le e = le→leb from' n (omega (arith, in_line-le n from [] e, le))
in_line-from n from from' (f ∷ fs) le e =
    let (start, rest) = in_line-cons n from f fs e in
    cons-in_line n from' f fs (omega (arith, start, le)) rest

in_line-append :
    (n m from : ℕ) (fs gs : List Field)
    → in_line m from fs ≡ true
    → in_line n m gs ≡ true
    → in_line n from (fs ++ gs) ≡ true
in_line-append n m from [] gs a b = in_line-from n m from gs (in_line-le m from [] a) b
in_line-append n m from (f ∷ fs) gs a b =
    let (le, rest) = in_line-cons m from f fs a in
    cons-in_line n from f (fs ++ gs) le (in_line-append n m (offset f + width f) fs gs rest b)

next_row : (k size : ℕ) → k * size + size ≡ (k + 1) * size
next_row k size = omega arith

-- A node in row `k` before the rows from `k + 1` on.
cons-row :
    (n k size : ℕ) (b : Bytes) (fs : List Field)
    → in_line n ((k + 1) * size) fs ≡ true
    → in_line n (k * size) (raw (k * size) size b ∷ fs) ≡ true
cons-row n k size b fs e =
    cons-in_line n (k * size) (raw (k * size) size b) fs (omega arith)
      (ap (λ (m : ℕ). in_line n m fs) (next_row k size) ∙ e)

level_pieces-in_line :
    (size : ℕ) (kind : NodeKind) (height base count i : ℕ) (nodes : List (List Record))
    → base + count ≤ 4294967296
    → i + length nodes ≡ count
    → in_line
        ((base + count) * size)
        ((base + i) * size)
        (level_pieces size kind height (assign count base) i nodes)
      ≡ true
unfolding level_pieces
level_pieces-in_line size kind height base count i [] small e =
    ap (λ (m : ℕ). leb ((base + m) * size) ((base + count) * size))
      (let e' : i ≡ count = omega arith in e')
    ∙ le→leb _ _ (omega arith)
level_pieces-in_line size kind height base count i (recs ∷ rest) small e =
    let n = (base + count) * size in
    let others = level_pieces size kind height (assign count base) (i + 1) rest in
    let b =
      write_records_node size (level_descriptor kind height (assign count base) i recs) recs in
    let tail : in_line n ((base + i + 1) * size) others ≡ true =
      ap (λ (m : ℕ). in_line n (m * size) others) (omega arith)
      ∙ level_pieces-in_line size kind height base count (i + 1) rest small (omega arith) in
    ap (λ (k : ℕ). in_line n ((base + i) * size) (raw (k * size) size b ∷ others))
      (get_or-assign count base i small (omega arith))
    ∙ cons-row n (base + i) size b others tail

map_pieces-in_line :
    (size left i count total : ℕ)
    → i + left ≡ count
    → in_line ((1 + count) * size) ((1 + i) * size) (map_pieces size left i count total) ≡ true
unfolding map_pieces
map_pieces-in_line size zero i count total e =
    ap (λ (m : ℕ). leb ((1 + m) * size) ((1 + count) * size))
      (let e' : i ≡ count = omega arith in e')
    ∙ le→leb _ _ (omega arith)
map_pieces-in_line size (suc left) i count total e =
    let n = (1 + count) * size in
    let others = map_pieces size left (i + 1) count total in
    let tail : in_line n ((1 + i + 1) * size) others ≡ true =
      ap (λ (m : ℕ). in_line n (m * size) others) (omega arith)
      ∙ map_pieces-in_line size left (i + 1) count total (omega arith) in
    cons-row n (1 + i) size [] others tail

-- The nodes of the index levels.
abbrev pub index_nodes : List (List (List IdxRec)) → ℕ
index_nodes [] = 0
index_nodes (idx ∷ levels) = length idx + index_nodes levels

index_pieces-in_line :
    (size height : ℕ) (child : List ℕ) (next n : ℕ) (levels : List (List (List IdxRec)))
    → next + index_nodes levels ≡ n
    → n < 4294967296
    → in_line (n * size) (next * size) (index_pieces size height child next levels) ≡ true
unfolding index_pieces
index_pieces-in_line size height child next n [] e small =
    ap (λ (m : ℕ). leb (m * size) (n * size)) (let e' : next ≡ n = omega arith in e')
    ∙ le→leb _ _ (omega arith)
index_pieces-in_line size height child next n (idx ∷ levels) e small =
    let assigned = assign (length idx) next in
    let nodes = map (map (resolve child)) idx in
    let next' : u32 (next + length idx) ≡ next + length idx = omega arith in
    let level = level_pieces size index_node (u8 height) assigned 0 nodes in
    let others = index_pieces size (height + 1) assigned (u32 (next + length idx)) levels in
    let here : in_line ((next + length idx) * size) (next * size) level ≡ true =
      ap (λ (m : ℕ). in_line ((next + length idx) * size) (m * size) level) (omega arith)
      ∙ level_pieces-in_line size index_node (u8 height) next (length idx) 0 nodes (omega arith)
          (omega (arith, length-map idx (map (resolve child)))) in
    let rest : in_line (n * size) ((next + length idx) * size) others ≡ true =
      ap (λ (m : ℕ). in_line (n * size) (m * size) others) (sym next')
      ∙ index_pieces-in_line size (height + 1) assigned (u32 (next + length idx)) n levels
          (omega (arith, next')) small in
    in_line-append (n * size) ((next + length idx) * size) (next * size) level others here rest

-- The nodes of a tree fill its image.
pub tree_pieces-in_line :
    (size : ℕ) (hdr : HeaderRec) (leaves : List (List Record)) (levels : List (List (List IdxRec)))
    (map_nodes total : ℕ)
    → total ≡ 1 + map_nodes + length leaves + index_nodes levels
    → total < 4294967296
    → in_line (total * size) 0 (tree_pieces size hdr leaves levels map_nodes total) ≡ true
tree_pieces-in_line size hdr leaves levels map_nodes total sum small =
    let first : u32 (1 + map_nodes) ≡ 1 + map_nodes = omega arith in
    let assigned = assign (length leaves) (u32 (1 + map_nodes)) in
    let maps = map_pieces size map_nodes 0 map_nodes total in
    let level = level_pieces size leaf_node 1 assigned 0 leaves in
    let index = index_pieces size 2 assigned (u32 (u32 (1 + map_nodes) + length leaves)) levels in
    let last = u32 (1 + map_nodes) + length leaves in
    let last' : u32 last ≡ last = omega arith in
    let in_maps : in_line ((1 + map_nodes) * size) (1 * size) maps ≡ true =
      map_pieces-in_line size map_nodes 0 map_nodes total (omega arith) in
    let in_level : in_line (last * size) ((1 + map_nodes) * size) level ≡ true =
      ap (λ (m : ℕ). in_line (last * size) (m * size) level) (omega arith)
      ∙ level_pieces-in_line size leaf_node 1 (u32 (1 + map_nodes)) (length leaves) 0 leaves
          (omega arith) (omega arith) in
    let in_index : in_line (total * size) (last * size) index ≡ true =
      ap (λ (m : ℕ). in_line (total * size) (m * size) index) (sym last')
      ∙ index_pieces-in_line size 2 assigned (u32 last) total levels (omega (arith, last')) small in
    cons-in_line (total * size) 0 (raw 0 size (emit_header_node size hdr total map_nodes))
      (maps ++ (level ++ index)) (omega arith)
      (ap (λ (m : ℕ). in_line (total * size) m (maps ++ (level ++ index))) (omega arith)
        ∙ in_line-append (total * size) ((1 + map_nodes) * size) (1 * size) maps (level ++ index)
            in_maps
            (in_line-append (total * size) (last * size) ((1 + map_nodes) * size) level index
              in_level in_index))
