-- ===== src/Hfsplus/Btree.antt =====
-- internal/hfsplus/btree.go: how records become the nodes of a B-tree, how the index levels are
-- stacked, and how many nodes the allocation map needs.
mod Tests
pub mod Pack
pub mod Levels
pub mod MapNodes
pub mod Nodes
pub mod Emit
pub mod Pad
use Prim.Native.Nat.{bit_and}
use mathlib.Core.Bool.{not}
use go_dmg_writer.Base.{
  ℕ, zero, suc, ◌+◌, ◌-◌, ◌*◌, ◌/◌, ◌%◌, Bool, true, false, ◌&&◌, List, [], ◌∷◌, ◌++◌, Option, none,
  some, ltb, leb, ◌==◌, if◌then◌else◌, length, map, Result, ok, err, ◌>>=◌, ◌>>◌, refuse_if,
}
use go_dmg_writer.Base.Bytes.{Bytes, u32}

pub record Record : Type 0 where
  pub key : Bytes
  pub content : Bytes

-- `childIdx` is a position in the level below, until the node numbers are known.
pub record IdxRec : Type 0 where
  pub key : Bytes
  pub child_idx : ℕ

abbrev pub node_descriptor_size : ℕ
node_descriptor_size = 14

-- The errors of `BuildTree`; `no_fuel` is no outcome of the code.
pub data TreeError : Type 0 where
  zero_node_size : TreeError
  not_power_of_two : ℕ → TreeError
  node_size_too_small : ℕ → TreeError
  record_too_large : ℕ → TreeError
  index_cannot_shrink : ℕ → TreeError
  no_fuel : TreeError

-- The variables of a packing loop: the finished nodes, the current one, and its bytes in use.
pub record Packing (A : Type 0) : Type 0 where
  pub nodes : List (List A)
  pub cur : List A
  pub used : ℕ

abbrev pub empty_packing : {A : Type 0} → Packing A
empty_packing = record { nodes = []; cur = []; used = node_descriptor_size + 2 }

abbrev pub is_empty {ℓ} : {A : Type ℓ} → List A → Bool
is_empty [] = true
is_empty (x ∷ xs) = false

-- The body of both packing loops: a record goes to the current node, or to a new one.
unfoldable pub add_item : {A : Type 0} → (A → ℕ) → ℕ → Packing A → A → Packing A
add_item size node_size p x =
    if ltb node_size (p.used + size x) && not (is_empty p.cur)
    then record {
      nodes = p.nodes ++ (p.cur ∷ []);
      cur = x ∷ [];
      used = node_descriptor_size + 2 + size x;
    }
    else record p { cur = p.cur ++ (x ∷ []); used = p.used + size x }

-- The last node is kept if it holds anything.
unfoldable pub close_packing : {A : Type 0} → Packing A → List (List A)
close_packing p = if is_empty p.cur then p.nodes else p.nodes ++ (p.cur ∷ [])

unfoldable pub pack_items : {A : Type 0} → (A → ℕ) → ℕ → Packing A → List A → Packing A
unfolding add_item
pack_items size node_size p [] = p
pack_items size node_size p (x ∷ xs) = pack_items size node_size (add_item size node_size p x) xs

-- `2 + len(r.Key) + len(r.Data) + 2`
abbrev pub record_size : Record → ℕ
record_size r = 2 + length r.key + length r.content + 2

unfoldable pub pack_records :
    ℕ → Packing Record → List Record → Result TreeError (List (List Record))
unfolding add_item close_packing
pack_records node_size p [] = ok (close_packing p)
pack_records node_size p (r ∷ rs) =
    if ltb node_size (record_size r + node_descriptor_size + 2)
    then err (record_too_large (record_size r - 2))
    else pack_records node_size (add_item record_size node_size p r) rs

unfoldable pub pack_leaves : List Record → ℕ → Result TreeError (List (List Record))
unfolding pack_records
pack_leaves records node_size = pack_records node_size empty_packing records

-- `2 + len(k) + 4 + 2`
abbrev pub index_size : IdxRec → ℕ
index_size r = 2 + length r.key + 4 + 2

unfoldable pub number_keys : ℕ → List Bytes → List IdxRec
number_keys i [] = []
number_keys i (k ∷ ks) = record { key = k; child_idx = u32 i } ∷ number_keys (i + 1) ks

-- The nodes of the index level over a level with these first keys.
unfoldable pub pack_index : ℕ → List Bytes → List (List IdxRec)
unfolding pack_items close_packing number_keys
pack_index node_size keys =
    close_packing (pack_items index_size node_size empty_packing (number_keys 0 keys))

abbrev pub first_key : List IdxRec → Bytes
first_key [] = []
first_key (r ∷ rs) = r.key

abbrev pub first_leaf_key : List Record → Bytes
first_leaf_key [] = []
first_leaf_key (r ∷ rs) = r.key

abbrev pub widest : ℕ → List Bytes → ℕ
widest w [] = w
widest w (k ∷ ks) = widest (if ltb w (length k) then length k else w) ks

-- The index levels over a level with the first keys `keys`, lowest first.
unfoldable pub index_levels : ℕ → ℕ → List Bytes → Result TreeError (List (List (List IdxRec)))
unfolding pack_index
index_levels zero node_size keys = err no_fuel
index_levels (suc fuel) node_size keys =
    let idx = pack_index node_size keys in
    let above = index_levels fuel node_size (map first_key idx) in
    let next : Result TreeError (List (List (List IdxRec))) =
      refuse_if (leb (length keys) (length idx)) (index_cannot_shrink (widest 0 keys))
      >> (above >>= λ levels. ok (idx ∷ levels)) in
    if leb (length keys) 1 then ok [] else next

-- The geometry of the allocation map.
abbrev pub header_rec_size : ℕ
header_rec_size = 106

unfoldable pub map_bits_in_header_node : ℕ → ℕ
map_bits_in_header_node node_size =
    (node_size - node_descriptor_size - 4 * 2 - header_rec_size - 128) * 8

unfoldable pub map_bits_in_map_node : ℕ → ℕ
map_bits_in_map_node node_size = (node_size - node_descriptor_size - 2 * 2) * 8

-- The loop that adds map nodes until the map has a bit for every node, the map nodes included.
-- The pair is the number of map nodes and of all nodes.
unfoldable pub map_loop : ℕ → ℕ → ℕ → ℕ → ℕ → Option (ℕ × ℕ)
map_loop zero header_bits per_map_node map_nodes total_nodes = none
map_loop (suc fuel) header_bits per_map_node map_nodes total_nodes =
    let rest =
      map_loop fuel header_bits per_map_node (u32 (map_nodes + 1)) (u32 (total_nodes + 1)) in
    if ltb (header_bits + map_nodes * per_map_node) total_nodes
    then rest
    else some (map_nodes, total_nodes)
