-- ===== src/Hfsplus/Btree/Nodes.antt =====
-- The nodes of internal/hfsplus/btree.go on disk: `BTNodeDescriptor.encode` and `BTHeaderRec.encode` of
-- types.go, `writeRecordsNode`, `emitHeaderNode` and `emitMapNode`.
pub mod ReadBack
use go_dmg_writer.Base.{
  ℕ, zero, suc, ◌+◌, ◌-◌, ◌*◌, ◌/◌, ◌%◌, ◌^◌, Bool, List, [], ◌∷◌, ◌++◌, ltb, leb, if◌then◌else◌,
  length, get_or, set,
}
use Prim.Native.Nat.{bit_or}
use go_dmg_writer.Base.Bytes.{Bytes, u16}
use go_dmg_writer.Wire.{Field, at8, at16, at32, raw, array, encode, write_all}
use go_dmg_writer.Hfsplus.Btree.{Record, node_descriptor_size, header_rec_size}

-- `Kind` is an int8; the leaf is -1.
pub data NodeKind : Type 0 where
  leaf_node index_node header_node map_node : NodeKind

abbrev pub kind_byte : NodeKind → ℕ
kind_byte leaf_node = 255
kind_byte index_node = 0
kind_byte header_node = 1
kind_byte map_node = 2

pub record NodeDescriptor : Type 0 where
  pub flink : ℕ
  pub blink : ℕ
  pub kind : NodeKind
  pub height : ℕ
  pub num_records : ℕ
  pub reserved : ℕ

-- `BTNodeDescriptor.encode`
abbrev pub descriptor_fields : NodeDescriptor → List Field
descriptor_fields d =
    at32 0 d.flink
    ∷ at32 4 d.blink
    ∷ at8 8 (kind_byte d.kind)
    ∷ at8 9 d.height
    ∷ at16 10 d.num_records
    ∷ at16 12 d.reserved
    ∷ []

pub record HeaderRec : Type 0 where
  pub tree_depth : ℕ
  pub root_node : ℕ
  pub leaf_records : ℕ
  pub first_leaf_node : ℕ
  pub last_leaf_node : ℕ
  pub node_size : ℕ
  pub max_key_length : ℕ
  pub total_nodes : ℕ
  pub free_nodes : ℕ
  pub reserved1 : ℕ
  pub clump_size : ℕ
  pub btree_type : ℕ
  pub key_compare_type : ℕ
  pub attributes : ℕ
  pub reserved3 : List ℕ

-- `BTHeaderRec.encode` on the slice that starts at `at`
abbrev pub header_rec_fields : ℕ → HeaderRec → List Field
header_rec_fields at h =
    at16 at h.tree_depth
    ∷ at32 (at + 2) h.root_node
    ∷ at32 (at + 6) h.leaf_records
    ∷ at32 (at + 10) h.first_leaf_node
    ∷ at32 (at + 14) h.last_leaf_node
    ∷ at16 (at + 18) h.node_size
    ∷ at16 (at + 20) h.max_key_length
    ∷ at32 (at + 22) h.total_nodes
    ∷ at32 (at + 26) h.free_nodes
    ∷ at16 (at + 30) h.reserved1
    ∷ at32 (at + 32) h.clump_size
    ∷ at8 (at + 36) h.btree_type
    ∷ at8 (at + 37) h.key_compare_type
    ∷ at32 (at + 38) h.attributes
    ∷ array (at + 42) 16 h.reserved3
    ∷ []

-- `cur += 2 + uint16(len(r.key)) + uint16(len(r.data))`
abbrev pub behind : ℕ → Record → ℕ
behind cur r = u16 (cur + 2 + u16 (length r.key) + u16 (length r.content))

-- The writes of the loop of `writeRecordsNode` over the records, from `cur` on.
unfoldable pub record_fields : ℕ → List Record → List Field
record_fields cur [] = []
record_fields cur (r ∷ rs) =
    at16 cur (u16 (length r.key))
    ∷ raw (u16 (cur + 2)) (length r.key) r.key
    ∷ raw (u16 (cur + 2 + u16 (length r.key))) (length r.content) r.content
    ∷ record_fields (behind cur r) rs

-- The offsets of the records and of the free space behind them.
unfoldable pub record_offsets : ℕ → List Record → List ℕ
record_offsets cur [] = cur ∷ []
record_offsets cur (r ∷ rs) = cur ∷ record_offsets (behind cur r) rs

-- The offset table, from index `i` on, downwards from the end of the node.
unfoldable pub offset_fields : ℕ → ℕ → List ℕ → List Field
offset_fields node_size i [] = []
offset_fields node_size i (o ∷ os) =
    at16 (node_size - 2 * (i + 1)) o ∷ offset_fields node_size (i + 1) os

abbrev pub node_fields : ℕ → NodeDescriptor → List Record → List Field
node_fields node_size desc recs =
    (descriptor_fields desc ++ record_fields node_descriptor_size recs)
    ++ offset_fields node_size 0 (record_offsets node_descriptor_size recs)

-- `writeRecordsNode` on a zeroed node
unfoldable pub write_records_node : ℕ → NodeDescriptor → List Record → Bytes
unfolding record_fields record_offsets offset_fields
write_records_node node_size desc recs = encode node_size (node_fields node_size desc recs)

-- `node[byteOff] |= 1 << (7 - n%8)` for the bits `n` with `left` of them to go, until the byte is past
-- the record, which starts at `start` and ends at `map_end`.
unfoldable pub node_bits : ℕ → ℕ → ℕ → ℕ → Bytes → Bytes
node_bits zero n start map_end node = node
node_bits (suc left) n start map_end node =
    let at = u16 (start + u16 (n / 8)) in
    let rest =
      node_bits left (n + 1) start map_end
        (set node at (bit_or (get_or node at 0) (2 ^ (7 - n % 8)))) in
    if leb map_end at then node else rest

-- `emitHeaderNode` on a zeroed node
unfoldable pub emit_header_node : ℕ → HeaderRec → ℕ → ℕ → Bytes
unfolding node_bits
emit_header_node node_size hdr total_nodes map_nodes =
    let desc : NodeDescriptor = record {
      flink = if ltb 0 map_nodes then 1 else 0;
      blink = 0;
      kind = header_node;
      height = 0;
      num_records = 3;
      reserved = 0;
    } in
    let off0 : ℕ = node_descriptor_size in
    let off1 = off0 + header_rec_size in
    let off2 = off1 + 128 in
    let map_end = u16 node_size - 8 in
    let node =
      node_bits total_nodes 0 off2 map_end
        (encode node_size (descriptor_fields desc ++ header_rec_fields off0 hdr)) in
    write_all
      (at16 (node_size - 2) off0
        ∷ at16 (node_size - 4) off1
        ∷ at16 (node_size - 6) off2
        ∷ at16 (node_size - 8) map_end
        ∷ [])
      node

-- `emitMapNode` on a zeroed node
unfoldable pub emit_map_node : ℕ → ℕ → ℕ → ℕ → Bytes
unfolding node_bits
emit_map_node node_size next_map_node first_bit total_nodes =
    let desc : NodeDescriptor = record {
      flink = next_map_node;
      blink = 0;
      kind = map_node;
      height = 0;
      num_records = 1;
      reserved = 0;
    } in
    let off0 : ℕ = node_descriptor_size in
    let map_end = u16 node_size - 4 in
    node_bits (total_nodes - first_bit) 0 off0 map_end (
      encode node_size
        (descriptor_fields desc ++ (at16 (node_size - 2) off0 ∷ at16 (node_size - 4) map_end ∷ [])))
