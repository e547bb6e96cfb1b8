-- ===== src/Hfsplus/Btree/Nodes/ReadBack.antt =====
-- A reader of a node finds, by the offset table, the records that `writeRecordsNode` of
-- internal/hfsplus/btree.go was given.
use mathlib.Core.Path.{subst}
use go_dmg_writer.Base.{
  ℕ, zero, suc, ◌+◌, ◌-◌, ◌*◌, ◌≤◌, ◌<◌, ◌≡◌, refl, sym, ap, ap₂, ◌∙◌, inr, true, List, [], ◌∷◌,
  ◌++◌, All, All-map, All-append, append-All, length, le→leb, arith,
}
use go_dmg_writer.Base.Bytes.{Bytes, u16}
use go_dmg_writer.Wire.{at16, raw, Found, Fits, offset, width, slice, uint_at, in_line, encode}
use go_dmg_writer.Wire.Writes.{cons-in_line}
use go_dmg_writer.Wire.Apart.{
  AllApart, Within, encode-Found_apart, in_line-Within, in_line-AllApart, AllApart-append,
}
use go_dmg_writer.Hfsplus.Btree.{Record, record_size}
use go_dmg_writer.Hfsplus.Btree.Pack.{node_bytes}
use go_dmg_writer.Hfsplus.Btree.Nodes.{
  NodeDescriptor, descriptor_fields, behind, record_fields, record_offsets, offset_fields,
  node_fields, write_records_node,
}

-- The record at index `i`: its offset and the next one stand in the table at the node's end.
abbrev pub read_node_record : ℕ → ℕ → Bytes → Record
read_node_record node_size i node =
    let at = uint_at 2 (node_size - 2 * (i + 1)) node in
    let next = uint_at 2 (node_size - 2 * (i + 1 + 1)) node in
    let len = uint_at 2 at node in
    record {
      key = slice (at + 2) len node;
      content = slice (at + 2 + len) (next - (at + 2 + len)) node;
    }

unfoldable pub read_node_records : ℕ → ℕ → ℕ → Bytes → List Record
read_node_records node_size zero i node = []
read_node_records node_size (suc n) i node =
    read_node_record node_size i node ∷ read_node_records node_size n (i + 1) node

-- Where the free space begins.
abbrev free_at : ℕ → List Record → ℕ
free_at cur [] = cur
free_at cur (r ∷ rs) = free_at (cur + 2 + length r.key + length r.content) rs

free_at-le : (cur : ℕ) (rs : List Record) → cur ≤ free_at cur rs
free_at-le cur [] = omega arith
free_at-le cur (r ∷ rs) = omega (arith, free_at-le (cur + 2 + length r.key + length r.content) rs)

node_bytes-free_at :
    (cur : ℕ) (rs : List Record)
    → node_bytes record_size rs + cur ≡ free_at cur rs + 2 * length rs + 16
node_bytes-free_at cur [] = omega arith
node_bytes-free_at cur (r ∷ rs) =
    omega (arith, node_bytes-free_at (cur + 2 + length r.key + length r.content) rs)

in_line-record_fields :
    (n cur cur' : ℕ) (rs : List Record)
    → cur' ≡ cur
    → n ≡ free_at cur rs
    → n < 65536
    → in_line n cur (record_fields cur' rs) ≡ true
unfolding record_fields
in_line-record_fields n cur cur' [] same e small = le→leb cur n (omega arith)
in_line-record_fields n cur cur' (r ∷ rs) same e small =
    let end_ = free_at-le (cur + 2 + length r.key + length r.content) rs in
    let next : behind cur' r ≡ cur + 2 + length r.key + length r.content = omega (arith, end_) in
    let f1 = at16 cur' (u16 (length r.key)) in
    let f2 = raw (u16 (cur' + 2)) (length r.key) r.key in
    let f3 = raw (u16 (cur' + 2 + u16 (length r.key))) (length r.content) r.content in
    let others = record_fields (behind cur' r) rs in
    let rest =
      in_line-record_fields n (cur + 2 + length r.key + length r.content) (behind cur' r) rs next e
        small in
    let from3 : in_line n (offset f3 + width f3) others ≡ true =
      ap (λ (k : ℕ). in_line n k others) (omega (arith, end_)) ∙ rest in
    let three = cons-in_line n (offset f2 + width f2) f3 others (omega (arith, end_)) from3 in
    let two = cons-in_line n (offset f1 + width f1) f2 (f3 ∷ others) (omega (arith, end_)) three in
    cons-in_line n cur f1 (f2 ∷ f3 ∷ others) (omega arith) two

record_fields-Fits : (cur : ℕ) (rs : List Record) → All Fits (record_fields cur rs)
unfolding record_fields
record_fields-Fits cur [] = tt
record_fields-Fits cur (r ∷ rs) =
    (omega arith, (refl, (refl, record_fields-Fits (behind cur r) rs)))

length-record_offsets :
    (cur : ℕ) (rs : List Record) → length (record_offsets cur rs) ≡ suc (length rs)
unfolding record_offsets
length-record_offsets cur [] = refl
length-record_offsets cur (r ∷ rs) = ap suc (length-record_offsets (behind cur r) rs)

offset_fields-Fits :
    (node_size i cur : ℕ) (rs : List Record)
    → cur < 65536
    → All Fits (offset_fields node_size i (record_offsets cur rs))
unfolding offset_fields record_offsets
offset_fields-Fits node_size i cur [] small = (small, tt)
offset_fields-Fits node_size i cur (r ∷ rs) small =
    (small, offset_fields-Fits node_size (i + 1) (behind cur r) rs (omega arith))

offset_fields-Within :
    (node_size i : ℕ) (os : List ℕ)
    → 2 * (i + length os) ≤ node_size
    → All
        (Within (node_size - 2 * (i + length os)) (node_size - 2 * i))
        (offset_fields node_size i os)
unfolding offset_fields
offset_fields-Within node_size i [] le = tt
offset_fields-Within node_size i (o ∷ os) le = (
  (omega arith, omega arith),
  All-map _ _ (offset_fields node_size (i + 1) os)
      (λ g (lo, hi). (omega (arith, lo), omega (arith, hi)))
      (offset_fields-Within node_size (i + 1) os (omega arith)),
)

offset_fields-AllApart :
    (node_size i : ℕ) (os : List ℕ)
    → 2 * (i + length os) ≤ node_size
    → AllApart (offset_fields node_size i os)
unfolding offset_fields
offset_fields-AllApart node_size i [] le = tt
offset_fields-AllApart node_size i (o ∷ os) le = (
  All-map _ _ (offset_fields node_size (i + 1) os) (λ g (lo, hi). inr hi)
      (offset_fields-Within node_size (i + 1) os (omega arith)),
  offset_fields-AllApart node_size (i + 1) os (omega arith),
)

-- The first offset of what is left of the table.
first_offset :
    (node_size i cur : ℕ) (rs : List Record) (node : Bytes)
    → All (Found node) (offset_fields node_size i (record_offsets cur rs))
    → uint_at 2 (node_size - 2 * (i + 1)) node ≡ cur
unfolding offset_fields record_offsets
first_offset node_size i cur [] node (e, _) = e
first_offset node_size i cur (r ∷ rs) node (e, _) = e

read_node_records-Found :
    (node_size i cur : ℕ) (rs : List Record) (node : Bytes)
    → free_at cur rs < 65536
    → All (Found node) (record_fields cur rs)
    → All (Found node) (offset_fields node_size i (record_offsets cur rs))
    → read_node_records node_size (length rs) i node ≡ rs
unfolding read_node_records record_fields offset_fields record_offsets
read_node_records-Found node_size i cur [] node small found offs = refl
read_node_records-Found node_size i cur (r ∷ rs) node small (count, (key, (content, found)))
      (at, offs) =
    let end_ = free_at-le (cur + 2 + length r.key + length r.content) rs in
    let next : behind cur r ≡ cur + 2 + length r.key + length r.content = omega (arith, end_) in
    let start = uint_at 2 (node_size - 2 * (i + 1)) node in
    let len : uint_at 2 start node ≡ length r.key =
      ap (λ (k : ℕ). uint_at 2 k node) at ∙ count ∙ omega (arith, end_) in
    let second : uint_at 2 (node_size - 2 * (i + 1 + 1)) node ≡ behind cur r =
      first_offset node_size (i + 1) (behind cur r) rs node offs in
    let key_at : slice (start + 2) (uint_at 2 start node) node ≡ r.key =
      ap₂ (λ (a n : ℕ). slice a n node) (omega (arith, at, end_)) len ∙ key in
    let content_at : slice (start + 2 + uint_at 2 start node)
          (uint_at 2 (node_size - 2 * (i + 1 + 1)) node - (start + 2 + uint_at 2 start node)) node
        ≡ r.content =
      ap₂ (λ (a n : ℕ). slice a n node) (omega (arith, at, len, end_))
        (omega (arith, at, len, second, next))
      ∙ content in
    ap₂ ◌∷◌ (λ j. record { key = key_at j; content = content_at j })
      (read_node_records-Found node_size (i + 1) (behind cur r) rs node
        (subst (λ (k : ℕ). free_at k rs < 65536) (sym next) small) found offs)

node_fields-AllApart :
    (node_size : ℕ) (desc : NodeDescriptor) (recs : List Record)
    → node_bytes record_size recs ≤ node_size
    → node_size < 65536
    → AllApart (node_fields node_size desc recs)
      × All (Within 0 node_size) (node_fields node_size desc recs)
node_fields-AllApart node_size desc recs le small =
    let front = descriptor_fields desc ++ record_fields 14 recs in
    let os = record_offsets 14 recs in
    let mid = free_at 14 recs in
    let fits = node_bytes-free_at 14 recs in
    let count = length-record_offsets 14 recs in
    let line : in_line mid 0 front ≡ true =
      in_line-record_fields mid 14 14 recs refl refl (omega (arith, fits, le, small)) in
    let below = in_line-Within mid 0 front line in
    let behind_ : 2 * (0 + length os) ≤ node_size = omega (arith, count, fits, le) in
    let above =
      All-map _ (Within mid node_size) (offset_fields node_size 0 os)
        (λ g (lo, hi). (omega (arith, lo, count, fits, le), omega (arith, hi)))
        (offset_fields-Within node_size 0 os behind_) in
    (
      AllApart-append 0 mid node_size front (offset_fields node_size 0 os) below above
          (in_line-AllApart mid 0 front line) (offset_fields-AllApart node_size 0 os behind_),
      All-append _ front (offset_fields node_size 0 os)
          (All-map _ _ front (λ g (lo, hi). (lo, omega (arith, hi, fits, le))) below)
          (All-map _ _ (offset_fields node_size 0 os) (λ g (lo, hi). (omega arith, hi)) above),
    )

-- A node of less than 2^16 bytes, whose records with their slots fit it, is written with exactly its
-- size; a reader finds the descriptor's fields, and by the offset table at the node's end the
-- records, all of them and in their order, with their keys and their data.
pub write_records_node_lem :
    (node_size : ℕ) (desc : NodeDescriptor) (recs : List Record)
    → All Fits (descriptor_fields desc)
    → node_bytes record_size recs ≤ node_size
    → node_size < 65536
    → (length (write_records_node node_size desc recs) ≡ node_size)
      × All (Found (write_records_node node_size desc recs)) (descriptor_fields desc)
      × (read_node_records node_size (length recs) 0 (write_records_node node_size desc recs)
          ≡ recs)
unfolding write_records_node
write_records_node_lem node_size desc recs fits le small =
    let (apart, within) = node_fields-AllApart node_size desc recs le small in
    let front = descriptor_fields desc ++ record_fields 14 recs in
    let table = offset_fields node_size 0 (record_offsets 14 recs) in
    let all_fit_ =
      All-append Fits front table
        (All-append Fits (descriptor_fields desc) (record_fields 14 recs) fits
          (record_fields-Fits 14 recs))
        (offset_fields-Fits node_size 0 14 recs (omega arith)) in
    let (len, found) =
      encode-Found_apart node_size (node_fields node_size desc recs) apart within all_fit_ in
    let node = encode node_size (node_fields node_size desc recs) in
    let (in_front, in_table) = append-All (Found node) front table found in
    let (in_desc, in_records) =
      append-All (Found node) (descriptor_fields desc) (record_fields 14 recs) in_front in
    let room : free_at 14 recs < 65536 = omega (arith, node_bytes-free_at 14 recs, le, small) in
    (len, in_desc, read_node_records-Found node_size 0 14 recs node room in_records in_table)
