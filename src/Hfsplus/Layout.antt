-- ===== src/Hfsplus/Layout.antt =====
-- internal/hfsplus/layout.go: the planner, which decides where everything lies on the volume.
mod Tests
pub mod Converge
pub mod Place
pub mod Marked
pub mod Planned
pub mod Outcome
use Prim.Native.Nat.{bit_and}
use mathlib.Core.Bool.{not}
use go_dmg_writer.Base.{
  ℕ, zero, suc, ◌+◌, ◌-◌, ◌*◌, ◌/◌, ◌^◌, Bool, true, false, ◌||◌, List, [], ◌∷◌, Option, none, some,
  ltb, leb, ◌==◌, if◌then◌else◌, Result, ok, err, ◌>>=◌, ◌>>◌, refuse_if,
}
use go_dmg_writer.Base.Bytes.{u32, u64}
use go_dmg_writer.Hfsplus.Allocation.{
  AllocationBitmap, new_allocation_bitmap, mark_used, div_round_up,
}
use go_dmg_writer.Hfsplus.Types.{ForkData, no_extents, logical_to_extent}
use go_dmg_writer.Hfsplus.Entry.{
  Entry, EntryKind, folder, file, symlink, unknown, cnid_root_parent, cnid_root_folder,
}
use go_dmg_writer.Hfsplus.Plan.{
  default_block_size, max_u32, UserFile, FilePlacement, Plan, ForkName, PlanError, Counts,
  count_kind, count_entries, catalog, extents_overflow, attributes, bad_block_size, fork_too_large,
  file_too_large, volume_too_large, index_panic, no_fuel,
}

unfoldable pub fork_blocks : ForkName → ℕ → ℕ → Result PlanError ℕ
fork_blocks name size block_size =
    let rounded = div_round_up size block_size in
    let n : ℕ = if rounded == 0 then 1 else rounded in
    do refuse_if (ltb max_u32 n) (fork_too_large name n); ok n

-- The block count of each file, and their sum in uint64.
unfoldable pub size_files : ℕ → ℕ → List UserFile → Result PlanError (List ℕ × ℕ)
size_files block_size user_blocks [] = ok ([], user_blocks)
size_files block_size user_blocks (f ∷ fs) = do
  let blks = div_round_up f.size block_size
  refuse_if (ltb max_u32 blks) (file_too_large f.size blks)
  (rest, total) ← size_files block_size (u64 (user_blocks + blks)) fs
  ok (u32 blks ∷ rest, total)

-- The blocks of the volume, given those of the allocation file: `min_total` at least.
unfoldable pub round_total : ℕ → ℕ → ℕ → ℕ
round_total others min_total alloc_blocks =
    let total = u64 (1 + alloc_blocks + others + 1) in
    if ltb total min_total then min_total else total

-- The fixed point: the allocation file describes the volume that it lies in. The pair is the
-- allocation file's blocks and the volume's.
unfoldable pub alloc_loop : ℕ → ℕ → ℕ → ℕ → ℕ → Option (ℕ × ℕ)
unfolding round_total
alloc_loop zero others min_total block_size alloc_blocks = none
alloc_loop (suc fuel) others min_total block_size alloc_blocks =
    let total = round_total others min_total alloc_blocks in
    let need = div_round_up total (u64 (block_size * 8)) in
    let rest = alloc_loop fuel others min_total block_size need in
    if leb need alloc_blocks then some (alloc_blocks, total) else rest

-- What the loop over the files writes into an entry.
unfoldable pub set_fork : ℕ → ℕ → ℕ → Entry → Entry
set_fork cursor blocks size e = record e {
  data_extents = if blocks == 0 then no_extents else logical_to_extent cursor blocks;
  data_total_blocks = blocks;
  data_logical_size = size;
}

unfoldable pub modify : ℕ → (Entry → Entry) → List Entry → List Entry
modify i f [] = []
modify zero f (e ∷ es) = f e ∷ es
modify (suc i) f (e ∷ es) = e ∷ modify i f es

-- The files one behind the other from `cursor` on: their placements, the entries with their forks
-- filled in, and the first block behind the last file.
unfoldable pub place_files :
    ℕ → List UserFile → List ℕ → List Entry → List FilePlacement × List Entry × ℕ
unfolding set_fork modify
place_files cursor [] blocks entries = ([], entries, cursor)
place_files cursor (f ∷ fs) [] entries = ([], entries, cursor)
place_files cursor (f ∷ fs) (b ∷ bs) entries =
    let start : ℕ = if b == 0 then 0 else cursor in
    let (rest, entries', last) =
      place_files (u32 (cursor + b)) fs bs (modify f.entry (set_fork cursor b f.size) entries) in
    (record { start_block = start; blocks = b } ∷ rest, entries', last)

unfoldable pub mark_placements : List FilePlacement → AllocationBitmap → Option AllocationBitmap
mark_placements [] a = some a
mark_placements (p ∷ ps) a = elim (mark_used p.start_block p.blocks a) [
  | none ↦ none
  | some a' ↦ mark_placements ps a'
]

-- The special file of `blocks` blocks that starts at `start`.
abbrev pub special_file : ℕ → ℕ → ℕ → ForkData
special_file block_size start blocks = record {
  logical_size = u64 (blocks * block_size);
  clump_size = u32 (blocks * block_size);
  total_blocks = blocks;
  extents = logical_to_extent start blocks;
}

-- The first blocks of the regions, once the sizes are known.
pub record Regions : Type 0 where
  pub alloc_start : ℕ
  pub cat_start : ℕ
  pub ext_start : ℕ
  pub attr_start : ℕ
  pub user_start : ℕ

unfoldable pub regions : ℕ → ℕ → ℕ → ℕ → Regions
regions alloc_blocks catalog_blocks extents_blocks attrs_blocks =
    let alloc_start : ℕ = 1 in
    let cat_start = u32 (alloc_start + alloc_blocks) in
    let ext_start = u32 (cat_start + catalog_blocks) in
    let attr_start = u32 (ext_start + extents_blocks) in
    record {
      alloc_start = alloc_start;
      cat_start = cat_start;
      ext_start = ext_start;
      attr_start = attr_start;
      user_start = u32 (attr_start + attrs_blocks);
    }

infixl 5 ◌then_mark◌
abbrev ◌then_mark◌ : Option AllocationBitmap → ℕ × ℕ → Option AllocationBitmap
none then_mark run = none
some a then_mark (start, count) = mark_used start count a

-- The bitmap of the plan, its runs marked in the order of the code.
unfoldable pub mark_plan :
    Regions → ℕ → ℕ → ℕ → ℕ → ℕ → List FilePlacement → Option AllocationBitmap
unfolding mark_placements
mark_plan r total_blocks alloc_blocks catalog_blocks extents_blocks attrs_blocks placements =
    let fixed =
      some (new_allocation_bitmap total_blocks)
      then_mark (0, 1)
      then_mark (r.alloc_start, alloc_blocks)
      then_mark (r.cat_start, catalog_blocks)
      then_mark (r.ext_start, extents_blocks)
      then_mark (r.attr_start, attrs_blocks) in
    let files : Option AllocationBitmap = elim fixed [
      | none ↦ none
      | some a ↦ mark_placements placements a
    ] in
    files then_mark (total_blocks - 1, 1)

-- Whether `blockSize` is refused: `blockSize < 512 || blockSize&(blockSize-1) != 0`.
unfoldable pub refuses_block_size : ℕ → Bool
refuses_block_size n = ltb n 512 || not (bit_and n (n - 1) == 0)

-- The plan that `BuildPlan` returns, from what it has computed; `sizes` are the blocks of the
-- allocation file, the catalog, the extents file and the attributes file.
abbrev pub make_plan :
    ℕ → Regions → ℕ × ℕ × ℕ × ℕ → ℕ → ℕ → Counts → AllocationBitmap → List FilePlacement → Plan
make_plan block_size r (alloc_blocks, catalog_blocks, extents_blocks, attrs_blocks) total_blocks
      cursor counts bm placements =
    record {
      block_size = block_size;
      total_blocks = total_blocks;
      next_allocation = if leb (total_blocks - 1) cursor then 0 else cursor;
      encodings_bitmap = 1;
      file_count = counts.files;
      folder_count = counts.folders;
      next_catalog_id = u32 (counts.max_cnid + 1);
      alloc_file = special_file block_size r.alloc_start alloc_blocks;
      catalog_file = special_file block_size r.cat_start catalog_blocks;
      extents_file = special_file block_size r.ext_start extents_blocks;
      attributes_file = special_file block_size r.attr_start attrs_blocks;
      alloc_start_block = r.alloc_start;
      catalog_start_block = r.cat_start;
      extents_start_block = r.ext_start;
      attributes_start_block = r.attr_start;
      user_data_start = r.user_start;
      alloc_bitmap = bm;
      placements = placements;
    }

abbrev or_panic : Option AllocationBitmap → Result PlanError AllocationBitmap
or_panic none = err index_panic
or_panic (some a) = ok a

-- The part of `BuildPlan` behind the fixed point: the placements, the bitmap, the counts.
unfoldable pub finish_plan :
    ℕ
    → List Entry
    → List UserFile
    → List ℕ
    → ℕ
    → ℕ
    → ℕ
    → ℕ
    → ℕ
    → Result PlanError (Plan × List Entry)
finish_plan block_size entries files blocks catalog_blocks extents_blocks attrs_blocks alloc_blocks
      total_blocks =
    let r = regions alloc_blocks catalog_blocks extents_blocks attrs_blocks in
    let (placements, entries', cursor) = place_files r.user_start files blocks entries in
    let counts = count_entries (record { files = 0; folders = 0; max_cnid = 0 }) entries' in
    let sizes : ℕ × ℕ × ℕ × ℕ = (alloc_blocks, catalog_blocks, extents_blocks, attrs_blocks) in
    do
      bm ← or_panic (
          mark_plan r total_blocks alloc_blocks catalog_blocks extents_blocks attrs_blocks
            placements)
      ok (make_plan block_size r sizes total_blocks cursor counts bm placements, entries')

-- The fuel of the fixed point: the allocation file never needs more blocks than this.
abbrev pub alloc_fuel : ℕ → ℕ → ℕ
alloc_fuel others min_total = others + min_total + 2

-- `max(catalogBlocks, extentsBlocks, attrsBlocks)`, by the two tests of the code.
abbrev pub max_btree_blocks : ℕ → ℕ → ℕ → ℕ
max_btree_blocks catalog_blocks extents_blocks attrs_blocks =
    let m : ℕ = if ltb catalog_blocks extents_blocks then extents_blocks else catalog_blocks in
    if ltb m attrs_blocks then attrs_blocks else m

abbrev or_no_fuel : Option (ℕ × ℕ) → Result PlanError (ℕ × ℕ)
or_no_fuel none = err no_fuel
or_no_fuel (some p) = ok p

unfoldable pub build_plan :
    ℕ → List Entry → List UserFile → ℕ → ℕ → ℕ → Result PlanError (Plan × List Entry)
build_plan block_size entries files catalog_size extents_size attributes_size = do
  let bs : ℕ = if block_size == 0 then default_block_size else block_size
  refuse_if (refuses_block_size bs) (bad_block_size bs)
  catalog_blocks ← fork_blocks catalog catalog_size bs
  extents_blocks ← fork_blocks extents_overflow extents_size bs
  attrs_blocks ← fork_blocks attributes attributes_size bs
  (blocks, user_blocks) ← size_files bs 0 files
  let others = catalog_blocks + extents_blocks + attrs_blocks + user_blocks
  let min_total = 4 * max_btree_blocks catalog_blocks extents_blocks attrs_blocks
  (alloc_blocks, total_blocks) ←
      or_no_fuel (alloc_loop (alloc_fuel others min_total) others min_total bs 1)
  refuse_if (ltb max_u32 total_blocks) (volume_too_large total_blocks)
  finish_plan bs entries files blocks catalog_blocks extents_blocks attrs_blocks (u32 alloc_blocks)
      (u32 total_blocks)
