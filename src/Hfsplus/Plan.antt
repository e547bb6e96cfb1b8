-- ===== src/Hfsplus/Plan.antt =====
-- internal/hfsplus/layout.go: what the planner takes and returns, and what it counts.
use go_dmg_writer.Base.{ℕ, ◌+◌, List, [], ◌∷◌, ltb, ◌==◌, if◌then◌else◌}
use go_dmg_writer.Base.Bytes.{u32}
use go_dmg_writer.Hfsplus.Allocation.{AllocationBitmap}
use go_dmg_writer.Hfsplus.Types.{ForkData}
use go_dmg_writer.Hfsplus.Entry.{
  Entry, EntryKind, folder, file, symlink, unknown, cnid_root_parent, cnid_root_folder,
}

abbrev pub default_block_size : ℕ
default_block_size = 4096

abbrev pub max_u32 : ℕ
max_u32 = 4294967295

-- `entry` is the `*Entry`, as a position in the slice of entries that the caller holds.
pub record UserFile : Type 0 where
  pub entry : ℕ
  pub size : ℕ

pub record FilePlacement : Type 0 where
  pub start_block : ℕ
  pub blocks : ℕ

pub record Plan : Type 0 where
  pub block_size : ℕ
  pub total_blocks : ℕ
  pub next_allocation : ℕ
  pub encodings_bitmap : ℕ
  pub file_count : ℕ
  pub folder_count : ℕ
  pub next_catalog_id : ℕ
  pub alloc_file : ForkData
  pub catalog_file : ForkData
  pub extents_file : ForkData
  pub attributes_file : ForkData
  pub alloc_start_block : ℕ
  pub catalog_start_block : ℕ
  pub extents_start_block : ℕ
  pub attributes_start_block : ℕ
  pub user_data_start : ℕ
  pub alloc_bitmap : AllocationBitmap
  pub placements : List FilePlacement

pub data ForkName : Type 0 where
  catalog extents_overflow attributes : ForkName

-- The errors that the code returns; `index_panic` is a run-time panic, and `no_fuel` is no outcome
-- of the code.
pub data PlanError : Type 0 where
  bad_block_size : ℕ → PlanError
  fork_too_large : ForkName → ℕ → PlanError
  file_too_large : ℕ → ℕ → PlanError
  volume_too_large : ℕ → PlanError
  index_panic no_fuel : PlanError

-- `fileCount`, `folderCount` and `maxCNID`, over the entries that are left.
pub record Counts : Type 0 where
  pub files : ℕ
  pub folders : ℕ
  pub max_cnid : ℕ

unfoldable pub count_kind : Entry → EntryKind → Counts → Counts
count_kind e folder c =
    if e.cnid == cnid_root_folder then c else record c { folders = u32 (c.folders + 1) }
count_kind e file c = record c { files = u32 (c.files + 1) }
count_kind e symlink c = record c { files = u32 (c.files + 1) }
count_kind e (unknown _) c = c

unfoldable pub count_entries : Counts → List Entry → Counts
unfolding count_kind
count_entries c [] = c
count_entries c (e ∷ es) =
    count_entries
      (if e.cnid == cnid_root_parent
        then c
        else count_kind e e.kind
            (record c { max_cnid = if ltb c.max_cnid e.cnid then e.cnid else c.max_cnid }))
      es
