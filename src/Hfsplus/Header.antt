-- ===== src/Hfsplus/Header.antt =====
-- The volume header: `VolumeHeader.Encode` and `ForkData.encode` of internal/hfsplus/types.go, and
-- `BuildVolumeHeader` of internal/hfsplus/volumeheader.go.
pub mod RoundTrip
mod Tests
use go_dmg_writer.Base.{ℕ, ◌+◌, List, [], ◌∷◌, ◌++◌, replicate}
use go_dmg_writer.Base.Bytes.{Bytes}
use go_dmg_writer.Wire.{Field, at16, at32, at64, array, encode}
use go_dmg_writer.Hfsplus.Allocation.{free_blocks}
use go_dmg_writer.Hfsplus.Plan.{Plan}
use go_dmg_writer.Hfsplus.Types.{ForkData, ExtentDescriptor, ExtentRecord, no_extents}

-- The numbers of an extent record in the order of the loop of `ForkData.encode`.
unfoldable pub extent_words : ExtentRecord → List ℕ
extent_words [] = []
extent_words (e ∷ es) = e.start_block ∷ e.block_count ∷ extent_words es

-- `ForkData.encode` on the slice that starts at `at`
abbrev pub fork_fields : ℕ → ForkData → List Field
fork_fields at f =
    at64 at f.logical_size
    ∷ at32 (at + 8) f.clump_size
    ∷ at32 (at + 12) f.total_blocks
    ∷ array (at + 16) 16 (extent_words f.extents)
    ∷ []

abbrev pub no_fork : ForkData
no_fork = record { logical_size = 0; clump_size = 0; total_blocks = 0; extents = no_extents }

pub record VolumeHeader : Type 0 where
  pub signature : ℕ
  pub version : ℕ
  pub attributes : ℕ
  pub last_mounted_version : ℕ
  pub journal_info_block : ℕ
  pub create_date : ℕ
  pub modify_date : ℕ
  pub backup_date : ℕ
  pub checked_date : ℕ
  pub file_count : ℕ
  pub folder_count : ℕ
  pub block_size : ℕ
  pub total_blocks : ℕ
  pub free_blocks : ℕ
  pub next_allocation : ℕ
  pub rsrc_clump_size : ℕ
  pub data_clump_size : ℕ
  pub next_catalog_id : ℕ
  pub write_count : ℕ
  pub encodings_bitmap : ℕ
  pub finder_info : List ℕ
  pub allocation_file : ForkData
  pub extents_file : ForkData
  pub catalog_file : ForkData
  pub attributes_file : ForkData
  pub startup_file : ForkData

abbrev pub volume_header_size : ℕ
volume_header_size = 512

-- The writes of `VolumeHeader.Encode`, in their order.
abbrev pub header_fields : VolumeHeader → List Field
header_fields v =
    (at16 0 v.signature
      ∷ at16 2 v.version
      ∷ at32 4 v.attributes
      ∷ at32 8 v.last_mounted_version
      ∷ at32 12 v.journal_info_block
      ∷ at32 16 v.create_date
      ∷ at32 20 v.modify_date
      ∷ at32 24 v.backup_date
      ∷ at32 28 v.checked_date
      ∷ at32 32 v.file_count
      ∷ at32 36 v.folder_count
      ∷ at32 40 v.block_size
      ∷ at32 44 v.total_blocks
      ∷ at32 48 v.free_blocks
      ∷ at32 52 v.next_allocation
      ∷ at32 56 v.rsrc_clump_size
      ∷ at32 60 v.data_clump_size
      ∷ at32 64 v.next_catalog_id
      ∷ at32 68 v.write_count
      ∷ at64 72 v.encodings_bitmap
      ∷ array 80 8 v.finder_info
      ∷ [])
    ++ fork_fields 112 v.allocation_file
    ++ fork_fields 192 v.extents_file
    ++ fork_fields 272 v.catalog_file
    ++ fork_fields 352 v.attributes_file
    ++ fork_fields 432 v.startup_file

-- `VolumeHeader.Encode`
unfoldable pub encode_header : VolumeHeader → Bytes
encode_header v = encode volume_header_size (header_fields v)

-- `BuildVolumeHeader`
unfoldable pub build_volume_header : Plan → ℕ → VolumeHeader
build_volume_header plan mac_time = record {
  signature = 0x4858;
  version = 5;
  attributes = 0x100;
  last_mounted_version = 0x676f2d64;
  journal_info_block = 0;
  create_date = mac_time;
  modify_date = mac_time;
  backup_date = mac_time;
  checked_date = mac_time;
  file_count = plan.file_count;
  folder_count = plan.folder_count;
  block_size = plan.block_size;
  total_blocks = plan.total_blocks;
  free_blocks = free_blocks plan.alloc_bitmap;
  next_allocation = plan.next_allocation;
  rsrc_clump_size = plan.block_size;
  data_clump_size = plan.block_size;
  next_catalog_id = plan.next_catalog_id;
  write_count = 1;
  encodings_bitmap = plan.encodings_bitmap;
  finder_info = replicate 8 0;
  allocation_file = plan.alloc_file;
  extents_file = plan.extents_file;
  catalog_file = plan.catalog_file;
  attributes_file = plan.attributes_file;
  startup_file = no_fork;
}
