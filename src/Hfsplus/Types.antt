-- ===== src/Hfsplus/Types.antt =====
-- internal/hfsplus/types.go: the structures of the volume format.
use go_dmg_writer.Base.{ℕ, List, ◌∷◌, replicate}

pub record ExtentDescriptor : Type 0 where
  pub start_block : ℕ
  pub block_count : ℕ

abbrev pub no_extent : ExtentDescriptor
no_extent = record { start_block = 0; block_count = 0 }

-- `[8]ExtentDescriptor`
abbrev pub ExtentRecord : Type 0
ExtentRecord = List ExtentDescriptor

abbrev pub no_extents : ExtentRecord
no_extents = replicate 8 no_extent

pub record ForkData : Type 0 where
  pub logical_size : ℕ
  pub clump_size : ℕ
  pub total_blocks : ℕ
  pub extents : ExtentRecord

-- `LogicalToExtent` of allocation.go: the run in the first slot, the other seven empty.
abbrev pub logical_to_extent : ℕ → ℕ → ExtentRecord
logical_to_extent start count =
    record { start_block = start; block_count = count } ∷ replicate 7 no_extent
