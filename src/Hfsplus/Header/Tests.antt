-- ===== src/Hfsplus/Header/Tests.antt =====
-- The volume header of a small plan.
use go_dmg_writer.Base.{ℕ, ◌≡◌, refl, [], ◌∷◌, length}
use go_dmg_writer.Wire.Decide.{all_fit-Fits, all_fit}
use go_dmg_writer.Hfsplus.Types.{ForkData, logical_to_extent}
use go_dmg_writer.Hfsplus.Plan.{Plan}
use go_dmg_writer.Hfsplus.Allocation.{free_blocks, count_used, popcount8}
use go_dmg_writer.Hfsplus.Header.{
  VolumeHeader, extent_words, header_fields, encode_header, build_volume_header,
}
use go_dmg_writer.Hfsplus.Header.RoundTrip.{read_header, read_header-encode_header}

abbrev a_fork : ℕ → ForkData
a_fork start = record {
  logical_size = 4096;
  clump_size = 4096;
  total_blocks = 1;
  extents = logical_to_extent start 1;
}

abbrev a_plan : Plan
a_plan = record {
  block_size = 4096;
  total_blocks = 9;
  next_allocation = 6;
  encodings_bitmap = 1;
  file_count = 1;
  folder_count = 0;
  next_catalog_id = 17;
  alloc_file = a_fork 1;
  catalog_file = a_fork 2;
  extents_file = a_fork 3;
  attributes_file = a_fork 4;
  alloc_start_block = 1;
  catalog_start_block = 2;
  extents_start_block = 3;
  attributes_start_block = 4;
  user_data_start = 5;
  alloc_bitmap = record { bytes = 252 ∷ 128 ∷ []; bits = 9 };
  placements = [];
}

abbrev a_header : VolumeHeader
a_header = build_volume_header a_plan 3600000000

read_header-encode_header_example :
    (length (encode_header a_header) ≡ 512) × (read_header (encode_header a_header) ≡ a_header)
unfolding all_fit build_volume_header free_blocks count_used popcount8 extent_words
read_header-encode_header_example =
    read_header-encode_header a_header (all_fit-Fits (header_fields a_header) refl)
