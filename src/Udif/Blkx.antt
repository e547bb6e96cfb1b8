-- ===== src/Udif/Blkx.antt =====
-- The chunk table of internal/udif/blkx.go on disk: `BlkxTable.Encode`.
pub mod Entries
mod Tests
use go_dmg_writer.Base.{ℕ, ◌+◌, ◌*◌, List, [], ◌∷◌, ◌++◌, length}
use go_dmg_writer.Base.Bytes.{Bytes, u32}
use go_dmg_writer.Wire.{Field, at32, at64, array, encode}
use go_dmg_writer.Udif.Chunks.{BlockRun}
use go_dmg_writer.Udif.Koly.{UdifChecksum, checksum_fields}

pub record BlkxTable : Type 0 where
  pub signature : ℕ
  pub info_version : ℕ
  pub first_sector_number : ℕ
  pub sector_count : ℕ
  pub data_start : ℕ
  pub decompress_buf_requested : ℕ
  pub blocks_descriptor : ℕ
  pub reserved : List ℕ
  pub checksum : UdifChecksum
  pub runs : List BlockRun

abbrev pub blkx_header_size : ℕ
blkx_header_size = 204

abbrev pub block_run_size : ℕ
block_run_size = 40

-- `BlockRun.encode` on the slice that starts at `at`
abbrev pub run_fields : ℕ → BlockRun → List Field
run_fields at r =
    at32 at r.run_type
    ∷ at32 (at + 4) r.reserved
    ∷ at64 (at + 8) r.sector_start
    ∷ at64 (at + 16) r.sector_count
    ∷ at64 (at + 24) r.comp_offset
    ∷ at64 (at + 32) r.comp_length
    ∷ []

-- The last loop of `BlkxTable.Encode`, with the next entry at `at`.
unfoldable pub runs_fields : ℕ → List BlockRun → List Field
runs_fields at [] = []
runs_fields at (r ∷ rs) = run_fields at r ++ runs_fields (at + block_run_size) rs

abbrev pub blkx_fields : BlkxTable → List Field
blkx_fields t =
    (at32 0 t.signature
      ∷ at32 4 t.info_version
      ∷ at64 8 t.first_sector_number
      ∷ at64 16 t.sector_count
      ∷ at64 24 t.data_start
      ∷ at32 32 t.decompress_buf_requested
      ∷ at32 36 t.blocks_descriptor
      ∷ array 40 6 t.reserved
      ∷ checksum_fields 64 t.checksum)
    ++ (at32 200 (u32 (length t.runs)) ∷ runs_fields blkx_header_size t.runs)

-- `BlkxTable.Encode`
unfoldable pub encode_blkx : BlkxTable → Bytes
encode_blkx t = encode (blkx_header_size + length t.runs * block_run_size) (blkx_fields t)
