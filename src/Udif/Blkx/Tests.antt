-- ===== src/Udif/Blkx/Tests.antt =====
-- Runs of the code of internal/udif/blkx.go on small inputs.
use go_dmg_writer.Base.{ℕ, ◌+◌, ◌*◌, ◌≡◌, refl, [], ◌∷◌, replicate, length, arith}
use go_dmg_writer.Wire.{uint_at}
use go_dmg_writer.Wire.Decide.{all_fit-Fits, all_fit}
use go_dmg_writer.Udif.Chunks.{BlockRun}
use go_dmg_writer.Udif.Blkx.{BlkxTable, blkx_fields, runs_fields, encode_blkx}
use go_dmg_writer.Udif.Blkx.Entries.{read_runs, read_runs-encode_blkx}

abbrev a_run : ℕ → ℕ → BlockRun
a_run kind start = record {
  run_type = kind;
  reserved = 0;
  sector_start = start;
  sector_count = 512;
  comp_offset = 0;
  comp_length = 99;
}

abbrev a_table : BlkxTable
a_table = record {
  signature = 0x6d697368;
  info_version = 1;
  first_sector_number = 0;
  sector_count = 1024;
  data_start = 0;
  decompress_buf_requested = 520;
  blocks_descriptor = 0xfffffffe;
  reserved = replicate 6 0;
  checksum = record { check_type = 2; size = 32; data_words = replicate 32 7 };
  runs = a_run 0x80000005 0 ∷ a_run 2 512 ∷ [];
}

read_runs-encode_blkx_example :
    (length (encode_blkx a_table) ≡ 204 + 2 * 40)
    × (uint_at 4 200 (encode_blkx a_table) ≡ 2)
    × (read_runs (uint_at 4 200 (encode_blkx a_table)) 204 (encode_blkx a_table) ≡ a_table.runs)
unfolding all_fit runs_fields
read_runs-encode_blkx_example =
    read_runs-encode_blkx a_table (all_fit-Fits (blkx_fields a_table) refl) (omega arith)
