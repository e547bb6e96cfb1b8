-- ===== src/Hfsplus/Btree/Pad.antt =====
-- `PadToBlocks` of internal/hfsplus/btree.go: a tree grows to the blocks of its file.
mod Tests
use go_dmg_writer.Base.{
  ℕ, ◌+◌, ◌-◌, ◌*◌, ◌/◌, ◌%◌, ◌^◌, ◌<◌, ◌≤◌, ◌≡◌, Bool, false, ◌||◌, ltb, ◌==◌, if◌then◌else◌, List,
  [], ◌∷◌, ◌++◌, length, replicate, take, drop, take-length_append, Result, ok, err, refuse_if,
  ◌>>=◌, ◌>>◌,
}
use mathlib.Core.Bool.{not}
use go_dmg_writer.Base.Bytes.{Bytes, u32, u64}
use go_dmg_writer.Wire.{Field, at32, write_all, slice, uint_at}
use go_dmg_writer.Hfsplus.Btree.Emit.{BuildOpts, BuildResult}

pub data PadError : Type 0 where
  pad_too_small : ℕ → ℕ → PadError
  pad_not_multiple : ℕ → ℕ → PadError
  pad_exceeds_map : ℕ → ℕ → PadError

-- `grown` with the old bytes at its start, if it is longer.
abbrev pub grow : ℕ → Bytes → Bytes
grow want bytes =
    if ltb (length bytes) want then bytes ++ replicate (want - length bytes) 0 else bytes

-- `r.FreeNodes += newTotal - r.TotalNodes` in uint32
abbrev pub free_after : BuildResult → ℕ → ℕ
free_after r new_total = u32 (r.free_nodes + (new_total + 4294967296 - r.total_nodes))

-- The writes of `PadToBlocks` into the header record.
abbrev pub total_fields : BuildResult → ℕ → List Field
total_fields r new_total = at32 36 new_total ∷ at32 40 (free_after r new_total) ∷ []

abbrev pub clump_fields : ℕ → List Field
clump_fields want = at32 46 (u32 want) ∷ []

abbrev pub padded : BuildResult → ℕ → ℕ → BuildResult
padded r want new_total =
    if new_total == r.total_nodes
    then record r { bytes = write_all (clump_fields want) (grow want r.bytes) }
    else record r {
      bytes =
          write_all (clump_fields want) (write_all (total_fields r new_total) (grow want r.bytes));
      free_nodes = free_after r new_total;
      total_nodes = new_total;
    }

-- `PadToBlocks`
unfoldable pub pad_to_blocks : ℕ → ℕ → BuildResult → Result PadError BuildResult
pad_to_blocks blocks block_size r =
    let want = u64 (blocks * block_size) in
    let size = r.opts.node_size in
    let new_total = u32 (want / size) in
    refuse_if (ltb want (length r.bytes)) (pad_too_small want (length r.bytes))
    >> (refuse_if (size == 0 || not (want % size == 0)) (pad_not_multiple want size)
        >> (refuse_if (ltb r.map_coverage new_total) (pad_exceeds_map new_total r.map_coverage)
            >> ok (padded r want new_total)))

-- The header record in the image says what the result says, whose numbers of nodes are 32 bits wide.
pub record HeaderAgrees (r : BuildResult) : Type 0 where
  pub total_field : uint_at 4 36 r.bytes ≡ r.total_nodes
  pub free_field : uint_at 4 40 r.bytes ≡ r.free_nodes
  pub long : 50 ≤ length r.bytes
  pub total_small : r.total_nodes < 2 ^ 32
  pub free_small : r.free_nodes < 2 ^ 32

-- What `PadToBlocks` makes of a tree.
pub record IsPadded (want : ℕ) (r r' : BuildResult) : Type 0 where
  pub size : length r'.bytes ≡ want
  pub total : r'.total_nodes ≡ u32 (want / r.opts.node_size)
  pub covered : r'.total_nodes ≤ r.map_coverage
  pub grown_free :
      (r'.free_nodes + r.total_nodes) % 2 ^ 32 ≡ (r.free_nodes + r'.total_nodes) % 2 ^ 32
  pub free_small : r'.free_nodes < 2 ^ 32
  pub total_found : uint_at 4 36 r'.bytes ≡ r'.total_nodes
  pub free_found : uint_at 4 40 r'.bytes ≡ r'.free_nodes
  pub clump_found : uint_at 4 46 r'.bytes ≡ u32 want
  pub start_kept : slice 0 36 r'.bytes ≡ slice 0 36 r.bytes
  pub rest_kept : slice 50 (length r.bytes - 50) r'.bytes ≡ slice 50 (length r.bytes - 50) r.bytes
