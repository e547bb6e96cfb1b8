-- ===== src/Hfsplus/Allocation.antt =====
-- internal/hfsplus/allocation.go: the allocation bitmap, one bit for each allocation block, the
-- lowest block in the highest bit of its byte.
mod Tests
pub mod Bits
pub mod Mark
pub mod Free
use Prim.Native.Nat.{bit_and, bit_or}
use go_dmg_writer.Base.{
  ℕ, zero, suc, ◌+◌, ◌-◌, ◌*◌, ◌/◌, ◌%◌, ◌^◌, Bool, List, [], ◌∷◌, Option, none, some, ltb, leb,
  ◌==◌, if◌then◌else◌, length, get_or, set, replicate,
}
use go_dmg_writer.Base.Bytes.{Bytes, u8, u32, u64}

pub record AllocationBitmap : Type 0 where
  pub bytes : Bytes
  pub bits : ℕ  -- total number of blocks the bitmap covers

-- `(totalBlocks + 7) / 8` is computed in uint32.
unfoldable pub new_allocation_bitmap : ℕ → AllocationBitmap
new_allocation_bitmap total_blocks = record {
  bytes = replicate (u32 (total_blocks + 7) / 8) 0;
  bits = total_blocks;
}

-- `1 << (7 - k)` for the block `k` of a byte.
abbrev pub mask : ℕ → ℕ
mask k = 2 ^ (7 - k)

-- `a.bytes[b/8] |= 1 << (7 - (b % 8))`; `none` is the panic of an index out of range.
unfoldable pub set_bit : AllocationBitmap → ℕ → Option AllocationBitmap
set_bit a b =
    if ltb (b / 8) (length a.bytes)
    then some (record a {
      bytes = set a.bytes (b / 8) (bit_or (get_or a.bytes (b / 8) 0) (mask (b % 8)));
    })
    else none

-- The loop of `MarkUsed` at round `i`, with `left` rounds to go.
unfoldable pub mark_loop : ℕ → ℕ → ℕ → AllocationBitmap → Option AllocationBitmap
mark_loop zero start i a = some a
mark_loop (suc left) start i a =
    let b = u32 (start + i) in
    let rest : Option AllocationBitmap = elim (set_bit a b) [
      | none ↦ none
      | some a' ↦ mark_loop left start (i + 1) a'
    ] in
    if leb a.bits b then some a else rest

unfoldable pub mark_used : ℕ → ℕ → AllocationBitmap → Option AllocationBitmap
unfolding mark_loop set_bit
mark_used start count a = mark_loop count start 0 a

-- The additions are on uint8.
unfoldable pub popcount8 : ℕ → ℕ
popcount8 b =
    let b1 = u8 (bit_and b 0x55 + bit_and (b / 2) 0x55) in
    let b2 = u8 (bit_and b1 0x33 + bit_and (b1 / 4) 0x33) in
    u8 (bit_and b2 0x0f + bit_and (b2 / 16) 0x0f)

unfoldable pub count_used : ℕ → Bytes → ℕ
count_used used [] = used
count_used used (b ∷ bs) = count_used (u32 (used + popcount8 b)) bs

unfoldable pub free_blocks : AllocationBitmap → ℕ
unfolding count_used
free_blocks a = u32 (a.bits + 2 ^ 32 - count_used 0 a.bytes)

-- `DivRoundUp`, in uint64.
unfoldable pub div_round_up : ℕ → ℕ → ℕ
div_round_up n d = u64 (u64 (n + d) + 2 ^ 64 - 1) / d

-- Whether block `b` is marked.
abbrev pub bit_of : ℕ → ℕ → ℕ
bit_of x k = x / mask k % 2

unfoldable pub used : AllocationBitmap → ℕ → Bool
used a b = bit_of (get_or a.bytes (b / 8) 0) (b % 8) == 1
