-- ===== src/Hfsplus/Allocation/Tests.antt =====
-- The allocation bitmap on small volumes.
use mathlib.Core.Bool.{not}
use go_dmg_writer.Base.{ℕ, ◌<◌, ◌≡◌, refl, ◌&&◌, ◌||◌, [], ◌∷◌, some, ltb, leb, arith}
use go_dmg_writer.Hfsplus.Allocation.{
  AllocationBitmap, new_allocation_bitmap, mark_used, mark_loop, set_bit, used, free_blocks,
  count_used, popcount8,
}
use go_dmg_writer.Hfsplus.Allocation.Mark.{IsBitmap, mark_used_lem, new_allocation_bitmap-IsBitmap}
use go_dmg_writer.Hfsplus.Allocation.Free.{count_below, free_blocks_lem}

abbrev twenty : AllocationBitmap
twenty = new_allocation_bitmap 20

mark_used_lem_example :
    (a : AllocationBitmap) × (mark_used 3 7 twenty ≡ some a)
    × IsBitmap a
    × (a.bits ≡ twenty.bits)
    × ((c : ℕ) → c < twenty.bits → used a c ≡ (used twenty c || (leb 3 c && ltb c 10)))
mark_used_lem_example =
    mark_used_lem 3 7 twenty (new_allocation_bitmap-IsBitmap 20 (omega arith)) (omega arith)

free_blocks_lem_example : free_blocks twenty ≡ count_below twenty.bits (λ b. not (used twenty b))
unfolding new_allocation_bitmap
free_blocks_lem_example =
    free_blocks_lem twenty (new_allocation_bitmap-IsBitmap 20 (omega arith)) (omega arith)

marked_bytes :
    mark_used 6 4 (new_allocation_bitmap 20) ≡ some (record { bytes = 3 ∷ 192 ∷ 0 ∷ []; bits = 20 })
unfolding mark_used mark_loop set_bit new_allocation_bitmap
marked_bytes = refl

marked_free : free_blocks (record { bytes = 3 ∷ 192 ∷ 0 ∷ []; bits = 20 }) ≡ 16
unfolding free_blocks count_used popcount8
marked_free = refl
