-- ===== src/Hfsplus/Layout/Tests.antt =====
-- The planner on one file of 5000 bytes, and on the two sizes around the largest volume.
use go_dmg_writer.Base.{
  ℕ, ◌+◌, ◌*◌, ◌<◌, ◌≡◌, refl, ◌||◌, List, [], ◌∷◌, some, ltb, ◌==◌, ok, err, arith,
}
use go_dmg_writer.Hfsplus.Entry.{Entry}
use go_dmg_writer.Hfsplus.Allocation.{AllocationBitmap, used, div_round_up}
use go_dmg_writer.Hfsplus.Allocation.Mark.{IsBitmap}
use go_dmg_writer.Hfsplus.Layout.{
  regions, size_files, place_files, alloc_loop, alloc_fuel, mark_plan, build_plan, fork_blocks,
  refuses_block_size,
}
use go_dmg_writer.Hfsplus.Plan.{UserFile, Plan, volume_too_large, index_panic}
use go_dmg_writer.Hfsplus.Layout.Converge.{IsLeastVolume, alloc_loop-IsLeastVolume}
use go_dmg_writer.Hfsplus.Layout.Place.{
  Sized, InOrder, blocks_of, sum, size_files-Sized, place_files_lem,
}
use go_dmg_writer.Hfsplus.Layout.Marked.{mark_plan_lem}
use go_dmg_writer.Hfsplus.Layout.Planned.{IsLayout}
use go_dmg_writer.Hfsplus.Layout.Outcome.{
  IsAccepted, build_plan-IsLayout, build_plan_too_large, build_plan_panics,
}

abbrev one_file : List UserFile
one_file = record { entry = 0; size = 5000 } ∷ []

abbrev file_of : ℕ → List UserFile
file_of blocks = record { entry = 0; size = blocks * 4096 } ∷ []

one_file-IsAccepted : IsAccepted 4096 one_file 8192 4096 4096 2 1 1 (2 ∷ []) 2
unfolding fork_blocks size_files refuses_block_size div_round_up
one_file-IsAccepted = record {
  big = omega arith;
  word = omega arith;
  power = refl;
  cat_fits = refl;
  ext_fits = refl;
  attr_fits = refl;
  files_fit = refl;
  sizes = (omega arith, tt);
  few = omega arith;
}

one_file-IsLeastVolume : IsLeastVolume 6 8 4096 1 9
one_file-IsLeastVolume = record {
  one_at_least = omega arith;
  is_total = refl;
  bitmap_fits = omega arith;
  least = λ a lo hi. absurd (omega arith);
}

build_plan-IsLayout_example :
    (p : Plan) × (es : List Entry) × (build_plan 4096 [] one_file 8192 4096 4096 ≡ ok (p, es))
    × IsLayout one_file p
    × (p.total_blocks ≡ 9)
    × (p.block_size ≡ 4096)
    × (p.alloc_file.total_blocks ≡ 1)
build_plan-IsLayout_example =
    build_plan-IsLayout 4096 one_file 8192 4096 4096 2 1 1 (2 ∷ []) 2 one_file-IsAccepted []
      one_file-IsLeastVolume (omega arith)

-- One file fills the volume up to its last possible block.
full-IsAccepted :
    IsAccepted 4096 (file_of 4294836218) 4096 4096 4096 1 1 1 (4294836218 ∷ []) 4294836218
unfolding fork_blocks size_files refuses_block_size div_round_up
full-IsAccepted = record {
  big = omega arith;
  word = omega arith;
  power = refl;
  cat_fits = refl;
  ext_fits = refl;
  attr_fits = refl;
  files_fit = refl;
  sizes = (omega arith, tt);
  few = omega arith;
}

full-IsLeastVolume : IsLeastVolume 4294836221 4 4096 131072 4294967295
full-IsLeastVolume = record {
  one_at_least = omega arith;
  is_total = refl;
  bitmap_fits = omega arith;
  least = λ a lo hi. omega arith;
}

build_plan_panics_example : build_plan 4096 [] (file_of 4294836218) 4096 4096 4096 ≡ err index_panic
build_plan_panics_example =
    build_plan_panics 4096 (file_of 4294836218) 4096 4096 4096 1 1 1 (4294836218 ∷ []) 4294836218
      full-IsAccepted [] full-IsLeastVolume (omega arith) (omega arith)

-- One block more.
over-IsAccepted :
    IsAccepted 4096 (file_of 4294836219) 4096 4096 4096 1 1 1 (4294836219 ∷ []) 4294836219
unfolding fork_blocks size_files refuses_block_size div_round_up
over-IsAccepted = record {
  big = omega arith;
  word = omega arith;
  power = refl;
  cat_fits = refl;
  ext_fits = refl;
  attr_fits = refl;
  files_fit = refl;
  sizes = (omega arith, tt);
  few = omega arith;
}

over-IsLeastVolume : IsLeastVolume 4294836222 4 4096 131072 4294967296
over-IsLeastVolume = record {
  one_at_least = omega arith;
  is_total = refl;
  bitmap_fits = omega arith;
  least = λ a lo hi. omega arith;
}

build_plan_too_large_example :
    build_plan 4096 [] (file_of 4294836219) 4096 4096 4096 ≡ err (volume_too_large 4294967296)
build_plan_too_large_example =
    build_plan_too_large 4096 (file_of 4294836219) 4096 4096 4096 1 1 1 (4294836219 ∷ []) 4294836219
      over-IsAccepted [] over-IsLeastVolume (omega arith)

alloc_loop-IsLeastVolume_example :
    (r : ℕ × ℕ) × (alloc_loop (alloc_fuel 70000 8) 70000 8 512 1 ≡ some r)
    × IsLeastVolume 70000 8 512 r.0 r.1
alloc_loop-IsLeastVolume_example =
    alloc_loop-IsLeastVolume 70000 8 512 (omega arith) (omega arith) (omega arith)

size_files-Sized_example : Sized 4096 one_file 0 (size_files 4096 0 one_file)
size_files-Sized_example =
    size_files-Sized 4096 0 one_file (omega arith) (omega arith, tt) (omega arith)

place_files_lem_example :
    InOrder 6 (place_files 6 one_file (2 ∷ []) []).0 (6 + sum (2 ∷ []))
    × (blocks_of (place_files 6 one_file (2 ∷ []) []).0 ≡ 2 ∷ [])
    × ((place_files 6 one_file (2 ∷ []) []).2 ≡ 6 + sum (2 ∷ []))
place_files_lem_example = place_files_lem 6 one_file (2 ∷ []) [] refl (omega arith)

mark_plan_lem_example :
    (a : AllocationBitmap) × (mark_plan
        (regions 1 2 1 1)
        9
        1
        2
        1
        1
        (record { start_block = 6; blocks = 2 } ∷ [])
      ≡ some a)
    × IsBitmap a
    × (a.bits ≡ 9)
    × ((b : ℕ) → b < 9 → used a b ≡ (ltb b 8 || (b == 8)))
unfolding regions
mark_plan_lem_example =
    mark_plan_lem (regions 1 2 1 1) 9 1 2 1 1 8 (record { start_block = 6; blocks = 2 } ∷ [])
      (record {
        alloc_at = refl;
        cat_at = refl;
        ext_at = refl;
        attr_at = refl;
        user_at = refl;
        room = omega arith;
        files_behind = omega arith;
        word = omega arith;
      })
      (refl, refl)
