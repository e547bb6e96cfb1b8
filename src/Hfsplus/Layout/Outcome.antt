-- ===== src/Hfsplus/Layout/Outcome.antt =====
-- internal/hfsplus/layout.go, the outcomes of `BuildPlan`.
use mathlib.Core.Path.{subst}
use go_dmg_writer.Base.{
  ℕ, ◌+◌, ◌*◌, ◌/◌, ◌^◌, ◌≤◌, ◌<◌, ◌≡◌, true, false, List, [], All, length, none, ltb, leb, ◌==◌,
  ok, err, refuse_if, ◌>>◌, arith,
}
use go_dmg_writer.Base.Bytes.{u32}
use go_dmg_writer.Hfsplus.Entry.{Entry}
use go_dmg_writer.Hfsplus.Allocation.{new_allocation_bitmap, mark_used, mark_loop, set_bit}
use go_dmg_writer.Hfsplus.Layout.{
  fork_blocks, size_files, max_btree_blocks, build_plan, refuses_block_size, finish_plan, mark_plan,
  Regions, regions,
}
use go_dmg_writer.Hfsplus.Plan.{
  UserFile, Plan, max_u32, catalog, extents_overflow, attributes, volume_too_large, index_panic,
  ForkName, FilePlacement,
}
use go_dmg_writer.Hfsplus.Layout.Place.{IsSize, Sized, size_files-Sized}
use go_dmg_writer.Hfsplus.Layout.Converge.{
  IsLeastVolume, IsLeastVolume-unique, alloc_loop-IsLeastVolume,
}
use go_dmg_writer.Hfsplus.Layout.Planned.{IsLayout, finish_plan-IsLayout}

-- Inputs that pass the first checks of `BuildPlan`, with what those compute: the blocks of the
-- special files (`cat`, `ext`, `attr`) and of the user files. The bounds keep the uint64
-- arithmetic from wrapping: a file's size comes from an int64, and 2^28 files do not fit memory.
pub record IsAccepted (block_size : ℕ) (files : List UserFile)
    (catalog_size extents_size attributes_size : ℕ) (cat ext attr : ℕ) (blocks : List ℕ) (user : ℕ)
    : Type 0 where
  pub big : 512 ≤ block_size
  pub word : block_size < 2 ^ 32
  pub power : refuses_block_size block_size ≡ false
  pub cat_fits : fork_blocks catalog catalog_size block_size ≡ ok cat
  pub ext_fits : fork_blocks extents_overflow extents_size block_size ≡ ok ext
  pub attr_fits : fork_blocks attributes attributes_size block_size ≡ ok attr
  pub files_fit : size_files block_size 0 files ≡ ok (blocks, user)
  pub sizes : All (IsSize block_size) files
  pub few : length files < 2 ^ 28

fork_blocks-le :
    (name : ForkName) (size block_size n : ℕ)
    → fork_blocks name size block_size ≡ ok n
    → n ≤ max_u32
unfolding fork_blocks
fork_blocks-le name size block_size n e = ground arith

-- The wrapped size of the bitmap.
empty_bitmap :
    (total : ℕ)
    → 2 ^ 32 ≤ total + 7
    → total < 2 ^ 32
    → new_allocation_bitmap total ≡ record { bytes = []; bits = total }
unfolding new_allocation_bitmap
empty_bitmap total lo hi = let none_left : u32 (total + 7) / 8 ≡ 0 = omega arith in rw none_left

mark_plan-eq-none :
    (r : Regions) (total alloc cat ext attr : ℕ) (ps : List FilePlacement)
    → 2 ^ 32 ≤ total + 7
    → total < 2 ^ 32
    → mark_plan r total alloc cat ext attr ps ≡ none
unfolding mark_plan mark_used mark_loop set_bit
mark_plan-eq-none r total alloc cat ext attr ps lo hi =
    let some_blocks : leb total 0 ≡ false = ground arith in
    rw (empty_bitmap total lo hi, some_blocks)

module _ (block_size : ℕ) (files : List UserFile) (catalog_size extents_size attributes_size : ℕ)
    (cat ext attr : ℕ) (blocks : List ℕ) (user : ℕ)
    (s : IsAccepted block_size files catalog_size extents_size attributes_size cat ext attr blocks
      user) where
  abbrev others : ℕ
  others = cat + ext + attr + user

  abbrev min_total : ℕ
  min_total = 4 * max_btree_blocks cat ext attr

  sized : Sized block_size files 0 (ok (blocks, user))
  sized =
      subst (Sized block_size files 0) s.files_fit
        (size_files-Sized block_size 0 files (omega (arith, s.big)) s.sizes (omega (arith, s.few)))

  max_btree-le :
      (max_btree_blocks cat ext attr ≤ max_u32)
      × (cat ≤ max_u32)
      × (ext ≤ max_u32)
      × (attr ≤ max_u32)
  max_btree-le =
      let c = fork_blocks-le catalog catalog_size block_size cat s.cat_fits in
      let e = fork_blocks-le extents_overflow extents_size block_size ext s.ext_fits in
      let a = fork_blocks-le attributes attributes_size block_size attr s.attr_fits in
      (ground arith, c, e, a)

  small : others + min_total < 2 ^ 62
  small = omega (arith, max_btree-le, sized, s.few)

  -- Behind the stages that `s` describes, `BuildPlan` tests the size of the least volume.
  enters :
      (entries : List Entry) {alloc total : ℕ}
      → IsLeastVolume others min_total block_size alloc total
      → build_plan block_size entries files catalog_size extents_size attributes_size ≡ (
          refuse_if (ltb max_u32 total) (volume_too_large total)
          >> finish_plan block_size entries files blocks cat ext attr (u32 alloc) (u32 total))
  enters entries {alloc} {total} v =
      let (r, e, w) = alloc_loop-IsLeastVolume others min_total block_size s.big s.word small in
      let (same_a, same_t) =
        IsLeastVolume-unique others min_total block_size r.0 alloc r.1 total w v in
      let given : (block_size == 0) ≡ false = ground (arith, s.big) in
      unfold build_plan in
      rw (given, s.power, s.cat_fits, s.ext_fits, s.attr_fits, s.files_fit, e, same_a, same_t)

  -- On inputs that pass the first checks, if the least volume has at most 2^32 - 8 blocks,
  -- `BuildPlan` returns a plan of that size and of the given block size, laid out in order and
  -- with no overlap, each file with the least blocks that hold it, and with the bitmap and the
  -- count of free blocks that go with it.
  pub build_plan-IsLayout :
      (entries : List Entry) {alloc total : ℕ}
      → IsLeastVolume others min_total block_size alloc total
      → total + 7 < 2 ^ 32
      → (p : Plan) × (es : List Entry) × (build_plan block_size entries files catalog_size
            extents_size attributes_size
          ≡ ok (p, es))
        × IsLayout files p
        × (p.total_blocks ≡ total)
        × (p.block_size ≡ block_size)
        × (p.alloc_file.total_blocks ≡ alloc)
  build_plan-IsLayout entries {alloc} {total} v word =
      let keep_a : u32 alloc ≡ alloc = omega (arith, v.is_total) in
      let keep_t : u32 total ≡ total = omega arith in
      let fine : ltb max_u32 total ≡ false = ground arith in
      rw (enters entries v, fine, keep_a, keep_t)
        (finish_plan-IsLayout block_size entries files blocks cat ext attr alloc total sized.1
          (omega (arith, v.is_total, sized)) word)

  -- On inputs that pass the first checks, if the least volume has 2^32 blocks or more,
  -- `BuildPlan` refuses it with its size.
  pub build_plan_too_large :
      (entries : List Entry) {alloc total : ℕ}
      → IsLeastVolume others min_total block_size alloc total
      → 2 ^ 32 ≤ total
      → build_plan block_size entries files catalog_size extents_size attributes_size
        ≡ err (volume_too_large total)
  build_plan_too_large entries {alloc} {total} v big =
      let over : ltb max_u32 total ≡ true = ground arith in rw (enters entries v, over)

  -- On inputs that pass the first checks, if the least volume has 2^32 - 7 to 2^32 - 1 blocks,
  -- which the size test lets through, `BuildPlan` panics: the bitmap's byte count wraps to 0,
  -- and the first mark is out of range.
  pub build_plan_panics :
      (entries : List Entry) {alloc total : ℕ}
      → IsLeastVolume others min_total block_size alloc total
      → 2 ^ 32 ≤ total + 7
      → total < 2 ^ 32
      → build_plan block_size entries files catalog_size extents_size attributes_size
        ≡ err index_panic
  build_plan_panics entries {alloc} {total} v lo hi =
      let keep_t : u32 total ≡ total = omega arith in
      let fine : ltb max_u32 total ≡ false = ground arith in
      rw (enters entries v, fine, keep_t)
        (unfold finish_plan in
          rw (
            mark_plan-eq-none (regions (u32 alloc) cat ext attr) total (u32 alloc) cat ext attr _ lo
              hi))
