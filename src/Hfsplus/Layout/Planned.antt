-- ===== src/Hfsplus/Layout/Planned.antt =====
-- internal/hfsplus/layout.go, the second half of `BuildPlan` against what a plan is to promise.
use mathlib.Core.Path.{subst}
use go_dmg_writer.Base.{
  ℕ, ◌+◌, ◌-◌, ◌^◌, ◌<◌, ◌≡◌, refl, ap, ◌∙◌, ◌||◌, List, [], ◌∷◌, length, ltb, leb, ◌==◌,
  if◌then◌else◌, ok, arith,
}
use go_dmg_writer.Hfsplus.Entry.{Entry}
use go_dmg_writer.Hfsplus.Allocation.{used, free_blocks}
use go_dmg_writer.Hfsplus.Layout.{regions, place_files, finish_plan, make_plan}
use go_dmg_writer.Hfsplus.Plan.{UserFile, Plan, count_entries}
use go_dmg_writer.Hfsplus.Layout.Place.{sum, Fits, InOrder, blocks_of, place_files_lem}
use go_dmg_writer.Hfsplus.Layout.Marked.{IsRoomy, mark_plan_lem, free_blocks-marked}

-- A volume layout: the boot block, the allocation file, the three B-trees and the files lie one
-- behind the other, and the last block is kept for the alternate header.
pub record IsLayout (files : List UserFile) (p : Plan) : Type 0 where
  pub alloc_at : p.alloc_start_block ≡ 1
  pub catalog_at : p.catalog_start_block ≡ p.alloc_start_block + p.alloc_file.total_blocks
  pub extents_at : p.extents_start_block ≡ p.catalog_start_block + p.catalog_file.total_blocks
  pub attributes_at : p.attributes_start_block ≡ p.extents_start_block + p.extents_file.total_blocks
  pub files_at : p.user_data_start ≡ p.attributes_start_block + p.attributes_file.total_blocks
  pub files_end : ℕ
  pub in_order : InOrder p.user_data_start p.placements files_end
  pub fits : Fits p.block_size files (blocks_of p.placements)
  pub inside : files_end < p.total_blocks
  pub marked :
      (b : ℕ)
      → b < p.total_blocks
      → used p.alloc_bitmap b ≡ (ltb b files_end || (b == p.total_blocks - 1))
  pub free : free_blocks p.alloc_bitmap ≡ p.total_blocks - 1 - files_end
  pub next : p.next_allocation ≡ (if p.total_blocks - 1 == files_end then 0 else files_end)

Fits-length :
    (block_size : ℕ) (fs : List UserFile) (bs : List ℕ)
    → Fits block_size fs bs
    → length fs ≡ length bs
Fits-length block_size [] [] h = refl
Fits-length block_size [] (b ∷ bs) h = absurd h
Fits-length block_size (f ∷ fs) [] h = absurd h
Fits-length block_size (f ∷ fs) (b ∷ bs) h = omega (arith, Fits-length block_size fs bs h.2)

module _ (block_size : ℕ) (entries : List Entry) (files : List UserFile) (blocks : List ℕ)
    (catalog extents attrs alloc total : ℕ) where
  abbrev last : ℕ
  last = 1 + alloc + catalog + extents + attrs + sum blocks

  regions-IsRoomy :
      last < total
      → total + 7 < 2 ^ 32
      → IsRoomy (regions alloc catalog extents attrs) total alloc catalog extents attrs last
        × ((regions alloc catalog extents attrs).user_start + sum blocks ≡ last)
  unfolding regions
  regions-IsRoomy room word = (omega arith, omega arith)

  wraps_once :
      last < total
      → (if leb (total - 1) last then 0 else last) ≡ (if total - 1 == last then 0 else last)
  wraps_once room = ground arith

  -- With room for everything, in a volume that the bitmap can describe, a plan is returned.
  pub finish_plan-IsLayout :
      Fits block_size files blocks
      → last < total
      → total + 7 < 2 ^ 32
      → (p : Plan) × (es : List Entry) × (finish_plan block_size entries files blocks catalog
            extents attrs alloc total
          ≡ ok (p, es))
        × IsLayout files p
        × (p.total_blocks ≡ total)
        × (p.block_size ≡ block_size)
        × (p.alloc_file.total_blocks ≡ alloc)
  finish_plan-IsLayout fits room word =
      let r = regions alloc catalog extents attrs in
      let (roomy, at_last) = regions-IsRoomy room word in
      let placed = place_files r.user_start files blocks entries in
      let (order, kept, cursor) =
        place_files_lem r.user_start files blocks entries (Fits-length block_size files blocks fits)
          (omega arith) in
      let (bm, e, v, bits, marks) =
        mark_plan_lem r total alloc catalog extents attrs last placed.0 roomy
          (subst (λ (n : ℕ). InOrder r.user_start placed.0 n) at_last order) in
      let counts = count_entries (record { files = 0; folders = 0; max_cnid = 0 }) placed.1 in
      (
        make_plan block_size r (alloc, catalog, extents, attrs) total placed.2 counts bm placed.0,
        placed.1,
        (unfold finish_plan in rw e),
        record {
          alloc_at = roomy.alloc_at;
          catalog_at = roomy.cat_at;
          extents_at = roomy.ext_at;
          attributes_at = roomy.attr_at;
          files_at = roomy.user_at;
          files_end = last;
          in_order = subst (λ (n : ℕ). InOrder r.user_start placed.0 n) at_last order;
          fits = rw kept fits;
          inside = room;
          marked = marks;
          free = free_blocks-marked total last bm v bits room word marks;
          next =
              ap (λ (c : ℕ). if leb (total - 1) c then 0 else c) (cursor ∙ at_last)
              ∙ wraps_once room;
        },
        refl,
        refl,
        refl,
      )
