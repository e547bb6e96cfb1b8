-- ===== src/Hfsplus/Layout/Marked.antt =====
-- internal/hfsplus/layout.go, the bitmap of `BuildPlan`.
use mathlib.Core.Bool.{not}
use mathlib.Core.Path.{subst}
use go_dmg_writer.Base.{
  ℕ, zero, suc, ◌+◌, ◌-◌, ◌^◌, ◌≤◌, ◌<◌, ◌≡◌, refl, sym, ap, ◌∙◌, ◌||◌, List, [], ◌∷◌, Option, some,
  ltb, ◌==◌, if◌then◌else◌, arith,
}
use go_dmg_writer.Hfsplus.Allocation.{
  AllocationBitmap, new_allocation_bitmap, mark_used, mark_loop, used, free_blocks,
}
use go_dmg_writer.Hfsplus.Allocation.Mark.{
  IsBitmap, mark_used_lem, new_allocation_bitmap-IsBitmap, new_allocation_bitmap-used,
}
use go_dmg_writer.Hfsplus.Allocation.Free.{count_below, count_below_ext, free_blocks_lem}
use go_dmg_writer.Hfsplus.Layout.{Regions, mark_plan, mark_placements, ◌then_mark◌}
use go_dmg_writer.Hfsplus.Plan.{FilePlacement}
use go_dmg_writer.Hfsplus.Layout.Place.{InOrder}

-- A bitmap of `total` blocks in which those below `upto` are marked.
record IsMarkedTo (total upto : ℕ) (a : AllocationBitmap) : Type 0 where
  valid : IsBitmap a
  covers : a.bits ≡ total
  marks : (b : ℕ) → b < total → used a b ≡ ltb b upto

abbrev MarksTo : ℕ → ℕ → Option AllocationBitmap → Type 0
MarksTo total upto r = (a : AllocationBitmap) × (r ≡ some a) × IsMarkedTo total upto a

-- Marking the run behind the marked ones.
IsMarkedTo-mark_used :
    (total upto count : ℕ) (a : AllocationBitmap)
    → IsMarkedTo total upto a
    → upto + count < 2 ^ 32
    → MarksTo total (upto + count) (mark_used upto count a)
IsMarkedTo-mark_used total upto count a m small =
    let (next, e, v, bits, more) = mark_used_lem upto count a m.valid small in
    (
      next,
      e,
      record {
        valid = v;
        covers = bits ∙ m.covers;
        marks = λ b hb. ground (arith, more b, m.marks b hb, m.covers);
      },
    )

MarksTo-then_mark :
    (total upto upto' start count : ℕ) (r : Option AllocationBitmap)
    → start ≡ upto
    → start + count ≡ upto'
    → upto' < 2 ^ 32
    → MarksTo total upto r
    → MarksTo total upto' (r then_mark (start, count))
MarksTo-then_mark total upto upto' start count r at to small (a, e, m) =
    let to' : upto + count ≡ upto' = omega arith in
    rw (e, at, ← to') (IsMarkedTo-mark_used total upto count a m (omega arith))

-- One placement: the run behind the marked ones, or nothing for an empty file.
IsMarkedTo-placement :
    (total first start count : ℕ) (a : AllocationBitmap)
    → start ≡ (if count == 0 then 0 else first)
    → first + count < 2 ^ 32
    → IsMarkedTo total first a
    → MarksTo total (first + count) (mark_used start count a)
IsMarkedTo-placement total first start zero a at small m =
    let same : first + 0 ≡ first = omega arith in
    (a, (unfold mark_used mark_loop in refl), rw same m)
IsMarkedTo-placement total first start (suc n) a at small m =
    let here : start ≡ first = ground arith in
    rw here (IsMarkedTo-mark_used total first (suc n) a m small)

InOrder-le : (first last : ℕ) (ps : List FilePlacement) → InOrder first ps last → first ≤ last
InOrder-le first last [] order = omega arith
InOrder-le first last (p ∷ ps) (at, order) =
    omega (arith, InOrder-le (first + p.blocks) last ps order)

MarksTo-mark_placements :
    (total first last : ℕ) (ps : List FilePlacement) (a : AllocationBitmap)
    → InOrder first ps last
    → last < 2 ^ 32
    → IsMarkedTo total first a
    → MarksTo total last (mark_placements ps a)
unfolding mark_placements
MarksTo-mark_placements total first last [] a order small m =
    (a, refl, subst (λ (n : ℕ). IsMarkedTo total n a) order m)
MarksTo-mark_placements total first last (p ∷ ps) a (at, order) small m =
    let (next, e, m') =
      IsMarkedTo-placement total first p.start_block p.blocks a at
        (omega (arith, InOrder-le (first + p.blocks) last ps order)) m in
    rw (mark_placements, e)
      (MarksTo-mark_placements total (first + p.blocks) last ps next order small m')

IsMarkedTo-new :
    (total : ℕ) → total + 7 < 2 ^ 32 → MarksTo total 0 (some (new_allocation_bitmap total))
IsMarkedTo-new total word = (
  new_allocation_bitmap total,
  refl,
  record {
    valid = new_allocation_bitmap-IsBitmap total word;
    covers = unfold new_allocation_bitmap in refl;
    marks = λ b _. ground (arith, new_allocation_bitmap-used total b);
  },
)

-- The sizes of a plan fit its volume: the regions, the files up to `last`, and the last block.
pub record IsRoomy (r : Regions) (total alloc catalog extents attrs last : ℕ) : Type 0 where
  pub alloc_at : r.alloc_start ≡ 1
  pub cat_at : r.cat_start ≡ r.alloc_start + alloc
  pub ext_at : r.ext_start ≡ r.cat_start + catalog
  pub attr_at : r.attr_start ≡ r.ext_start + extents
  pub user_at : r.user_start ≡ r.attr_start + attrs
  pub room : last < total
  pub files_behind : r.user_start ≤ last
  pub word : total + 7 < 2 ^ 32

IsRoomy-bounds :
    {r : Regions} {total alloc catalog extents attrs last : ℕ}
    → IsRoomy r total alloc catalog extents attrs last
    → (r.cat_start < 2 ^ 32)
      × (r.ext_start < 2 ^ 32)
      × (r.attr_start < 2 ^ 32)
      × (r.user_start < 2 ^ 32)
      × (last < 2 ^ 32)
IsRoomy-bounds h = omega arith

-- The runs that are marked before the files: all blocks below the first file.
MarksTo-fixed :
    (r : Regions) (total alloc catalog extents attrs last : ℕ)
    → IsRoomy r total alloc catalog extents attrs last
    → MarksTo total r.user_start (
        some (new_allocation_bitmap total)
        then_mark (0, 1)
        then_mark (r.alloc_start, alloc)
        then_mark (r.cat_start, catalog)
        then_mark (r.ext_start, extents)
        then_mark (r.attr_start, attrs))
MarksTo-fixed r total alloc catalog extents attrs last h =
    let (cat, ext, attr, user, files) = IsRoomy-bounds h in
    MarksTo-then_mark total r.attr_start r.user_start r.attr_start attrs _ refl (sym h.user_at) user
      (MarksTo-then_mark total r.ext_start r.attr_start r.ext_start extents _ refl (sym h.attr_at)
        attr
        (MarksTo-then_mark total r.cat_start r.ext_start r.cat_start catalog _ refl (sym h.ext_at)
          ext
          (MarksTo-then_mark total 1 r.cat_start r.alloc_start alloc _ h.alloc_at (sym h.cat_at) cat
            (MarksTo-then_mark total 0 1 0 1 _ refl (omega arith) (omega arith)
              (IsMarkedTo-new total h.word)))))

-- For regions that lie one behind the other, placements in order up to `last` below the
-- volume's end, and a volume of at most 2^32 - 8 blocks, the plan's bitmap is computed without
-- a panic and marks the blocks below `last` and the last block of the volume, and no other.
pub mark_plan_lem :
    (r : Regions) (total alloc catalog extents attrs last : ℕ) (ps : List FilePlacement)
    → IsRoomy r total alloc catalog extents attrs last
    → InOrder r.user_start ps last
    → (a : AllocationBitmap) × (mark_plan r total alloc catalog extents attrs ps ≡ some a)
      × IsBitmap a
      × (a.bits ≡ total)
      × ((b : ℕ) → b < total → used a b ≡ (ltb b last || (b == total - 1)))
mark_plan_lem r total alloc catalog extents attrs last ps h order =
    let (f, ef, mf) = MarksTo-fixed r total alloc catalog extents attrs last h in
    let (g, eg, mg) =
      MarksTo-mark_placements total r.user_start last ps f order ((IsRoomy-bounds h).4) mf in
    let (z, ez, vz, bz, mz) =
      mark_used_lem (total - 1) 1 g mg.valid (omega (arith, h.word, h.room)) in
    (
      z,
      (unfold mark_plan in rw (ef, eg) ez),
      vz,
      bz ∙ mg.covers,
      λ b hb. ground (arith, mz b, mg.marks b hb, mg.covers),
    )

-- The blocks that are not marked are those from `last` up to the last block.
count_free :
    (n last end : ℕ)
    → last ≤ end
    → n ≤ end
    → count_below n (λ b. not (ltb b last || (b == end))) ≡ n - last
unfolding count_below
count_free zero last end h hn = omega arith
count_free (suc n) last end h hn = ground (arith, count_free n last end h)

pub free_blocks-marked :
    (total last : ℕ) (a : AllocationBitmap)
    → IsBitmap a
    → a.bits ≡ total
    → last < total
    → total + 7 < 2 ^ 32
    → ((b : ℕ) → b < total → used a b ≡ (ltb b last || (b == total - 1)))
    → free_blocks a ≡ total - 1 - last
free_blocks-marked total last a v bits room word marks =
    free_blocks_lem a v (omega arith)
    ∙ ap (λ (t : ℕ). count_below t (λ b. not (used a b))) bits
    ∙ count_below_ext total (λ b. not (used a b)) (λ b. not (ltb b last || (b == total - 1)))
        (λ b hb. ap not (marks b hb))
    ∙ rest total (omega arith)
  where
    rest :
        (t : ℕ)
        → t ≡ suc (total - 1)
        → count_below t (λ b. not (ltb b last || (b == total - 1))) ≡ total - 1 - last
    rest t e = rw e (
        unfold count_below in ground (arith, count_free (total - 1) last (total - 1) (omega arith)))
