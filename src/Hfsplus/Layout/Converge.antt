-- ===== src/Hfsplus/Layout/Converge.antt =====
-- The fixed point of the planner: the allocation file is part of the volume that it describes.
use go_dmg_writer.Base.{
  ℕ, zero, suc, ◌+◌, ◌-◌, ◌*◌, ◌/◌, ◌^◌, ◌≤◌, ◌<◌, ◌≡◌, refl, ◌∙◌, max, inl, inr, false, Bool-cases,
  some, leb, arith, dec_lt, leb→le,
}
use go_dmg_writer.Base.Bytes.{u64}
use go_dmg_writer.Hfsplus.Allocation.{div_round_up}
use go_dmg_writer.Hfsplus.Layout.{round_total, alloc_loop, alloc_fuel}

-- Without wrap-around `DivRoundUp` is the least number of runs of `d` that hold `n`.
pub div_round_up_lem : (n d : ℕ) → 0 < d → n + d < 2 ^ 64 → div_round_up n d ≡ (n + d - 1) / d
unfolding div_round_up
div_round_up_lem n d pos h =
    let e : u64 (u64 (n + d) + 2 ^ 64 - 1) ≡ n + d - 1 = omega arith in rw e

div_mono : (n m d : ℕ) → n ≤ m → 0 < d → n / d ≤ m / d
div_mono n m d h pos = grind arith

pub div_round_up_covers :
    (n d : ℕ) → 0 < d → n + d < 2 ^ 64 → (n ≤ div_round_up n d * d) × (div_round_up n d * d < n + d)
div_round_up_covers n d pos h = rw (div_round_up_lem n d pos h) (grind arith, grind arith)

few_runs : (n t d a : ℕ) → n * d < t + d → t ≤ 2 * a → 2 ≤ d → n ≤ a
few_runs n t d a h ht hd = elim (dec_lt a n) [
  | no p ↦ omega arith
  | yes p ↦
      let more : suc a * d ≤ n * d = grind arith in
      let twice : 2 * a ≤ a * d = grind arith in absurd (omega arith)
]

-- The smallest volume that holds `others` blocks, the first and the last block and an allocation
-- file with a bit for each of its blocks, and has `min_total` blocks at least.
pub record IsLeastVolume (others min_total block_size alloc_blocks total : ℕ) : Type 0 where
  pub one_at_least : 1 ≤ alloc_blocks
  pub is_total : total ≡ max (alloc_blocks + others + 2) min_total
  pub bitmap_fits : total ≤ alloc_blocks * (block_size * 8)
  pub least :
      (a : ℕ) → 1 ≤ a → a < alloc_blocks → a * (block_size * 8) < max (a + others + 2) min_total

pub IsLeastVolume-unique :
    (others min_total block_size a b s t : ℕ)
    → IsLeastVolume others min_total block_size a s
    → IsLeastVolume others min_total block_size b t
    → (a ≡ b) × (s ≡ t)
IsLeastVolume-unique others min_total block_size a b s t v w =
    let same : a ≡ b = elim (dec_lt a b) [
      | yes p ↦ absurd (omega (arith, w.least a v.one_at_least p, v.is_total, v.bitmap_fits))
      | no p ↦ elim (dec_lt b a) [
        | yes q ↦ absurd (omega (arith, v.least b w.one_at_least q, w.is_total, w.bitmap_fits))
        | no q ↦ omega arith
      ]
    ] in
    (same, omega (arith, v.is_total, w.is_total))

at_most_runs : (n t d a : ℕ) → t ≤ n * d → n ≤ a → t ≤ a * d
at_most_runs n t d a h k = grind arith

too_few_runs : (n t d a : ℕ) → n * d < t + d → a < n → a * d < t
too_few_runs n t d a h k = let more : suc a * d ≤ n * d = grind arith in omega arith

module _ (others min_total block_size : ℕ) (big : 512 ≤ block_size) (word : block_size < 2 ^ 32)
    (small : others + min_total < 2 ^ 62) where
  -- The blocks of the allocation file that a volume with `a` blocks of it needs.
  abbrev pub need : ℕ → ℕ
  need a = div_round_up (round_total others min_total a) (u64 (block_size * 8))

  per_block : u64 (block_size * 8) ≡ block_size * 8
  per_block = omega arith

  pub round_total_bounds :
      (a : ℕ)
      → a ≤ alloc_fuel others min_total
      → (round_total others min_total a ≤ a + others + 2 + min_total)
        × (a + others + 2 ≤ round_total others min_total a)
        × (min_total ≤ round_total others min_total a)
  unfolding round_total
  round_total_bounds a h = ground arith

  need-le : (a : ℕ) → a ≤ alloc_fuel others min_total → need a ≤ alloc_fuel others min_total
  need-le a h =
      let t = round_total others min_total a in
      let (lo, hi) =
        div_round_up_covers t (block_size * 8) (omega arith)
          (omega (arith, round_total_bounds a h)) in
      rw per_block (
        few_runs (div_round_up t (block_size * 8)) t (block_size * 8) (alloc_fuel others min_total)
          hi (omega (arith, round_total_bounds a h)) (omega arith))

  need_mono : (a b : ℕ) → a ≤ b → b ≤ alloc_fuel others min_total → need a ≤ need b
  need_mono a b h hb =
      let more : round_total others min_total a ≤ round_total others min_total b =
        unfold round_total in ground arith in
      rw
        (
          per_block,
          div_round_up_lem (round_total others min_total a) (block_size * 8) (omega arith)
              (omega (arith, round_total_bounds a (omega arith))),
          div_round_up_lem (round_total others min_total b) (block_size * 8) (omega arith)
              (omega (arith, round_total_bounds b hb)),
        )
        (div_mono _ _ (block_size * 8) (omega arith) (omega arith))

  -- What the loop returns: `alloc_blocks` suffices, nothing smaller (from `from` on) does.
  pub record IsFixedPoint (from alloc_blocks total : ℕ) : Type 0 where
    pub from_le : from ≤ alloc_blocks
    pub within : alloc_blocks ≤ alloc_fuel others min_total
    pub is_total : total ≡ round_total others min_total alloc_blocks
    pub suffices : need alloc_blocks ≤ alloc_blocks
    pub least : (a : ℕ) → from ≤ a → a < alloc_blocks → a < need a

  alloc_loop-suc :
      (fuel a : ℕ) (r : ℕ × ℕ)
      → leb (need a) a ≡ false
      → alloc_loop fuel others min_total block_size (need a) ≡ some r
      → alloc_loop (suc fuel) others min_total block_size a ≡ some r
  unfolding alloc_loop
  alloc_loop-suc fuel a r more e = rw more e

  -- The loop ends within its fuel, at the least fixed point that is not below its start.
  pub alloc_loop_lem :
      (fuel a : ℕ)
      → a ≤ alloc_fuel others min_total
      → alloc_fuel others min_total < a + fuel
      → (r : ℕ × ℕ) × (alloc_loop fuel others min_total block_size a ≡ some r)
        × IsFixedPoint a r.0 r.1
  alloc_loop_lem zero a h enough = absurd (omega arith)
  alloc_loop_lem (suc fuel) a h enough = elim (Bool-cases (leb (need a) a)) [
    | inl done ↦ (
      (a, round_total others min_total a),
      (unfold alloc_loop in rw done),
      record {
        from_le = omega arith;
        within = h;
        is_total = refl;
        suffices = leb→le _ _ done;
        least = λ b p q. absurd (omega arith);
      },
    )
    | inr more ↦
        let up : a < need a = ground arith in
        let (r, e, fixed) = alloc_loop_lem fuel (need a) (need-le a h) (omega arith) in
        (
          r,
          alloc_loop-suc fuel a r more e,
          record {
            from_le = omega (arith, fixed.from_le);
            within = fixed.within;
            is_total = fixed.is_total;
            suffices = fixed.suffices;
            least = λ b p q. elim (dec_lt b (need a)) [
              | yes lt ↦ omega (arith, need_mono a b p (omega (arith, need-le a h)))
              | no ge ↦ fixed.least b (omega arith) q
            ];
          },
        )
  ]

  round_total-eq-max :
      (a : ℕ)
      → a ≤ alloc_fuel others min_total
      → round_total others min_total a ≡ max (a + others + 2) min_total
  unfolding round_total
  round_total-eq-max a h = ground arith

  need_covers :
      (a : ℕ)
      → a ≤ alloc_fuel others min_total
      → (round_total others min_total a ≤ need a * (block_size * 8))
        × (need a * (block_size * 8) < round_total others min_total a + block_size * 8)
  need_covers a h = rw per_block (
      div_round_up_covers (round_total others min_total a) (block_size * 8) (omega arith)
        (omega (arith, round_total_bounds a h)))

  -- For block sizes from 512 to below 2^32 and other blocks and a minimum that add up below
  -- 2^62, the fixed-point loop of the planner ends within its fuel, at the least volume whose
  -- allocation file has a bit for every block.
  pub alloc_loop-IsLeastVolume :
      (r : ℕ × ℕ) × (alloc_loop (alloc_fuel others min_total) others min_total block_size 1
        ≡ some r)
      × IsLeastVolume others min_total block_size r.0 r.1
  alloc_loop-IsLeastVolume =
      let (r, e, fixed) =
        alloc_loop_lem (alloc_fuel others min_total) 1 (omega arith) (omega arith) in
      (
        r,
        e,
        record {
          one_at_least = fixed.from_le;
          is_total = fixed.is_total ∙ round_total-eq-max r.0 fixed.within;
          bitmap_fits = rw fixed.is_total (
              at_most_runs (need r.0) (round_total others min_total r.0) (block_size * 8) r.0
                (need_covers r.0 fixed.within).0 fixed.suffices);
          least = λ a pos lt.
              let below : a ≤ alloc_fuel others min_total = omega (arith, fixed.within) in
              rw (← round_total-eq-max a below) (
                too_few_runs (need a) (round_total others min_total a) (block_size * 8) a
                  (need_covers a below).1 (fixed.least a pos lt));
        },
      )
