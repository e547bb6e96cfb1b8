-- ===== src/Udif/Regions/Tests.antt =====
-- A disk of three regions, and what is refused.
use go_dmg_writer.Base.{ℕ, ◌≡◌, refl, [], ◌∷◌, err, arith}
use go_dmg_writer.Base.Bytes.{Bytes}
use go_dmg_writer.Udif.Regions.{Region, empty_region, wrong_cover, spec_loop, blkx_specs}
use go_dmg_writer.Udif.Regions.Specs.{SpecsResult, blkx_specs_lem}

abbrev region_of : ℕ → Region
region_of n = record { name = []; region_type = n ∷ []; sector_count = n }

abbrev whole : Bytes → Bytes
whole v = v

abbrev numbered : Bytes → Bytes → ℕ → Bytes
numbered n t i = i ∷ t

blkx_specs_lem_example :
    SpecsResult
      (region_of 1 ∷ region_of 33 ∷ region_of 8 ∷ [])
      42
      (blkx_specs whole numbered (region_of 1 ∷ region_of 33 ∷ region_of 8 ∷ []) [] 42)
blkx_specs_lem_example =
    blkx_specs_lem whole numbered (region_of 1) (region_of 33 ∷ region_of 8 ∷ []) [] 42
      (omega arith)

second_empty :
    blkx_specs whole numbered (region_of 1 ∷ region_of 0 ∷ []) [] 1 ≡ err (empty_region 1 (0 ∷ []))
unfolding blkx_specs spec_loop
second_empty = refl

too_short : blkx_specs whole numbered (region_of 1 ∷ []) [] 2 ≡ err (wrong_cover 1 2)
unfolding blkx_specs spec_loop
too_short = refl
