-- ===== src/Gpt/Tests.antt =====
-- A volume of 100 sectors.
use go_dmg_writer.Base.{ℕ, ◌/◌, ◌≡◌, refl, List, [], ◌∷◌, ok, err, arith}
use go_dmg_writer.Base.Bytes.{Bytes}
use go_dmg_writer.Gpt.{Layout, new, disk_size, udif_regions, partial_sector}
use go_dmg_writer.Gpt.Geometry.{IsFramed, new-blkx_specs}
use go_dmg_writer.Udif.Regions.{BlkxSpec, blkx_specs, image_variant_device}
use go_dmg_writer.Udif.Regions.Specs.{Covers}

abbrev no_guid : Bytes → Bytes → ℕ → ℕ → Bytes
no_guid tag name when n = []

abbrev whole : Bytes → Bytes
whole v = v

abbrev numbered : Bytes → Bytes → ℕ → Bytes
numbered n t i = i ∷ t

new-blkx_specs_example :
    (l : Layout) × (specs : List BlkxSpec) × (new no_guid 51200 [] 0 ≡ ok l)
    × IsFramed 100 l
    × (blkx_specs whole numbered (udif_regions l) [] (disk_size l / 512)
        ≡ ok (specs, image_variant_device))
    × Covers 0 0 (udif_regions l) specs
new-blkx_specs_example =
    new-blkx_specs no_guid whole numbered 100 [] [] 0 (omega arith) (omega arith)

half_a_sector : new no_guid 700 [] 0 ≡ err (partial_sector 700)
unfolding new
half_a_sector = refl
