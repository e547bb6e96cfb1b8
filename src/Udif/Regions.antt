-- ===== src/Udif/Regions.antt =====
-- internal/udif/writer.go, `blkxSpecs`: one table for each region of the disk.
mod Tests
pub mod Specs
use go_dmg_writer.Base.{
  ℕ, zero, suc, ◌+◌, Bool, true, false, List, [], ◌∷◌, ◌==◌, if◌then◌else◌, Result, ok, err, ◌>>=◌,
  ◌>>◌, refuse_if,
}
use go_dmg_writer.Base.Bytes.{Bytes, u32, u64}

-- Strings are their bytes.
pub record Region : Type 0 where
  pub name : Bytes
  pub region_type : Bytes
  pub sector_count : ℕ

-- `id` is an int32 in two's complement.
pub record BlkxSpec : Type 0 where
  pub name : Bytes
  pub id : ℕ
  pub descriptor : ℕ
  pub first_sector : ℕ
  pub sectors : ℕ

abbrev pub image_variant_device : ℕ
image_variant_device = 1

abbrev pub image_variant_partition : ℕ
image_variant_partition = 2

abbrev pub partition_variant_number : ℕ
partition_variant_number = 0xffff_fffe

pub data RegionError : Type 0 where
  empty_region : ℕ → Bytes → RegionError
  wrong_cover : ℕ → ℕ → RegionError

-- `whole_name` and `region_name` are the two formats of fmt.Sprintf.
module _ (whole_name : Bytes → Bytes) (region_name : Bytes → Bytes → ℕ → Bytes) where
  -- The loop over the regions, from region `i` and sector `first` on.
  unfoldable pub spec_loop : ℕ → ℕ → List Region → Result RegionError (List BlkxSpec × ℕ)
  spec_loop i first [] = ok ([], first)
  spec_loop i first (r ∷ rs) = do
    refuse_if (r.sector_count == 0) (empty_region i r.region_type)
    let spec : BlkxSpec = record {
      name = region_name r.name r.region_type i;
      id = u32 (i + 0xffff_ffff);
      descriptor = u32 i;
      first_sector = first;
      sectors = r.sector_count;
    }
    (specs, last) ← spec_loop (i + 1) (u64 (first + r.sector_count)) rs
    ok (spec ∷ specs, last)

  unfoldable pub blkx_specs : List Region → Bytes → ℕ → Result RegionError (List BlkxSpec × ℕ)
  blkx_specs [] vol_name total_sectors = ok (
    record {
      name = whole_name vol_name;
      id = 0;
      descriptor = partition_variant_number;
      first_sector = 0;
      sectors = total_sectors;
    }
        ∷ [],
    image_variant_partition,
  )
  blkx_specs (r ∷ rs) vol_name total_sectors = do
    (specs, first) ← spec_loop 0 0 (r ∷ rs)
    refuse_if (if first == total_sectors then false else true) (wrong_cover first total_sectors)
    ok (specs, image_variant_device)
