-- ===== src/Gpt/Geometry.antt =====
-- internal/gpt/gpt.go, the geometry of a framed disk against what internal/udif/writer.go asks of its
-- regions.
use go_dmg_writer.Base.{
  ℕ, suc, ◌+◌, ◌*◌, ◌/◌, ◌%◌, ◌^◌, ◌<◌, ◌≡◌, refl, ap, ◌∙◌, true, false, inl, inr, List, [], ◌∷◌,
  All, ◌==◌, Result, ok, err, arith,
}
use go_dmg_writer.Base.Bytes.{Bytes}
use go_dmg_writer.Gpt.{
  Layout, new, disk_size, sector_size, udif_regions, last_lba, last_usable_lba, partition_last_lba,
  backup_sectors, partition_start_lba,
}
use go_dmg_writer.Udif.Regions.{
  Region, BlkxSpec, RegionError, empty_region, wrong_cover, blkx_specs, image_variant_device,
}
use go_dmg_writer.Udif.Regions.Specs.{Covers, FirstEmpty, SpecsResult, sectors_of, blkx_specs_lem}

not_FirstEmpty :
    (k i : ℕ) (rs : List Region) → All (λ r. 0 < r.sector_count) rs → FirstEmpty k i rs → ⊥
not_FirstEmpty k i [] h f = f
not_FirstEmpty k i (r ∷ rs) h (inl (_, z)) = omega (arith, h.0)
not_FirstEmpty k i (r ∷ rs) h (inr (_, f)) = not_FirstEmpty k (suc i) rs h.1 f

SpecsResult-ok :
    (rs : List Region) (total : ℕ) (res : Result RegionError (List BlkxSpec × ℕ))
    → SpecsResult rs total res
    → All (λ r. 0 < r.sector_count) rs
    → sectors_of rs ≡ total
    → (specs : List BlkxSpec) × (res ≡ ok (specs, image_variant_device)) × Covers 0 0 rs specs
SpecsResult-ok rs total (ok p) h filled sum = (p.0, ap (λ (v : ℕ). ok (p.0, v)) h.2, h.0)
SpecsResult-ok rs total (err (empty_region k t)) h filled sum =
    absurd (not_FirstEmpty k 0 rs filled h)
SpecsResult-ok rs total (err (wrong_cover a b)) h filled sum = absurd (h.1 (h.0 ∙ sum))

-- The geometry of a disk with `sectors` sectors of volume: the backup map lies right behind the
-- volume, and nothing wraps.
pub record IsFramed (sectors : ℕ) (l : Layout) : Type 0 where
  pub volume : l.volume_sectors ≡ sectors
  pub total : l.total_sectors ≡ partition_start_lba + sectors + backup_sectors
  pub size : disk_size l ≡ l.total_sectors * sector_size
  pub usable : last_usable_lba l ≡ partition_last_lba l
  pub backup : last_usable_lba l + 1 + backup_sectors ≡ last_lba l + 1

module _ (guid_from : Bytes → Bytes → ℕ → ℕ → Bytes) (whole_name : Bytes → Bytes)
    (region_name : Bytes → Bytes → ℕ → Bytes) where
  new-eq-ok :
      (sectors : ℕ) (name : Bytes) (when : ℕ)
      → 0 < sectors
      → sectors < 2 ^ 54
      → (l : Layout) × (new guid_from (sectors * sector_size) name when ≡ ok l) × IsFramed sectors l
  unfolding new disk_size last_lba last_usable_lba partition_last_lba
  new-eq-ok sectors name when pos small =
      let some_bytes : (sectors * sector_size == 0) ≡ false = ground arith in
      let whole : (sectors * sector_size % sector_size == 0) ≡ true = ground arith in
      rw (some_bytes, whole)
        (
          _,
          refl,
          record {
            volume = omega arith;
            total = omega arith;
            size = omega arith;
            usable = omega arith;
            backup = omega arith;
          },
        )

  -- A volume of whole sectors, at least one and fewer than 2^54, is framed with the backup map
  -- right behind it, and `blkxSpecs` accepts the regions of the framed disk: one table for
  -- each, in order, that cover the disk.
  pub new-blkx_specs :
      (sectors : ℕ) (name vol_name : Bytes) (when : ℕ)
      → 0 < sectors
      → sectors < 2 ^ 54
      → (l : Layout) × (specs : List BlkxSpec) × (new guid_from (sectors * sector_size) name when
          ≡ ok l)
        × IsFramed sectors l
        × (blkx_specs whole_name region_name (udif_regions l) vol_name (disk_size l / sector_size)
            ≡ ok (specs, image_variant_device))
        × Covers 0 0 (udif_regions l) specs
  unfolding udif_regions
  new-blkx_specs sectors name vol_name when pos small =
      let (l, e, f) = new-eq-ok sectors name when pos small in
      let filled : 0 < l.volume_sectors = omega (arith, f.volume) in
      let all : sectors_of (udif_regions l) ≡ disk_size l / sector_size =
        omega (arith, f.size, f.total, f.volume) in
      let fits : sectors_of (udif_regions l) < 2 ^ 64 = omega (arith, f.volume) in
      let (specs, accepted, covers) =
        SpecsResult-ok (udif_regions l) (disk_size l / sector_size) _
          (blkx_specs_lem whole_name region_name _ _ vol_name (disk_size l / sector_size) fits)
          (
            omega arith,
            (omega arith, (omega arith, (omega arith, (filled, (omega arith, (omega arith, tt)))))),
          )
          all in
      (l, specs, e, f, accepted, covers)
