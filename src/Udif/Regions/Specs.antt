-- ===== src/Udif/Regions/Specs.antt =====
-- internal/udif/writer.go, the outcomes of `blkxSpecs`.
use go_dmg_writer.Base.{
  ℕ, suc, ◌+◌, ◌^◌, ◌<◌, ◌≡◌, ◌≢◌, refl, Bool, true, false, Bool-cases, ◌⊎◌, inl, inr, List, [],
  ◌∷◌, ◌==◌, ==_iff, if◌then◌else◌, Result, ok, err, ◌>>=◌, ◌>>◌, refuse_if, arith,
}
use go_dmg_writer.Base.Bytes.{Bytes, u32, u64}
use go_dmg_writer.Udif.Regions.{
  Region, BlkxSpec, RegionError, empty_region, wrong_cover, spec_loop, blkx_specs,
  image_variant_device,
}

abbrev pub sectors_of : List Region → ℕ
sectors_of [] = 0
sectors_of (r ∷ rs) = r.sector_count + sectors_of rs

-- One table for each region from region `i` on, each behind the one before it from sector `first`
-- on and not empty.
abbrev pub Covers : ℕ → ℕ → List Region → List BlkxSpec → Type 0
Covers i first [] [] = Unit {0}
Covers i first [] (s ∷ ss) = ⊥
Covers i first (r ∷ rs) [] = ⊥
Covers i first (r ∷ rs) (s ∷ ss) =
    (0 < r.sector_count)
    × (s.first_sector ≡ first)
    × (s.sectors ≡ r.sector_count)
    × (s.descriptor ≡ u32 i)
    × Covers (suc i) (first + r.sector_count) rs ss

-- `k` is the first of the regions, numbered from `i` on, that has no sectors.
abbrev pub FirstEmpty : ℕ → ℕ → List Region → Type 0
FirstEmpty k i [] = ⊥
FirstEmpty k i (r ∷ rs) =
    ((k ≡ i) × (r.sector_count ≡ 0)) ⊎ ((0 < r.sector_count) × FirstEmpty k (suc i) rs)

abbrev pub Looped : ℕ → ℕ → List Region → Result RegionError (List BlkxSpec × ℕ) → Type 0
Looped i first rs (ok p) = Covers i first rs p.0 × (p.1 ≡ first + sectors_of rs)
Looped i first rs (err (empty_region k t)) = FirstEmpty k i rs
Looped i first rs (err (wrong_cover a b)) = ⊥

-- What `blkxSpecs` answers on regions: tables that cover the disk, or what is wrong with them.
abbrev pub SpecsResult : List Region → ℕ → Result RegionError (List BlkxSpec × ℕ) → Type 0
SpecsResult rs total (ok p) =
    Covers 0 0 rs p.0 × (sectors_of rs ≡ total) × (p.1 ≡ image_variant_device)
SpecsResult rs total (err (empty_region k t)) = FirstEmpty k 0 rs
SpecsResult rs total (err (wrong_cover a b)) = (a ≡ sectors_of rs) × (a ≢ total)

not_both : {b : Bool} → b ≡ false → b ≡ true → ⊥
not_both e f = cc

module _ (whole_name : Bytes → Bytes) (region_name : Bytes → Bytes → ℕ → Bytes) where
  Looped-cons :
      (i first : ℕ) (r : Region) (rs : List Region) (s : BlkxSpec)
      (rest : Result RegionError (List BlkxSpec × ℕ))
      → 0 < r.sector_count
      → s.first_sector ≡ first
      → s.sectors ≡ r.sector_count
      → s.descriptor ≡ u32 i
      → Looped (suc i) (first + r.sector_count) rs rest
      → Looped i first (r ∷ rs) (rest >>= λ p. ok (s ∷ p.0, p.1))
  Looped-cons i first r rs s (ok p) pos a b c h = ((pos, a, b, c, h.0), omega (arith, h.1))
  Looped-cons i first r rs s (err (empty_region k t)) pos a b c h = inr (pos, h)
  Looped-cons i first r rs s (err (wrong_cover x y)) pos a b c h = h

  spec_loop-Looped :
      (i first : ℕ) (rs : List Region)
      → first + sectors_of rs < 2 ^ 64
      → Looped i first rs (spec_loop whole_name region_name i first rs)
  unfolding spec_loop
  spec_loop-Looped i first [] fits = (tt, omega arith)
  spec_loop-Looped i first (r ∷ rs) fits = elim (Bool-cases (r.sector_count == 0)) [
    | inl none_there ↦ rw none_there (inl (refl, (==_iff _ _).0 none_there))
    | inr some_there ↦
        let next : u64 (first + r.sector_count) ≡ first + r.sector_count = omega arith in
        let one : i + 1 ≡ suc i = omega arith in
        rw (some_there, next, one)
          (Looped-cons i first r rs _
            (spec_loop whole_name region_name (suc i) (first + r.sector_count) rs) (ground arith)
            refl refl refl (spec_loop-Looped (suc i) (first + r.sector_count) rs (omega arith)))
  ]

  Looped-SpecsResult :
      (rs : List Region) (total : ℕ) (loop : Result RegionError (List BlkxSpec × ℕ))
      → Looped 0 0 rs loop
      → SpecsResult rs total (
          loop >>= λ p.
          (refuse_if (if p.1 == total then false else true) (wrong_cover p.1 total)
            >> ok (p.0, image_variant_device)))
  Looped-SpecsResult rs total (ok p) h = elim (Bool-cases (p.1 == total)) [
    | inl same ↦
        let eq : sectors_of rs ≡ total = omega (arith, h.1, (==_iff p.1 total).0 same) in
        rw same (h.0, eq, refl)
    | inr differs ↦
        let ne : p.1 ≢ total = λ e. absurd (not_both differs ((==_iff p.1 total).1 e)) in
        rw differs (omega (arith, h.1), ne)
  ]
  Looped-SpecsResult rs total (err (empty_region k t)) h = h
  Looped-SpecsResult rs total (err (wrong_cover x y)) h = absurd h

  -- On one region at least, whose sectors add up below 2^64, `blkxSpecs` returns one table for each
  -- region, in order, that together cover the disk; or the error of the first empty region, or of
  -- regions that do not add up to the disk, and these only where they apply.
  pub blkx_specs_lem :
      (r : Region) (rs : List Region) (vol_name : Bytes) (total : ℕ)
      → sectors_of (r ∷ rs) < 2 ^ 64
      → SpecsResult (r ∷ rs) total (blkx_specs whole_name region_name (r ∷ rs) vol_name total)
  unfolding blkx_specs
  blkx_specs_lem r rs vol_name total fits =
      Looped-SpecsResult (r ∷ rs) total (spec_loop whole_name region_name 0 0 (r ∷ rs))
        (spec_loop-Looped 0 0 (r ∷ rs) (omega arith))
