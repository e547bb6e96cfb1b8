-- ===== src/Hfsplus/Layout/Place.antt =====
-- internal/hfsplus/layout.go, the loops of `BuildPlan` over the user files.
use go_dmg_writer.Base.{
  ℕ, ◌+◌, ◌*◌, ◌^◌, ◌≤◌, ◌<◌, ◌≡◌, refl, ap, Bool-cases, List, [], ◌∷◌, All, length, ltb, ◌==◌,
  if◌then◌else◌, Result, ok, err, ◌>>=◌, inl, inr, ltb→lt, arith,
}
use go_dmg_writer.Base.Bytes.{u32, u64}
use go_dmg_writer.Hfsplus.Entry.{Entry}
use go_dmg_writer.Hfsplus.Allocation.{div_round_up}
use go_dmg_writer.Hfsplus.Layout.{size_files, place_files, set_fork, modify}
use go_dmg_writer.Hfsplus.Plan.{
  UserFile, FilePlacement, PlanError, max_u32, file_too_large, bad_block_size, fork_too_large,
  volume_too_large, index_panic, no_fuel,
}
use go_dmg_writer.Hfsplus.Layout.Converge.{div_round_up_covers}

abbrev pub sum : List ℕ → ℕ
sum [] = 0
sum (n ∷ ns) = n + sum ns

-- The sizes that `DivRoundUp` handles without wrap-around.
abbrev pub IsSize : ℕ → UserFile → Type 0
IsSize block_size f = f.size + block_size < 2 ^ 64

-- Each file has the least number of blocks that hold it.
abbrev pub Fits : ℕ → List UserFile → List ℕ → Type 0
Fits block_size [] [] = Unit {0}
Fits block_size [] (b ∷ bs) = ⊥
Fits block_size (f ∷ fs) [] = ⊥
Fits block_size (f ∷ fs) (b ∷ bs) =
    (f.size ≤ b * block_size) × (b * block_size < f.size + block_size) × Fits block_size fs bs

-- The placements from block `first` up to block `last`: no gap, no overlap, and an empty file
-- stands nowhere.
abbrev pub InOrder : ℕ → List FilePlacement → ℕ → Type 0
InOrder first [] last = first ≡ last
InOrder first (p ∷ ps) last =
    (p.start_block ≡ (if p.blocks == 0 then 0 else first)) × InOrder (first + p.blocks) ps last

abbrev pub blocks_of : List FilePlacement → List ℕ
blocks_of [] = []
blocks_of (p ∷ ps) = p.blocks ∷ blocks_of ps

-- A result of the loop over the files: the block counts and their sum, or a file that no single
-- extent holds.
abbrev pub Sized : ℕ → List UserFile → ℕ → Result PlanError (List ℕ × ℕ) → Type 0
Sized block_size fs user (ok r) =
    (r.1 ≡ user + sum r.0) × Fits block_size fs r.0 × (sum r.0 ≤ length fs * 2 ^ 32)
Sized block_size fs user (err (file_too_large size n)) =
    (n ≡ div_round_up size block_size) × (max_u32 < n)
Sized block_size fs user (err _) = ⊥

Sized-cons :
    (block_size user : ℕ) (f : UserFile) (fs : List UserFile) (rest : Result PlanError (List ℕ × ℕ))
    → div_round_up f.size block_size ≤ max_u32
    → (f.size ≤ div_round_up f.size block_size * block_size)
      × (div_round_up f.size block_size * block_size < f.size + block_size)
    → Sized block_size fs (user + div_round_up f.size block_size) rest
    → Sized block_size
        (f ∷ fs)
        user
        (rest >>= λ r. ok (u32 (div_round_up f.size block_size) ∷ r.0, r.1))
Sized-cons block_size user f fs (ok r) small fits h =
    let keep : u32 (div_round_up f.size block_size) ≡ div_round_up f.size block_size =
      omega arith in
    rw keep (omega arith, (fits.0, fits.1, h.1), omega arith)
Sized-cons block_size user f fs (err (file_too_large size n)) small fits h = h
Sized-cons block_size user f fs (err (bad_block_size n)) small fits h = h
Sized-cons block_size user f fs (err (fork_too_large name n)) small fits h = h
Sized-cons block_size user f fs (err (volume_too_large n)) small fits h = h
Sized-cons block_size user f fs (err index_panic) small fits h = h
Sized-cons block_size user f fs (err no_fuel) small fits h = h

-- Over file sizes whose rounding does not wrap, and few enough that the sum of blocks does not, the
-- sizing loop returns the least block count that holds each file and adds these up, or the error
-- of a file with more blocks than a uint32 counts.
pub size_files-Sized :
    (block_size user : ℕ) (fs : List UserFile)
    → 0 < block_size
    → All (IsSize block_size) fs
    → user + length fs * 2 ^ 32 < 2 ^ 64
    → Sized block_size fs user (size_files block_size user fs)
unfolding size_files
size_files-Sized block_size user [] pos h few = (omega arith, tt, omega arith)
size_files-Sized block_size user (f ∷ fs) pos h few =
    let blks = div_round_up f.size block_size in
    elim (Bool-cases (ltb max_u32 blks)) [
      | inl big ↦ rw big (refl, ltb→lt _ _ big)
      | inr small ↦
          let sum_fits : u64 (user + blks) ≡ user + blks = ground arith in
          rw (small, sum_fits)
            (Sized-cons block_size user f fs (size_files block_size (user + blks) fs) (ground arith)
              (div_round_up_covers f.size block_size pos h.0)
              (size_files-Sized block_size (user + blks) fs pos h.1 (ground arith)))
    ]

-- With one block count for each file and an end below 2^32, the files are placed one behind the
-- other from `cursor` on, with their block counts; empty files start at 0.
pub place_files_lem :
    (cursor : ℕ) (fs : List UserFile) (blocks : List ℕ) (entries : List Entry)
    → length fs ≡ length blocks
    → cursor + sum blocks < 2 ^ 32
    → InOrder cursor (place_files cursor fs blocks entries).0 (cursor + sum blocks)
      × (blocks_of (place_files cursor fs blocks entries).0 ≡ blocks)
      × ((place_files cursor fs blocks entries).2 ≡ cursor + sum blocks)
unfolding place_files
place_files_lem cursor [] [] entries e h = (omega arith, refl, omega arith)
place_files_lem cursor [] (b ∷ bs) entries e h = absurd (omega arith)
place_files_lem cursor (f ∷ fs) [] entries e h = absurd (omega arith)
place_files_lem cursor (f ∷ fs) (b ∷ bs) entries e h =
    let wrap : u32 (cursor + b) ≡ cursor + b = omega arith in
    let (order, kept, last) =
      place_files_lem (cursor + b) fs bs (modify f.entry (set_fork cursor b f.size) entries)
        (omega arith) (omega arith) in
    let same : cursor + (b + sum bs) ≡ cursor + b + sum bs = omega arith in
    rw (wrap, same) ((refl, order), ap (◌∷◌ b) kept, last)
