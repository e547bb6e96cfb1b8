-- ===== src/Udif/Blkx/Entries.antt =====
-- A reader of a chunk table finds what `BlkxTable.Encode` of internal/udif/blkx.go was given.
use go_dmg_writer.Base.{
  ℕ, ◌+◌, ◌*◌, ◌<◌, ◌≡◌, zero, suc, refl, ap, ap₂, ◌∙◌, true, List, [], ◌∷◌, All, le→leb, length,
  arith,
}
use go_dmg_writer.Base.Bytes.{Bytes}
use go_dmg_writer.Wire.{Field, at32, at64, Found, Fits, in_line, encode, uint_at}
use go_dmg_writer.Wire.Laws.{encode-Found}
use go_dmg_writer.Wire.Writes.{cons-in_line}
use go_dmg_writer.Udif.Chunks.{BlockRun}
use go_dmg_writer.Udif.Blkx.{
  BlkxTable, block_run_size, blkx_header_size, runs_fields, blkx_fields, encode_blkx,
}

-- The entry at index `i` of a table's bytes, as a reader computes its offset.
abbrev pub read_run : Bytes → ℕ → BlockRun
read_run buf at = record {
  run_type = uint_at 4 at buf;
  reserved = uint_at 4 (at + 4) buf;
  sector_start = uint_at 8 (at + 8) buf;
  sector_count = uint_at 8 (at + 16) buf;
  comp_offset = uint_at 8 (at + 24) buf;
  comp_length = uint_at 8 (at + 32) buf;
}

-- `n` entries in a row, the first at `at`.
unfoldable pub read_runs : ℕ → ℕ → Bytes → List BlockRun
read_runs zero at buf = []
read_runs (suc n) at buf = read_run buf at ∷ read_runs n (at + block_run_size) buf

in_line-runs_fields :
    (n at : ℕ) (rs : List BlockRun)
    → n ≡ at + length rs * block_run_size
    → in_line n at (runs_fields at rs) ≡ true
unfolding runs_fields
in_line-runs_fields n at [] e = le→leb at n (omega arith)
in_line-runs_fields n at (r ∷ rs) e =
    let rest : in_line n (at + block_run_size) (runs_fields (at + block_run_size) rs) ≡ true =
      in_line-runs_fields n (at + block_run_size) rs (omega arith) in
    let last : in_line n (at + 32 + 8) (runs_fields (at + block_run_size) rs) ≡ true =
      ap (λ (k : ℕ). in_line n k (runs_fields (at + block_run_size) rs)) (omega arith) ∙ rest in
    let (f1, f2, f3) : Field × Field × Field =
      (at32 at r.run_type, at32 (at + 4) r.reserved, at64 (at + 8) r.sector_start) in
    let (f4, f5, f6) : Field × Field × Field =
      (at64 (at + 16) r.sector_count, at64 (at + 24) r.comp_offset, at64 (at + 32) r.comp_length) in
    let entries = runs_fields (at + block_run_size) rs in
    let six = cons-in_line n (at + 24 + 8) f6 entries (omega arith) last in
    let five = cons-in_line n (at + 16 + 8) f5 (f6 ∷ entries) (omega arith) six in
    let four = cons-in_line n (at + 8 + 8) f4 (f5 ∷ f6 ∷ entries) (omega arith) five in
    let three = cons-in_line n (at + 4 + 4) f3 (f4 ∷ f5 ∷ f6 ∷ entries) (omega arith) four in
    let two = cons-in_line n (at + 4) f2 (f3 ∷ f4 ∷ f5 ∷ f6 ∷ entries) (omega arith) three in
    cons-in_line n at f1 (f2 ∷ f3 ∷ f4 ∷ f5 ∷ f6 ∷ entries) (omega arith) two

read_runs-runs_fields :
    (at : ℕ) (rs : List BlockRun) (buf : Bytes)
    → All (Found buf) (runs_fields at rs)
    → read_runs (length rs) at buf ≡ rs
unfolding read_runs runs_fields
read_runs-runs_fields at [] buf found = refl
read_runs-runs_fields at (r ∷ rs) buf (e1, (e2, (e3, (e4, (e5, (e6, rest)))))) =
    ap₂ ◌∷◌
      (λ i. record {
        run_type = e1 i;
        reserved = e2 i;
        sector_start = e3 i;
        sector_count = e4 i;
        comp_offset = e5 i;
        comp_length = e6 i;
      })
      (read_runs-runs_fields (at + block_run_size) rs buf rest)

-- A chunk table with fewer than 2^32 runs whose fields fit their types is encoded in 204 bytes and 40
-- for each run; a reader who takes the number of runs from offset 200 and that many entries from
-- offset 204 on gets the runs of the table, all of them and in their order.
pub read_runs-encode_blkx :
    (t : BlkxTable)
    → All Fits (blkx_fields t)
    → length t.runs < 4294967296
    → (length (encode_blkx t) ≡ 204 + length t.runs * 40)
      × (uint_at 4 200 (encode_blkx t) ≡ length t.runs)
      × (read_runs (uint_at 4 200 (encode_blkx t)) 204 (encode_blkx t) ≡ t.runs)
unfolding encode_blkx
read_runs-encode_blkx t fits few =
    let size = blkx_header_size + length t.runs * block_run_size in
    let (len, found) =
      encode-Found size (blkx_fields t) (in_line-runs_fields size blkx_header_size t.runs refl)
        fits in
    let (_, (_, (_, (_, (_, (_, (_, (_, (_, (_, (_, (count, entries)))))))))))) = found in
    let buf = encode size (blkx_fields t) in
    let counted : uint_at 4 200 buf ≡ length t.runs = count ∙ omega arith in
    (
      len,
      counted,
      ap (λ (n : ℕ). read_runs n 204 buf) counted ∙ read_runs-runs_fields 204 t.runs buf entries,
    )
