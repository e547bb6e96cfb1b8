-- ===== src/Udif/Chunks/Decode.antt =====
-- A reader of the runs that `encodeChunks` of internal/udif/writer.go writes, and what one run gives
-- back.
use mathlib.Core.List.{append-nil, append_assoc}
use go_dmg_writer.Base.{
  ℕ, ◌+◌, ◌*◌, ◌/◌, ◌^◌, ◌≤◌, ◌<◌, ◌≡◌, refl, sym, ap, ◌∙◌, true, false, Bool-cases, ◌⊎◌, inl, inr,
  List, [], ◌∷◌, ◌++◌, Option, some, ltb, leb, ◌==◌, if◌then◌else◌, length, take, drop, replicate,
  length-append, drop-length_append, take-length_append, arith,
}
use go_dmg_writer.Base.Bytes.{Bytes}
use go_dmg_writer.Udif.Chunks.{
  BlockRun, ChunkJob, ChunkResult, Compression, compression_none, compression_zlib, DrainState,
  sector_size, block_raw, block_zero, block_zlib, encode_chunk, emit,
}
use go_dmg_writer.Udif.Chunks.Zero.{is_all_zero_iff}
use go_dmg_writer.Udif.Chunks.Read.{IsChunk}

-- What a reader makes of one run of the fork.
unfoldable pub expand : (Bytes → Bytes) → Bytes → BlockRun → Bytes
expand inflate fork run =
    let stored = take run.comp_length (drop run.comp_offset fork) in
    if run.run_type == block_zero
    then replicate (run.sector_count * sector_size) 0
    else if run.run_type == block_zlib
    then inflate stored
    else stored

abbrev pub append : Bytes → Bytes → Option Bytes
append w p = some (w ++ p)

-- The runs of a fork one after the other.
unfoldable pub expand_all : (Bytes → Bytes) → Bytes → List BlockRun → Bytes
expand_all inflate fork [] = []
expand_all inflate fork (r ∷ rs) = expand inflate fork r ++ expand_all inflate fork rs

-- The run that `emit` makes of a result.
abbrev pub run_of : ChunkResult → ℕ → BlockRun
run_of r offset = record {
  run_type = r.run_type;
  reserved = 0;
  sector_start = r.sector_start;
  sector_count = r.sec_count;
  comp_offset = offset;
  comp_length = length r.payload;
}

pub expand_all-snoc :
    (inflate : Bytes → Bytes) (fork : Bytes) (rs : List BlockRun) (r : BlockRun)
    → expand_all inflate fork (rs ++ (r ∷ [])) ≡ expand_all inflate fork rs ++ expand inflate fork r
unfolding expand_all
expand_all-snoc inflate fork [] r = append-nil (expand inflate fork r)
expand_all-snoc inflate fork (s ∷ rs) r =
    ap (◌++◌ (expand inflate fork s)) (expand_all-snoc inflate fork rs r)
    ∙ sym
        (append_assoc (expand inflate fork s) (expand_all inflate fork rs) (expand inflate fork r))

stored_in : (fork p more : Bytes) → take (length p) (drop (length fork) ((fork ++ p) ++ more)) ≡ p
stored_in fork p more =
    ap (λ (q : Bytes). take (length p) (drop (length fork) q)) (append_assoc fork p more)
    ∙ ap (take (length p)) (drop-length_append (length fork) fork (p ++ more) refl)
    ∙ take-length_append (length p) p more refl

-- The bytes that a run of `run_type` stores, and what a reader makes of them.
abbrev run_with : ℕ → ChunkJob → Bytes → ChunkResult
run_with run_type j payload = record {
  idx = j.idx;
  run_type = run_type;
  sector_start = j.sector_start;
  sec_count = length j.buf / sector_size;
  payload = payload;
}

encode_chunk-cases :
    (deflate : Bytes → Bytes) (c : Compression) (j : ChunkJob)
    → ((j.is_zero ≡ true) × (encode_chunk deflate c j ≡ run_with block_zero j []))
      ⊎ ((encode_chunk deflate c j ≡ run_with block_raw j j.buf)
          ⊎ ((encode_chunk deflate c j ≡ run_with block_zlib j (deflate j.buf))
              × (length (deflate j.buf) < length j.buf)))
unfolding encode_chunk
encode_chunk-cases deflate c j = elim (Bool-cases j.is_zero) [
  | inl z ↦ inl (z, rw z refl)
  | inr nz ↦ inr (packed nz c)
]
  where
    packed :
        j.is_zero ≡ false
        → (c : Compression)
        → (encode_chunk deflate c j ≡ run_with block_raw j j.buf)
          ⊎ ((encode_chunk deflate c j ≡ run_with block_zlib j (deflate j.buf))
              × (length (deflate j.buf) < length j.buf))
    packed nz compression_none = inl (rw nz refl)
    packed nz compression_zlib = elim (Bool-cases (leb (length j.buf) (length (deflate j.buf)))) [
      | inl worse ↦ inl (rw (nz, worse) refl)
      | inr better ↦ inr (rw (nz, better) refl, ground arith)
    ]

module _ (deflate inflate : Bytes → Bytes) (inverse : (p : Bytes) → inflate (deflate p) ≡ p)
    (c : Compression) where
  pub expand-encode_chunk :
      (j : ChunkJob) (fork more : Bytes)
      → IsChunk j
      → expand inflate
          ((fork ++ (encode_chunk deflate c j).payload) ++ more)
          (run_of (encode_chunk deflate c j) (length fork))
        ≡ j.buf
  unfolding expand
  expand-encode_chunk j fork more h = elim (encode_chunk-cases deflate c j) [
    | inl (z, e) ↦ rw e (
        ap (λ (n : ℕ). replicate n 0)
          (let w : length j.buf / sector_size * sector_size ≡ length j.buf =
              omega (arith, h.whole) in
            w)
        ∙ sym ((is_all_zero_iff j.buf).0 (sym h.zeros ∙ z)))
    | inr (inl e) ↦ rw e (stored_in fork j.buf more)
    | inr (inr (e, lt)) ↦ rw e (ap inflate (stored_in fork (deflate j.buf) more) ∙ inverse j.buf)
  ]

  pub encode_chunk-le : (j : ChunkJob) → length (encode_chunk deflate c j).payload ≤ length j.buf
  encode_chunk-le j = elim (encode_chunk-cases deflate c j) [
    | inl (z, e) ↦ rw e (omega arith)
    | inr (inl e) ↦ rw e (omega arith)
    | inr (inr (e, lt)) ↦ rw e (omega arith)
  ]

pub emit-append :
    (r : ChunkResult) (d : DrainState Bytes)
    → d.data_fork_len ≡ length d.dst
    → length d.dst + length r.payload < 2 ^ 64
    → ((emit append r d).runs ≡ d.runs ++ (run_of r d.data_fork_len ∷ []))
      × ((emit append r d).dst ≡ d.dst ++ r.payload)
      × ((emit append r d).write_failed ≡ d.write_failed)
      × ((emit append r d).data_fork_len ≡ length (d.dst ++ r.payload))
unfolding emit
emit-append r d len fits = elim (Bool-cases (ltb 0 (length r.payload))) [
  | inl some_bytes ↦ rw some_bytes (refl, refl, refl, omega (arith, length-append d.dst r.payload))
  | inr no_bytes ↦
      let none_left : length r.payload ≡ 0 = ground arith in
      rw no_bytes (
        refl,
        sym (nothing r.payload none_left),
        refl,
        omega (arith, length-append d.dst r.payload),
      )
]
  where
    nothing : (p : Bytes) → length p ≡ 0 → d.dst ++ p ≡ d.dst
    nothing [] e = append-nil d.dst
    nothing (b ∷ p) e = absurd (omega arith)
