-- ===== src/Udif/Pipeline/Deterministic.antt =====
-- internal/udif/writer.go, `encodeChunks`: what its drain writes under any scheduler and number of workers.
use mathlib.Core.List.{Memᴰ}
use mathlib.Core.List.Memᴰ
use mathlib.Core.Path.{subst}
use go_dmg_writer.Base.{
  ℕ, zero, suc, ◌+◌, ◌-◌, ◌<◌, ◌≡◌, refl, sym, ap, ◌∙◌, Bool, false, Bool-cases, inl, inr, List, [],
  ◌∷◌, Option, length, get_or, drop, ◌/◌, ltb, ◌==◌, if◌then◌else◌, arith,
}
use go_dmg_writer.Base.Bytes.{Bytes, u64}
use go_dmg_writer.Udif.Chunks.{
  ChunkJob, ChunkResult, Compression, compression_none, compression_zlib, DrainState, drain_start,
  Reading, read_chunks, sector_size, encode_chunk,
}
use go_dmg_writer.Udif.Chunks.Drain.{core, in_order}
use go_dmg_writer.Udif.Chunks.Ordered.{start-IsCaughtUp}
use go_dmg_writer.Udif.Pipeline.{System, Reach, here, later, init, IsFinal}
use go_dmg_writer.Udif.Pipeline.InFlight.{Flies}
use go_dmg_writer.Udif.Pipeline.Invariant.{IsFlowing, Step-IsFlowing, final}

-- The chunks are numbered one after the other from `k` on.
abbrev pub Numbered : ℕ → List ChunkJob → Type 0
Numbered k [] = Unit
Numbered k (j ∷ js) = (j.idx ≡ k) × Numbered (suc k) js

read_chunks-Numbered :
    (fuel chunk_bytes idx next_sector remaining : ℕ) (src : Bytes)
    → Numbered idx (read_chunks fuel chunk_bytes idx next_sector remaining src).jobs
unfolding read_chunks
read_chunks-Numbered zero chunk_bytes idx next_sector remaining src = tt
read_chunks-Numbered (suc fuel) chunk_bytes idx next_sector remaining src =
    let this_chunk : ℕ = if ltb remaining chunk_bytes then remaining else chunk_bytes in
    let later_jobs =
      (read_chunks fuel chunk_bytes (idx + 1) (u64 (next_sector + this_chunk / sector_size))
        (remaining - this_chunk) (drop this_chunk src)).jobs in
    let e : idx + 1 ≡ suc idx = omega arith in
    let more =
      subst (λ (k : ℕ). Numbered k later_jobs) e
        (read_chunks-Numbered fuel chunk_bytes (idx + 1)
          (u64 (next_sector + this_chunk / sector_size)) (remaining - this_chunk)
          (drop this_chunk src)) in
    elim (Bool-cases (remaining == 0)) [
      | inl z ↦ rw z tt
      | inr nz ↦ elim (Bool-cases (ltb (length src) this_chunk)) [
        | inl short ↦ rw (nz, short) tt
        | inr full ↦ rw (nz, full) (refl, more)
      ]
    ]

encode_chunk-idx :
    (deflate : Bytes → Bytes) (c : Compression) (j : ChunkJob)
    → (encode_chunk deflate c j).idx ≡ j.idx
unfolding encode_chunk
encode_chunk-idx deflate compression_none j = ground arith
encode_chunk-idx deflate compression_zlib j = ground arith

abbrev pub no_chunk : ChunkJob
no_chunk = record { idx = 0; sector_start = 0; is_zero = false; buf = [] }

nth-idx :
    (b k : ℕ) (js : List ChunkJob)
    → Numbered b js
    → k < length js
    → (get_or js k no_chunk).idx ≡ b + k
nth-idx b k [] n lt = absurd (omega arith)
nth-idx b zero (j ∷ js) n lt = n.0 ∙ omega arith
nth-idx b (suc k) (j ∷ js) n lt = nth-idx (suc b) k js n.1 (omega arith) ∙ omega arith

nth-mem : (k : ℕ) (js : List ChunkJob) → k < length js → Memᴰ (get_or js k no_chunk) js
nth-mem k [] lt = absurd (omega arith)
nth-mem zero (j ∷ js) lt = Memᴰ.head refl
nth-mem (suc k) (j ∷ js) lt = Memᴰ.tail (nth-mem k js (omega arith))

mem-nth :
    (j : ChunkJob) (js : List ChunkJob)
    → Memᴰ j js
    → (k : ℕ) × (k < length js) × (j ≡ get_or js k no_chunk)
mem-nth j [] m = elim m [ ]
mem-nth j (i ∷ js) (Memᴰ.head e) = (0, omega arith, e)
mem-nth j (i ∷ js) (Memᴰ.tail m) = let (k, lt, e) = mem-nth j js m in (suc k, omega arith, e)

module _ {W : Type 0} (write : W → Bytes → Option W) (deflate : Bytes → Bytes) (c : Compression)
    (jobs : List ChunkJob) (base_offset : ℕ) (w : W) where
  -- The result of chunk `k`.
  abbrev pub result_of : ℕ → ChunkResult
  result_of k = encode_chunk deflate c (get_or jobs k no_chunk)

  abbrev pub sequential : DrainState W
  sequential = in_order write result_of (length jobs) (drain_start base_offset w) (length jobs)

  result_of-idx : Numbered 0 jobs → (k : ℕ) → k < length jobs → (result_of k).idx ≡ k
  result_of-idx numbered k lt =
      encode_chunk-idx deflate c (get_or jobs k no_chunk)
      ∙ nth-idx 0 k jobs numbered lt
      ∙ omega arith

  abbrev Flowing : Numbered 0 jobs → System W → Type 1
  Flowing numbered =
      IsFlowing write (encode_chunk deflate c) result_of (length jobs) (drain_start base_offset w)
        (result_of-idx numbered)

  init-Flowing :
      (numbered : Numbered 0 jobs) (short : Bool) → Flowing numbered (init jobs short base_offset w)
  init-Flowing numbered short = record {
    arrived = λ i. ⊥;
    caught_up = start-IsCaughtUp write base_offset w result_of (length jobs);
    right = right;
    covered = λ i lt. inr (inl (inl (get_or jobs i no_chunk, nth-mem i jobs lt, refl)));
    stopped = λ shut. cc;
  }
    where
      right :
          (r : ChunkResult)
          → Flies write (encode_chunk deflate c) r (init jobs short base_offset w)
          → (r ≡ result_of r.idx) × (r.idx < length jobs)
      right r (inl (inl (j, m, e))) =
          let (k, lt, at) = mem-nth j jobs m in
          let same : r ≡ result_of k = e ∙ ap (encode_chunk deflate c) at in
          let named : r.idx ≡ k =
            ap (λ (q : ChunkResult). q.idx) same ∙ result_of-idx numbered k lt in
          (same ∙ ap result_of (sym named), omega arith)
      right r (inl (inr (j, m, e))) = absurd (Memᴰ.not-nil m)
      right r (inr (inl (j, m, e))) = absurd (Memᴰ.not-nil m)
      right r (inr (inr m)) = absurd (Memᴰ.not-nil m)

  Reach-Flowing :
      (numbered : Numbered 0 jobs) {short : Bool} {workers : ℕ} {s : System W}
      → Reach write (encode_chunk deflate c) workers (init jobs short base_offset w) s
      → Flowing numbered s
  Reach-Flowing numbered {short} here = init-Flowing numbered short
  Reach-Flowing numbered (later r st) =
      Step-IsFlowing write (encode_chunk deflate c) result_of (length jobs)
        (drain_start base_offset w) (result_of-idx numbered) st (Reach-Flowing numbered r)

  final_drain :
      (numbered : Numbered 0 jobs) {short : Bool} {workers : ℕ} {s : System W}
      → Reach write (encode_chunk deflate c) workers (init jobs short base_offset w) s
      → IsFinal s
      → core write result_of (length jobs) (drain_start base_offset w) s.drained ≡ sequential
  final_drain numbered {s} r end =
      final write (encode_chunk deflate c) result_of (length jobs) (drain_start base_offset w)
        (result_of-idx numbered) s (Reach-Flowing numbered r) end

module _ {W : Type 0} (write : W → Bytes → Option W) (deflate : Bytes → Bytes) (c : Compression)
    (fuel chunk_bytes region_len : ℕ) (src : Bytes) (base_offset : ℕ) (w : W) where
  abbrev pub reading : Reading
  reading = read_chunks fuel chunk_bytes 0 0 region_len src

  -- However the goroutines are scheduled, when they are done the drain has written the results of
  -- the chunks that were read one after the other, in order, up to the first failed write.
  pub final_in_order :
      {workers : ℕ} {s : System W}
      → Reach write
          (encode_chunk deflate c)
          workers
          (init reading.jobs reading.read_failed base_offset w)
          s
      → IsFinal s
      → core write
          (result_of write deflate c reading.jobs base_offset w)
          (length reading.jobs)
          (drain_start base_offset w)
          s.drained
        ≡ sequential write deflate c reading.jobs base_offset w
  final_in_order =
      final_drain write deflate c reading.jobs base_offset w
        (read_chunks-Numbered fuel chunk_bytes 0 0 region_len src)
