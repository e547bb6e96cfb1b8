-- ===== src/Udif/Chunks/Read.antt =====
-- internal/udif/writer.go, the producer of `encodeChunks`: the chunks that it cuts.
use mathlib.Core.Path.{subst}
use go_dmg_writer.Base.{
  ℕ, zero, suc, ◌+◌, ◌-◌, ◌/◌, ◌%◌, ◌≤◌, ◌<◌, ◌^◌, ◌≡◌, refl, sym, ap, ◌∙◌, true, false, Bool-cases,
  inl, inr, List, [], ◌∷◌, ◌++◌, ltb, ◌==◌, if◌then◌else◌, length, take, drop, length-drop,
  length-take, drop-drop, arith,
}
use go_dmg_writer.Base.Bytes.{Bytes, u64}
use go_dmg_writer.Udif.Chunks.{ChunkJob, Reading, read_chunks, is_all_zero, sector_size}

-- The bytes of the chunks, in order.
abbrev pub contents : List ChunkJob → Bytes
contents [] = []
contents (j ∷ js) = j.buf ++ contents js

-- A chunk as the workers get it: whole sectors, with the right answer on its zeros.
pub record IsChunk (j : ChunkJob) : Type 0 where
  pub whole : length j.buf % sector_size ≡ 0
  pub zeros : j.is_zero ≡ is_all_zero j.buf

-- The chunks cover whole sectors, one after the other from sector `s` on.
abbrev pub Cut : ℕ → List ChunkJob → Type 0
Cut s [] = Unit
Cut s (j ∷ js) = (j.sector_start ≡ s) × IsChunk j × Cut (s + length j.buf / sector_size) js

ltb-false : (a b : ℕ) → ltb a b ≡ false → b ≤ a
ltb-false a b e = ground arith

take-nil : (k : ℕ) → ◌≡◌ {A = Bytes} (take k []) []
take-nil zero = refl
take-nil (suc k) = refl

take-append : (m n : ℕ) (xs : Bytes) → take m xs ++ take n (drop m xs) ≡ take (m + n) xs
take-append zero n xs = ap (λ (k : ℕ). take k xs) (omega arith)
take-append (suc m) n [] = take-nil n ∙ sym (take-nil (suc m + n))
take-append (suc m) n (x ∷ xs) =
    ap (◌∷◌ x) (take-append m n xs)
    ∙ ap (λ (k : ℕ). take k (x ∷ xs)) (let e : suc (m + n) ≡ suc m + n = omega arith in e)

module _ (chunk_bytes : ℕ) (some_bytes : 1 ≤ chunk_bytes) where
  abbrev this_chunk : ℕ → ℕ
  this_chunk remaining = if ltb remaining chunk_bytes then remaining else chunk_bytes

  abbrev later : ℕ → ℕ → ℕ → ℕ → Bytes → Reading
  later fuel idx next_sector remaining src =
      read_chunks fuel chunk_bytes (idx + 1)
        (u64 (next_sector + this_chunk remaining / sector_size)) (remaining - this_chunk remaining)
        (drop (this_chunk remaining) src)

  read_chunks-zero :
      (fuel idx next_sector : ℕ) (src : Bytes)
      → read_chunks fuel chunk_bytes idx next_sector 0 src
        ≡ record { jobs = []; summed = []; rest = src; read_failed = false }
  unfolding read_chunks
  read_chunks-zero zero idx next_sector src = refl
  read_chunks-zero (suc fuel) idx next_sector src = refl

  this_chunk-le :
      (remaining : ℕ)
      → 0 < remaining
      → (1 ≤ this_chunk remaining) × (this_chunk remaining ≤ remaining)
  this_chunk-le remaining pos = ground arith

  this_chunk-whole :
      (remaining : ℕ)
      → chunk_bytes % sector_size ≡ 0
      → remaining % sector_size ≡ 0
      → this_chunk remaining % sector_size ≡ 0
  this_chunk-whole remaining cm rm = ground arith

  read_chunks-short :
      (fuel idx next_sector remaining : ℕ) (src : Bytes)
      → 0 < remaining
      → ltb (length src) (this_chunk remaining) ≡ true
      → read_chunks (suc fuel) chunk_bytes idx next_sector remaining src
        ≡ record { jobs = []; summed = []; rest = []; read_failed = true }
  unfolding read_chunks
  read_chunks-short fuel idx next_sector remaining src pos short =
      let nz : (remaining == 0) ≡ false = ground arith in rw (nz, short) refl

  read_chunks-full :
      (fuel idx next_sector remaining : ℕ) (src : Bytes)
      → 0 < remaining
      → ltb (length src) (this_chunk remaining) ≡ false
      → ((read_chunks (suc fuel) chunk_bytes idx next_sector remaining src).jobs
          ≡ record {
            idx = idx;
            sector_start = next_sector;
            is_zero = is_all_zero (take (this_chunk remaining) src);
            buf = take (this_chunk remaining) src;
          }
            ∷ (later fuel idx next_sector remaining src).jobs)
        × ((read_chunks (suc fuel) chunk_bytes idx next_sector remaining src).rest
            ≡ (later fuel idx next_sector remaining src).rest)
        × ((read_chunks (suc fuel) chunk_bytes idx next_sector remaining src).read_failed
            ≡ (later fuel idx next_sector remaining src).read_failed)
  unfolding read_chunks
  read_chunks-full fuel idx next_sector remaining src pos full =
      let nz : (remaining == 0) ≡ false = ground arith in
      (rw (nz, full) refl, rw (nz, full) refl, rw (nz, full) refl)

  -- What one reading promises: the chunks are the next `remaining` bytes of `src`.
  pub record IsRead (next_sector remaining : ℕ) (src : Bytes) (r : Reading) : Type 0 where
    pub fine : r.read_failed ≡ false
    pub bytes : contents r.jobs ≡ take remaining src
    pub rest : r.rest ≡ drop remaining src
    pub cut : Cut next_sector r.jobs

  -- If the source has the region's bytes, and the region and the chunks are whole sectors, the
  -- producer reads all of them and no more, in chunks of whole sectors that start where the
  -- one before ends, and knows of each chunk whether it is zero.
  pub read_chunks-IsRead :
      (fuel idx next_sector remaining : ℕ) (src : Bytes)
      → chunk_bytes % sector_size ≡ 0
      → remaining % sector_size ≡ 0
      → remaining ≤ fuel
      → remaining ≤ length src
      → next_sector + remaining < 2 ^ 64
      → IsRead next_sector remaining src
          (read_chunks fuel chunk_bytes idx next_sector remaining src)
  read_chunks-IsRead fuel idx s zero src cm rm enough le fits =
      rw (read_chunks-zero fuel idx s src)
        (record { fine = refl; bytes = refl; rest = refl; cut = tt })
  read_chunks-IsRead zero idx s (suc r) src cm rm enough le fits = absurd (omega arith)
  read_chunks-IsRead (suc fuel) idx s (suc r) src cm rm enough le fits =
      let t = this_chunk (suc r) in
      let (pos, small) = this_chunk-le (suc r) (omega arith) in
      let whole = this_chunk-whole (suc r) cm rm in
      let full : ltb (length src) t ≡ false = ground arith in
      let (ejobs, erest, efail) = read_chunks-full fuel idx s (suc r) src (omega arith) full in
      let next : u64 (s + t / sector_size) ≡ s + t / sector_size = omega arith in
      let len : length (take t src) ≡ t = omega (arith, length-take t src) in
      let all : t + (suc r - t) ≡ suc r = omega arith in
      let ih =
        read_chunks-IsRead fuel (idx + 1) (u64 (s + t / sector_size)) (suc r - t) (drop t src) cm
          (omega arith) (omega arith) (omega (arith, length-drop t src)) (omega arith) in
      record {
        fine = efail ∙ ih.fine;
        bytes =
            ap contents ejobs
            ∙ ap (◌++◌ (take t src)) ih.bytes
            ∙ take-append t (suc r - t) src
            ∙ ap (λ (k : ℕ). take k src) all;
        rest = erest ∙ ih.rest ∙ drop-drop t (suc r - t) src ∙ ap (λ (k : ℕ). drop k src) all;
        cut = subst (Cut s) (sym ejobs) (
          refl,
          record { whole = rw len whole; zeros = refl },
          subst (λ (k : ℕ). Cut k (later fuel idx s (suc r) src).jobs)
              (let e : u64 (s + t / sector_size) ≡ s + length (take t src) / sector_size =
                  omega (arith, len) in
                e)
              ih.cut,
        );
      }

  -- If the source has fewer bytes than the region, the reading fails.
  pub read_chunks_short :
      (fuel idx next_sector remaining : ℕ) (src : Bytes)
      → remaining ≤ fuel
      → length src < remaining
      → (read_chunks fuel chunk_bytes idx next_sector remaining src).read_failed ≡ true
  read_chunks_short fuel idx s zero src enough lt = absurd (omega arith)
  read_chunks_short zero idx s (suc r) src enough lt = absurd (omega arith)
  read_chunks_short (suc fuel) idx s (suc r) src enough lt =
      elim (Bool-cases (ltb (length src) (this_chunk (suc r)))) [
        | inl short ↦
            ap (λ (q : Reading). q.read_failed)
              (read_chunks-short fuel idx s (suc r) src (omega arith) short)
        | inr full ↦
            let (ejobs, erest, efail) =
              read_chunks-full fuel idx s (suc r) src (omega arith) full in
            let (pos, le) = this_chunk-le (suc r) (omega arith) in
            efail
            ∙ read_chunks_short fuel (idx + 1) (u64 (s + this_chunk (suc r) / sector_size))
                (suc r - this_chunk (suc r)) (drop (this_chunk (suc r)) src) (omega arith)
                (omega (
                  arith,
                  length-drop (this_chunk (suc r)) src,
                  ltb-false (length src) (this_chunk (suc r)) full,
                ))
      ]
