-- ===== src/Udif/Pipeline/RoundTrip.antt =====
-- internal/udif/writer.go, `encodeChunks` against a reader of its runs.
use mathlib.Core.Path.{subst}
use mathlib.Core.List.{append-nil, append_assoc}
use go_dmg_writer.Base.{
  ℕ, zero, suc, ◌+◌, ◌/◌, ◌%◌, ◌^◌, ◌≤◌, ◌<◌, ◌≡◌, refl, sym, ap, ap₂, ◌∙◌, Bool, true, false, List,
  [], ◌∷◌, ◌++◌, Result, ok, length, take, get_or, length-append, length-take, arith,
}
use go_dmg_writer.Base.Bytes.{Bytes}
use go_dmg_writer.Udif.Chunks.{
  BlockRun, ChunkJob, ChunkResult, Compression, DrainState, drain_start, read_chunks, sector_size,
  encode_chunk, emit,
}
use go_dmg_writer.Udif.Chunks.Drain.{in_order, in_order-suc}
use go_dmg_writer.Udif.Chunks.Read.{IsChunk, Cut, contents, read_chunks-IsRead}
use go_dmg_writer.Udif.Chunks.Decode.{
  append, expand, expand_all, run_of, expand_all-snoc, expand-encode_chunk, encode_chunk-le,
  emit-append,
}
use go_dmg_writer.Udif.Pipeline.{System, Reach, init, IsFinal, EncodeError, outcome}
use go_dmg_writer.Udif.Pipeline.Deterministic.{no_chunk, result_of, sequential}
use go_dmg_writer.Udif.Pipeline.Errors.{Returns, outcome-in_order}

contents-take :
    (n : ℕ) (js : List ChunkJob)
    → n < length js
    → contents (take (suc n) js) ≡ contents (take n js) ++ (get_or js n no_chunk).buf
contents-take n [] lt = absurd (omega arith)
contents-take zero (j ∷ js) lt = append-nil j.buf
contents-take (suc n) (j ∷ js) lt =
    ap (◌++◌ j.buf) (contents-take n js (omega arith))
    ∙ sym (append_assoc j.buf (contents (take n js)) (get_or js n no_chunk).buf)

contents-take-le :
    (n : ℕ) (js : List ChunkJob) → length (contents (take n js)) ≤ length (contents js)
contents-take-le zero js = omega arith
contents-take-le (suc n) [] = omega arith
contents-take-le (suc n) (j ∷ js) = omega (
  arith,
  contents-take-le n js,
  length-append j.buf (contents (take n js)),
  length-append j.buf (contents js),
)

take-length : (js : List ChunkJob) → take (length js) js ≡ js
take-length [] = refl
take-length (j ∷ js) = ap (◌∷◌ j) (take-length js)

Cut-IsChunk :
    (s n : ℕ) (js : List ChunkJob) → Cut s js → n < length js → IsChunk (get_or js n no_chunk)
Cut-IsChunk s n [] cut lt = absurd (omega arith)
Cut-IsChunk s zero (j ∷ js) cut lt = cut.1
Cut-IsChunk s (suc n) (j ∷ js) cut lt =
    Cut-IsChunk (s + length j.buf / sector_size) n js cut.2 (omega arith)

module _ (deflate inflate : Bytes → Bytes) (inverse : (p : Bytes) → inflate (deflate p) ≡ p)
    (c : Compression) (jobs : List ChunkJob) (w : Bytes)
    (fits : length w + length (contents jobs) < 2 ^ 64) (cut : Cut 0 jobs) where
  -- The state behind the first `n` chunks: the runs so far read back as those chunks, whatever
  -- follows in the fork.
  record IsFaithful (n : ℕ) (d : DrainState Bytes) : Type 0 where
    fine : d.write_failed ≡ false
    len : d.data_fork_len ≡ length d.dst
    bound : length d.dst ≤ length w + length (contents (take n jobs))
    read : (more : Bytes) → expand_all inflate (d.dst ++ more) d.runs ≡ contents (take n jobs)

  abbrev res : ℕ → ChunkResult
  res = result_of append deflate c jobs (length w) w

  abbrev after : ℕ → DrainState Bytes
  after = in_order append res (length jobs) (drain_start (length w) w)

  emit-IsFaithful :
      (n : ℕ) (d : DrainState Bytes)
      → n < length jobs
      → IsFaithful n d
      → IsFaithful (suc n) (emit append (res n) d)
  emit-IsFaithful n d lt f =
      let j = get_or jobs n no_chunk in
      let payload = (encode_chunk deflate c j).payload in
      let small = encode_chunk-le deflate inflate inverse c j in
      let more_bytes : length (contents (take (suc n) jobs))
          ≡ length (contents (take n jobs)) + length j.buf =
        ap (λ (q : Bytes). length q) (contents-take n jobs lt)
        ∙ length-append (contents (take n jobs)) j.buf in
      let room : length d.dst + length payload < 2 ^ 64 =
        omega (arith, contents-take-le (suc n) jobs, f.bound, small) in
      let (eruns, edst, efine, elen) = emit-append (res n) d f.len room in
      record {
        fine = efine ∙ f.fine;
        len = elen ∙ ap (λ (q : Bytes). length q) (sym edst);
        bound = rw edst (omega (arith, length-append d.dst payload, small, f.bound));
        read = λ more.
            rw (eruns, edst)
              (expand_all-snoc inflate ((d.dst ++ payload) ++ more) d.runs
                  (run_of (res n) d.data_fork_len)
                ∙ ap₂ (λ (x : Bytes) (y : Bytes). x ++ y)
                    (ap (λ (q : Bytes). expand_all inflate q d.runs)
                        (append_assoc d.dst payload more)
                      ∙ f.read (payload ++ more))
                    (ap (λ (o : ℕ). expand inflate ((d.dst ++ payload) ++ more) (run_of (res n) o))
                        f.len
                      ∙ expand-encode_chunk deflate inflate inverse c j d.dst more
                          (Cut-IsChunk 0 n jobs cut lt))
                ∙ sym (contents-take n jobs lt));
      }

  after-IsFaithful : (n : ℕ) → n ≤ length jobs → IsFaithful n (after n)
  unfolding in_order expand_all
  after-IsFaithful zero le = record {
    fine = refl;
    len = refl;
    bound = omega arith;
    read = λ more. refl;
  }
  after-IsFaithful (suc n) le =
      let f = after-IsFaithful n (omega arith) in
      subst (IsFaithful (suc n))
        (sym (
          in_order-suc append res (length jobs) (drain_start (length w) w) n (after n) refl f.fine))
        (emit-IsFaithful n (after n) (omega arith) f)

Returns-ok :
    {short broken : Bool} {v : List BlockRun × ℕ} {r : Result EncodeError (List BlockRun × ℕ)}
    → short ≡ false
    → broken ≡ false
    → Returns short broken v r
    → r ≡ ok v
Returns-ok {short = false} {broken = false} whole written e = e
Returns-ok {short = true} {broken = false} whole written e = cc
Returns-ok {short = false} {broken = true} whole written e = cc
Returns-ok {short = true} {broken = true} whole written e = cc

module _ (deflate inflate : Bytes → Bytes) (inverse : (p : Bytes) → inflate (deflate p) ≡ p)
    (c : Compression) (chunk_bytes region_len : ℕ) (src w : Bytes) where
  -- For a region of whole sectors that the source has, chunks of whole sectors, a fork that
  -- stays below 2^64 bytes and writes that succeed: when the goroutines are done, in whatever
  -- interleaving and with any number of workers, `encodeChunks` returns runs and the fork's
  -- length, and from these runs a reader whose `inflate` undoes `deflate` gets back the bytes
  -- of the region.
  pub encode_chunks-expand_all :
      {workers : ℕ} {s : System Bytes}
      → 1 ≤ chunk_bytes
      → chunk_bytes % sector_size ≡ 0
      → region_len % sector_size ≡ 0
      → region_len ≤ length src
      → length w + region_len < 2 ^ 64
      → Reach append
          (encode_chunk deflate c)
          workers
          (init
            (read_chunks region_len chunk_bytes 0 0 region_len src).jobs
            (read_chunks region_len chunk_bytes 0 0 region_len src).read_failed
            (length w)
            w)
          s
      → IsFinal s
      → (runs : List BlockRun) × (outcome s ≡ (s.drained.dst, ok (runs, length s.drained.dst)))
        × (expand_all inflate s.drained.dst runs ≡ take region_len src)
  unfolding outcome
  encode_chunks-expand_all {s} pos whole sectors long fits r end =
      let got =
        read_chunks-IsRead chunk_bytes pos region_len 0 0 region_len src whole sectors (omega arith)
          long (omega arith) in
      let jobs = (read_chunks region_len chunk_bytes 0 0 region_len src).jobs in
      let in_turn = sequential append deflate c jobs (length w) w in
      let room : length w + length (contents jobs) < 2 ^ 64 =
        omega (arith, ap (λ (q : Bytes). length q) got.bytes, length-take region_len src) in
      let f =
        after-IsFaithful deflate inflate inverse c jobs w room got.cut (length jobs)
          (omega arith) in
      let (written, returned) =
        outcome-in_order append deflate c region_len chunk_bytes region_len src (length w) w r
          end in
      let len : in_turn.data_fork_len ≡ length s.drained.dst =
        f.len ∙ ap (λ (q : Bytes). length q) (sym written) in
      (
        in_turn.runs,
        ap (λ (e : Result EncodeError (List BlockRun × ℕ)). (s.drained.dst, e))
            (Returns-ok got.fine f.fine returned ∙ ap (λ (n : ℕ). ok (in_turn.runs, n)) len),
        ap (λ (q : Bytes). expand_all inflate q in_turn.runs)
              (written ∙ sym (append-nil in_turn.dst))
            ∙ f.read []
            ∙ ap contents (take-length jobs)
            ∙ got.bytes,
      )
