-- ===== src/Udif/Pipeline/Errors.antt =====
-- internal/udif/writer.go, `encodeChunks`: what it returns, errors included, under any scheduler.
use mathlib.Core.Path.{subst}
use go_dmg_writer.Base.{
  ℕ, ◌≡◌, refl, ap, ◌∙◌, Bool, true, false, ◌⊎◌, inl, inr, List, Option, Result, ok, err,
}
use go_dmg_writer.Base.Bytes.{Bytes}
use go_dmg_writer.Udif.Chunks.{
  BlockRun, ChunkJob, ChunkResult, Compression, DrainState, receive, encode_chunk,
}
use go_dmg_writer.Udif.Chunks.Ordered.{receive-failed}
use go_dmg_writer.Udif.Pipeline.{
  System, Step, send, finish_reading, give_up, begin, finish, collect, Reach, here, later, init,
  IsFinal, EncodeError, reading_failed, writing_failed, outcome,
}
use go_dmg_writer.Udif.Pipeline.Deterministic.{reading, sequential, final_in_order}

-- What `encodeChunks` may return if the source is short or is not, and a write fails or does not;
-- `v` are the runs and the length of the fork.
abbrev pub Returns :
    Bool → Bool → List BlockRun × ℕ → Result EncodeError (List BlockRun × ℕ) → Type 0
Returns false false v r = r ≡ ok v
Returns true false v r = r ≡ err reading_failed
Returns false true v r = r ≡ err writing_failed
Returns true true v r = (r ≡ err reading_failed) ⊎ (r ≡ err writing_failed)

-- Why the producer has closed the jobs: it came to the end of what the source has, and has reported
-- the source's error if there is one, or it gave up after a failed write.
record IsAccounted {W : Type 0} (short : Bool) (s : System W) : Type 0 where
  same : s.short ≡ short
  none_yet : s.closed ≡ false → s.read_error ≡ false
  ended :
      s.closed ≡ true
      → (s.read_error ≡ short) ⊎ ((s.read_error ≡ false) × (s.drained.write_failed ≡ true))

module _ {W : Type 0} (write : W → Bytes → Option W) (enc : ChunkJob → ChunkResult) where
  still_failed :
      (r : ChunkResult) (d : DrainState W)
      → d.write_failed ≡ true
      → (receive write r d).write_failed ≡ true
  still_failed r d broken =
      ap (λ (q : DrainState W). q.write_failed) (receive-failed write (λ k. r) 0 d 0 d broken)
      ∙ broken

  Step-IsAccounted :
      {workers : ℕ} {short : Bool} {s t : System W}
      → Step write enc workers s t
      → IsAccounted short s
      → IsAccounted short t
  Step-IsAccounted (send j open_ e room) a = record {
    same = a.same;
    none_yet = a.none_yet;
    ended = a.ended;
  }
  Step-IsAccounted (finish_reading open_ e) a = record {
    same = a.same;
    none_yet = λ shut. cc;
    ended = λ shut. inl a.same;
  }
  Step-IsAccounted (give_up j open_ u e) a = record {
    same = a.same;
    none_yet = λ shut. cc;
    ended = λ shut. inr (a.none_yet open_, e);
  }
  Step-IsAccounted (begin j e idle) a = record {
    same = a.same;
    none_yet = a.none_yet;
    ended = a.ended;
  }
  Step-IsAccounted (finish js j ks e room) a = record {
    same = a.same;
    none_yet = a.none_yet;
    ended = a.ended;
  }
  Step-IsAccounted {s} (collect r e) a = record {
    same = a.same;
    none_yet = a.none_yet;
    ended = λ shut. elim (a.ended shut) [
      | inl all ↦ inl all
      | inr (quiet, broken) ↦ inr (quiet, still_failed r s.drained broken)
    ];
  }

  Reach-IsAccounted :
      {workers : ℕ} {jobs : List ChunkJob} {short : Bool} {base_offset : ℕ} {w : W} {s : System W}
      → Reach write enc workers (init jobs short base_offset w) s
      → IsAccounted short s
  Reach-IsAccounted here = record { same = refl; none_yet = λ open_. refl; ended = λ shut. cc }
  Reach-IsAccounted (later r st) = Step-IsAccounted st (Reach-IsAccounted r)

-- The result of a state in which the producer has come to an end.
outcome-Returns :
    {W : Type 0} (short broken : Bool) (s : System W)
    → s.drained.write_failed ≡ broken
    → (s.read_error ≡ short) ⊎ ((s.read_error ≡ false) × (s.drained.write_failed ≡ true))
    → Returns short broken (s.drained.runs, s.drained.data_fork_len) (outcome s).1
unfolding outcome
outcome-Returns false false s e (inl all) = rw (all, e) refl
outcome-Returns true false s e (inl all) = rw all refl
outcome-Returns false true s e (inl all) = rw (all, e) refl
outcome-Returns true true s e (inl all) = inl (rw all refl)
outcome-Returns false false s e (inr (quiet, failed)) = cc
outcome-Returns true false s e (inr (quiet, failed)) = cc
outcome-Returns false true s e (inr (quiet, failed)) = rw (quiet, e) refl
outcome-Returns true true s e (inr (quiet, failed)) = inr (rw (quiet, e) refl)

module _ {W : Type 0} (write : W → Bytes → Option W) (deflate : Bytes → Bytes) (c : Compression)
    (fuel chunk_bytes region_len : ℕ) (src : Bytes) (base_offset : ℕ) (w : W) where
  abbrev pub chunks_read : List ChunkJob
  chunks_read = (reading write deflate c fuel chunk_bytes region_len src base_offset w).jobs

  abbrev pub source_short : Bool
  source_short = (reading write deflate c fuel chunk_bytes region_len src base_offset w).read_failed

  abbrev pub in_turn : DrainState W
  in_turn = sequential write deflate c chunks_read base_offset w

  -- However the goroutines are scheduled, and whatever the number of workers, when they are done
  -- `dst` has taken what it takes when the results of the chunks that the source has are written one
  -- after the other, in order, up to the first failed write. If the source has the whole region and
  -- no such write fails, `encodeChunks` returns the runs and the length of the fork that this writing
  -- in order gives; if only the source fails, the error of reading; if only a write fails, the error
  -- of writing; if both fail, one of the two errors.
  pub outcome-in_order :
      {workers : ℕ} {s : System W}
      → Reach write (encode_chunk deflate c) workers (init chunks_read source_short base_offset w) s
      → IsFinal s
      → ((outcome s).0 ≡ in_turn.dst)
        × Returns source_short in_turn.write_failed
            (in_turn.runs, in_turn.data_fork_len)
            (outcome s).1
  unfolding outcome
  outcome-in_order {s} r end =
      let same =
        final_in_order write deflate c fuel chunk_bytes region_len src base_offset w r end in
      let accounted = Reach-IsAccounted write (encode_chunk deflate c) r in
      (
        ap (λ (d : DrainState W). d.dst) same,
        subst (λ (v : List BlockRun × ℕ). Returns source_short in_turn.write_failed v (outcome s).1)
            (ap (λ (d : DrainState W). (d.runs, d.data_fork_len)) same)
            (outcome-Returns source_short in_turn.write_failed s
              (ap (λ (d : DrainState W). d.write_failed) same) (accounted.ended end.closed)),
      )
