-- ===== src/Udif/Pipeline.antt =====
-- internal/udif/writer.go, `encodeChunks`: the goroutines and their channels. One step is one
-- action of the producer, of a worker or of the drain; the scheduler picks among those enabled.
mod Tests
pub mod Bounds
pub mod InFlight
pub mod Invariant
pub mod Deterministic
pub mod Errors
pub mod RoundTrip
use go_dmg_writer.Base.{
  ℕ, ◌+◌, ◌*◌, ◌<◌, ◌≡◌, Bool, true, false, List, [], ◌∷◌, ◌++◌, Option, Result, ok, err,
  if◌then◌else◌, length,
}
use go_dmg_writer.Base.Bytes.{Bytes}
use go_dmg_writer.Udif.Chunks.{BlockRun, ChunkJob, ChunkResult, DrainState, receive, drain_start}

-- The source still has the chunks `unread`, and is `short` if it then fails before the region
-- ends. The producer has `closed` the jobs, or has not, and `read_error` says whether its
-- `producerErr` is set. `jobs` and `results` are the channels; `busy` are the chunks that workers
-- hold.
pub record System (W : Type 0) : Type 0 where
  pub unread : List ChunkJob
  pub short : Bool
  pub closed : Bool
  pub read_error : Bool
  pub jobs : List ChunkJob
  pub busy : List ChunkJob
  pub results : List ChunkResult
  pub drained : DrainState W

module _ {W : Type 0} (write : W → Bytes → Option W) (enc : ChunkJob → ChunkResult) where
  pub data Step (workers : ℕ) (s : System W) : System W → Type 0 where
    -- the producer dispatches a chunk
    send :
        (j : ChunkJob) {js : List ChunkJob}
        → s.closed ≡ false
        → s.unread ≡ j ∷ js
        → length s.jobs < workers * 2
        → Step workers s (record s { unread = js; jobs = s.jobs ++ (j ∷ []) })
    -- the producer comes to the end of the region, or to a read that fails
    finish_reading :
        s.closed ≡ false
        → s.unread ≡ []
        → Step workers s (record s { closed = true; read_error = s.short })
    -- the producer has a chunk to send and sees `done`
    give_up :
        (j : ChunkJob) {js : List ChunkJob}
        → s.closed ≡ false
        → s.unread ≡ j ∷ js
        → s.drained.write_failed ≡ true
        → Step workers s (record s { closed = true })
    -- an idle worker takes a chunk
    begin :
        (j : ChunkJob) {js : List ChunkJob}
        → s.jobs ≡ j ∷ js
        → length s.busy < workers
        → Step workers s (record s { jobs = js; busy = j ∷ s.busy })
    -- some worker sends its result
    finish :
        (js : List ChunkJob) (j : ChunkJob) (ks : List ChunkJob)
        → s.busy ≡ js ++ (j ∷ ks)
        → length s.results < workers * 2
        → Step workers s (record s { busy = js ++ ks; results = s.results ++ (enc j ∷ []) })
    -- the drain takes a result
    collect :
        (r : ChunkResult) {rs : List ChunkResult}
        → s.results ≡ r ∷ rs
        → Step workers s (record s { results = rs; drained = receive write r s.drained })

  pub data Reach (workers : ℕ) (s : System W) : System W → Type 0 where
    here : Reach workers s s
    later : {t u : System W} → Reach workers s t → Step workers t u → Reach workers s u

abbrev pub init : {W : Type 0} → List ChunkJob → Bool → ℕ → W → System W
init unread short base_offset w = record {
  unread = unread;
  short = short;
  closed = false;
  read_error = false;
  jobs = [];
  busy = [];
  results = [];
  drained = drain_start base_offset w;
}

-- The workers have returned, `results` is closed, and the drain has read it to its end.
pub record IsFinal {W : Type 0} (s : System W) : Type 0 where
  pub closed : s.closed ≡ true
  pub jobs : s.jobs ≡ []
  pub busy : s.busy ≡ []
  pub results : s.results ≡ []

-- The errors of `encodeChunks`: the producer's, from the source, and the drain's, from `dst`.
pub data EncodeError : Type 0 where
  reading_failed : EncodeError
  writing_failed : EncodeError

-- What `encodeChunks` returns, and what `dst` has taken. The producer's error comes first.
unfoldable pub outcome : {W : Type 0} → System W → W × Result EncodeError (List BlockRun × ℕ)
outcome s =
    let d = s.drained in
    (
      d.dst,
      if s.read_error
          then err reading_failed
          else if d.write_failed
          then err writing_failed
          else ok (d.runs, d.data_fork_len),
    )
