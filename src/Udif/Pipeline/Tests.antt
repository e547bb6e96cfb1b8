-- ===== src/Udif/Pipeline/Tests.antt =====
-- Two chunks and two workers, of which the second is done first.
use go_dmg_writer.Base.{
  ◌<◌, ◌≡◌, ℕ, refl, ◌⊎◌, true, false, List, [], ◌∷◌, ◌++◌, Option, none, ok, err, length, take,
  replicate, arith,
}
use go_dmg_writer.Base.Bytes.{Bytes}
use go_dmg_writer.Udif.Chunks.{
  BlockRun, ChunkJob, ChunkResult, compression_zlib, DrainState, drain_start, read_chunks,
  encode_chunk, receive, is_all_zero, stride_loop, bytes_equal, tail_is_zero,
}
use go_dmg_writer.Udif.Chunks.Drain.{core}
use go_dmg_writer.Udif.Chunks.Decode.{append, expand_all}
use go_dmg_writer.Udif.Pipeline.{
  System, Step, send, finish_reading, begin, finish, collect, Reach, here, later, IsFinal, init,
  give_up, reading_failed, writing_failed, outcome,
}
use go_dmg_writer.Udif.Pipeline.Bounds.{work, Step-work, Step-total}
use go_dmg_writer.Udif.Pipeline.Deterministic.{result_of, sequential, final_in_order}
use go_dmg_writer.Udif.Pipeline.Errors.{
  Returns, chunks_read, source_short, in_turn, outcome-in_order,
}
use go_dmg_writer.Udif.Pipeline.RoundTrip.{encode_chunks-expand_all}

abbrev same : Bytes → Bytes
same p = p

abbrev enc : ChunkJob → ChunkResult
enc = encode_chunk same compression_zlib

abbrev source : Bytes
source = replicate 512 0 ++ replicate 512 7

abbrev chunks : List ChunkJob
chunks = (read_chunks 1024 512 0 0 1024 source).jobs

abbrev first_job : ChunkJob
first_job = record { idx = 0; sector_start = 0; is_zero = true; buf = replicate 512 0 }

abbrev second_job : ChunkJob
second_job = record { idx = 1; sector_start = 1; is_zero = false; buf = replicate 512 7 }

read_both : chunks ≡ first_job ∷ second_job ∷ []
unfolding read_chunks is_all_zero stride_loop bytes_equal tail_is_zero
read_both = refl

abbrev end_of : DrainState Bytes → System Bytes
end_of d = record {
  unread = [];
  short = false;
  closed = true;
  read_error = false;
  jobs = [];
  busy = [];
  results = [];
  drained = d;
}

end_of-IsFinal : (d : DrainState Bytes) → IsFinal (end_of d)
end_of-IsFinal d = record { closed = refl; jobs = refl; busy = refl; results = refl }

-- The first result is the later chunk's.
abbrev crossed : System Bytes
crossed =
    end_of (receive append (enc first_job) (receive append (enc second_job) (drain_start 0 [])))

crossed-Reach : Reach append enc 2 (init chunks false 0 []) crossed
crossed-Reach =
    later
      (later
        (later
          (later
            (later
              (later
                (later
                  (later (later here (send first_job refl read_both (omega arith)))
                    (send second_job refl refl (omega arith)))
                  (finish_reading refl refl))
                (begin first_job refl (omega arith)))
              (begin second_job refl (omega arith)))
            (finish [] second_job (first_job ∷ []) refl (omega arith)))
          (finish [] first_job [] refl (omega arith)))
        (collect (enc second_job) refl))
      (collect (enc first_job) refl)

-- One worker, in order.
abbrev straight : System Bytes
straight =
    end_of (receive append (enc second_job) (receive append (enc first_job) (drain_start 0 [])))

straight-Reach : Reach append enc 1 (init chunks false 0 []) straight
straight-Reach =
    later
      (later
        (later
          (later
            (later
              (later
                (later
                  (later (later here (send first_job refl read_both (omega arith)))
                    (begin first_job refl (omega arith)))
                  (send second_job refl refl (omega arith)))
                (finish [] first_job [] refl (omega arith)))
              (begin second_job refl (omega arith)))
            (collect (enc first_job) refl))
          (finish [] second_job [] refl (omega arith)))
        (collect (enc second_job) refl))
      (finish_reading refl refl)

final_in_order_example :
    core append
      (result_of append same compression_zlib chunks 0 [])
      (length chunks)
      (drain_start 0 [])
      crossed.drained
    ≡ sequential append same compression_zlib chunks 0 []
unfolding read_chunks
final_in_order_example =
    final_in_order append same compression_zlib 1024 512 1024 source 0 [] crossed-Reach
      (end_of-IsFinal crossed.drained)

-- A source that ends in the third chunk, and a `dst` that takes nothing.
abbrev no_room : Bytes → Bytes → Option Bytes
no_room w p = none

abbrev sevens : ℕ → ChunkJob
sevens i = record { idx = i; sector_start = i; is_zero = false; buf = replicate 512 7 }

abbrev short_chunks : List ChunkJob
short_chunks = chunks_read no_room same compression_zlib 1536 512 1536 (replicate 1024 7) 0 []

read_short : short_chunks ≡ sevens 0 ∷ sevens 1 ∷ []
unfolding read_chunks is_all_zero stride_loop bytes_equal tail_is_zero
read_short = refl

abbrev refused : DrainState Bytes
refused = receive no_room (enc (sevens 0)) (drain_start 0 [])

-- The first write has failed, and the producer still has a chunk to send.
abbrev half_way : System Bytes
half_way = record {
  unread = sevens 1 ∷ [];
  short = true;
  closed = false;
  read_error = false;
  jobs = [];
  busy = [];
  results = [];
  drained = refused;
}

half_way-Reach : Reach no_room enc 1 (init short_chunks true 0 []) half_way
half_way-Reach =
    later
      (later
        (later (later here (send (sevens 0) refl read_short (omega arith)))
          (begin (sevens 0) refl (omega arith)))
        (finish [] (sevens 0) [] refl (omega arith)))
      (collect (enc (sevens 0)) refl)

-- The producer sees `done` before it can send the second chunk.
abbrev gave_up : System Bytes
gave_up = record half_way { closed = true }

gave_up-Reach : Reach no_room enc 1 (init short_chunks true 0 []) gave_up
unfolding receive encode_chunk
gave_up-Reach = later half_way-Reach (give_up (sevens 1) refl refl refl)

gave_up_error : (outcome gave_up).1 ≡ err writing_failed
unfolding outcome receive encode_chunk
gave_up_error = refl

-- The producer sends it, and reads on.
abbrev read_on : System Bytes
read_on = record half_way {
  unread = [];
  closed = true;
  read_error = true;
  drained = receive no_room (enc (sevens 1)) refused;
}

read_on-Reach : Reach no_room enc 1 (init short_chunks true 0 []) read_on
read_on-Reach =
    later
      (later
        (later
          (later (later half_way-Reach (send (sevens 1) refl refl (omega arith)))
            (finish_reading refl refl))
          (begin (sevens 1) refl (omega arith)))
        (finish [] (sevens 1) [] refl (omega arith)))
      (collect (enc (sevens 1)) refl)

read_on_error : (outcome read_on).1 ≡ err reading_failed
unfolding outcome
read_on_error = refl

abbrev turn : DrainState Bytes
turn = in_turn no_room same compression_zlib 1536 512 1536 (replicate 1024 7) 0 []

outcome-in_order_example :
    ((outcome gave_up).0 ≡ turn.dst)
    × Returns
        (source_short no_room same compression_zlib 1536 512 1536 (replicate 1024 7) 0 [])
        turn.write_failed
        (turn.runs, turn.data_fork_len)
        (outcome gave_up).1
unfolding read_chunks
outcome-in_order_example =
    outcome-in_order no_room same compression_zlib 1536 512 1536 (replicate 1024 7) 0 []
      gave_up-Reach (record { closed = refl; jobs = refl; busy = refl; results = refl })

encode_chunks-expand_all_example :
    (runs : List BlockRun) × (outcome crossed
      ≡ (crossed.drained.dst, ok (runs, length crossed.drained.dst)))
    × (expand_all same crossed.drained.dst runs ≡ take 1024 source)
unfolding read_chunks
encode_chunks-expand_all_example =
    encode_chunks-expand_all same same (λ p. refl) compression_zlib 512 1024 source [] (omega arith)
      refl refl (omega arith) (omega arith) crossed-Reach (end_of-IsFinal crossed.drained)

Step-work_example : work straight < work (record straight { closed = false })
Step-work_example =
    Step-work append enc {workers = 1} {s = record straight { closed = false }} {t = straight}
      (finish_reading refl refl)

abbrev first_job_only : List ChunkJob
first_job_only = first_job ∷ []

Step-total_example :
    IsFinal (init {W = Bytes} first_job_only false 0 [])
    ⊎ ((t : System Bytes) × Step append enc 1 (init {W = Bytes} first_job_only false 0 []) t)
Step-total_example =
    Step-total append enc (init {W = Bytes} first_job_only false 0 []) (omega arith)
