-- ===== src/Udif/Chunks.antt =====
-- internal/udif/writer.go, `encodeChunks`: the chunks of a region, what a worker makes of one, and
-- what the drain writes. The goroutines are in Pipeline.
mod Tests
pub mod Drain
pub mod Ordered
pub mod Zero
pub mod Read
pub mod Decode
use go_dmg_writer.Base.{
  ℕ, zero, suc, ◌+◌, ◌-◌, ◌*◌, ◌/◌, Bool, true, false, ◌&&◌, List, [], ◌∷◌, ◌++◌, Option, none,
  some, ltb, leb, ◌==◌, if◌then◌else◌, length, take, drop, replicate,
}
use go_dmg_writer.Base.Bytes.{Bytes, u64}

abbrev pub sector_size : ℕ
sector_size = 512

-- The run types that the writer emits.
abbrev pub block_raw : ℕ
block_raw = 1

abbrev pub block_zero : ℕ
block_zero = 2

abbrev pub block_zlib : ℕ
block_zlib = 0x8000_0005

pub record BlockRun : Type 0 where
  pub run_type : ℕ
  pub reserved : ℕ
  pub sector_start : ℕ
  pub sector_count : ℕ
  pub comp_offset : ℕ
  pub comp_length : ℕ

pub data Compression : Type 0 where
  compression_none compression_zlib : Compression

pub record ChunkJob : Type 0 where
  pub idx : ℕ
  pub sector_start : ℕ
  pub is_zero : Bool
  pub buf : Bytes

pub record ChunkResult : Type 0 where
  pub idx : ℕ
  pub run_type : ℕ
  pub sector_start : ℕ
  pub sec_count : ℕ
  pub payload : Bytes

-- `bytes.Equal`
unfoldable pub bytes_equal : Bytes → Bytes → Bool
bytes_equal [] [] = true
bytes_equal [] (b ∷ bs) = false
bytes_equal (a ∷ as') [] = false
bytes_equal (a ∷ as') (b ∷ bs) = (a == b) && bytes_equal as' bs

-- The loop over the last bytes of `isAllZero`.
unfoldable pub tail_is_zero : Bytes → Bool
tail_is_zero [] = true
tail_is_zero (b ∷ bs) = let rest = tail_is_zero bs in if b == 0 then rest else false

-- The fast path in strides of 64 bytes, and the rest byte by byte. The fuel is one more than the
-- length; without fuel the answer would be `false`.
unfoldable pub stride_loop : ℕ → Bytes → Bool
stride_loop zero p = false
stride_loop (suc fuel) p =
    let rest = stride_loop fuel (drop 64 p) in
    let stride : Bool = if bytes_equal (take 64 p) (replicate 64 0) then rest else false in
    if leb 64 (length p) then stride else tail_is_zero p

unfoldable pub is_all_zero : Bytes → Bool
unfolding stride_loop
is_all_zero p = stride_loop (suc (length p)) p

-- The producer: the jobs of the chunks that it reads, the bytes that reach the CRC, the source
-- behind the region, and whether `io.ReadFull` came to the end of the source too early.
pub record Reading : Type 0 where
  pub jobs : List ChunkJob
  pub summed : Bytes
  pub rest : Bytes
  pub read_failed : Bool

unfoldable pub read_chunks : ℕ → ℕ → ℕ → ℕ → ℕ → Bytes → Reading
read_chunks zero chunk_bytes idx next_sector remaining src = record {
  jobs = [];
  summed = [];
  rest = src;
  read_failed = false;
}
read_chunks (suc fuel) chunk_bytes idx next_sector remaining src =
    let this_chunk : ℕ = if ltb remaining chunk_bytes then remaining else chunk_bytes in
    let buf = take this_chunk src in
    let is_zero = is_all_zero buf in
    let more =
      read_chunks fuel chunk_bytes (idx + 1) (u64 (next_sector + this_chunk / sector_size))
        (remaining - this_chunk) (drop this_chunk src) in
    let job : ChunkJob = record {
      idx = idx;
      sector_start = next_sector;
      is_zero = is_zero;
      buf = buf;
    } in
    let read : Reading = record more {
      jobs = job ∷ more.jobs;
      summed = if is_zero then more.summed else buf ++ more.summed;
    } in
    let short : Reading = record { jobs = []; summed = []; rest = []; read_failed = true } in
    let done : Reading = record { jobs = []; summed = []; rest = src; read_failed = false } in
    if remaining == 0 then done else if ltb (length src) this_chunk then short else read

-- A worker's answer to a job. `deflate` is the zlib writer at its default level, whose errors are
-- those of the buffer that it writes to, and a `bytes.Buffer` has none.
unfoldable pub encode_chunk : (Bytes → Bytes) → Compression → ChunkJob → ChunkResult
encode_chunk deflate compression j =
    let sec_count = length j.buf / sector_size in
    let raw : ChunkResult = record {
      idx = j.idx;
      run_type = block_raw;
      sector_start = j.sector_start;
      sec_count = sec_count;
      payload = j.buf;
    } in
    let zeros : ChunkResult = record {
      idx = j.idx;
      run_type = block_zero;
      sector_start = j.sector_start;
      sec_count = sec_count;
      payload = [];
    } in
    let packed = deflate j.buf in
    let zlib : ChunkResult = record {
      idx = j.idx;
      run_type = block_zlib;
      sector_start = j.sector_start;
      sec_count = sec_count;
      payload = packed;
    } in
    if j.is_zero then zeros else elim compression [
      | compression_none ↦ raw
      | compression_zlib ↦ if leb (length j.buf) (length packed) then raw else zlib
    ]

-- The `map[int]chunkResult` of the drain.
unfoldable pub lookup : ℕ → List (ℕ × ChunkResult) → Option ChunkResult
lookup k [] = none
lookup k ((i, r) ∷ m) = if i == k then some r else lookup k m

unfoldable pub delete : ℕ → List (ℕ × ChunkResult) → List (ℕ × ChunkResult)
delete k [] = []
delete k ((i, r) ∷ m) = if i == k then delete k m else (i, r) ∷ delete k m

-- The drain's variables; `dst` is what the writer has taken, and `write_failed` is `writeErr`.
pub record DrainState (W : Type 0) : Type 0 where
  pub runs : List BlockRun
  pub data_fork_len : ℕ
  pub pending : List (ℕ × ChunkResult)
  pub next_idx : ℕ
  pub write_failed : Bool
  pub dst : W

abbrev pub drain_start : {W : Type 0} → ℕ → W → DrainState W
drain_start base_offset w = record {
  runs = [];
  data_fork_len = base_offset;
  pending = [];
  next_idx = 0;
  write_failed = false;
  dst = w;
}

-- `write` is `writeBytes` on the destination; `none` is its error, behind which `dst` stands for what
-- the writes before it have left.
module _ {W : Type 0} (write : W → Bytes → Option W) where
  -- One chunk in turn: its run, and its payload if it has one.
  unfoldable pub emit : ChunkResult → DrainState W → DrainState W
  emit r d =
      let run : BlockRun = record {
        run_type = r.run_type;
        reserved = 0;
        sector_start = r.sector_start;
        sector_count = r.sec_count;
        comp_offset = d.data_fork_len;
        comp_length = length r.payload;
      } in
      let next : DrainState W = record d {
        runs = d.runs ++ (run ∷ []);
        next_idx = d.next_idx + 1;
      } in
      let written : DrainState W = elim (write d.dst r.payload) [
        | none ↦ record d { write_failed = true; next_idx = d.next_idx + 1 }
        | some w ↦ record next { data_fork_len = u64 (d.data_fork_len + length r.payload); dst = w }
      ] in
      if ltb 0 (length r.payload) then written else next

  -- The inner loop: as long as the next chunk in line is there and no write has failed.
  unfoldable pub flush : ℕ → DrainState W → DrainState W
  unfolding emit lookup delete
  flush zero d = d
  flush (suc fuel) d = elim (lookup d.next_idx d.pending) [
    | none ↦ d
    | some r ↦
        let d' = emit r (record d { pending = delete d.next_idx d.pending }) in
        let more = flush fuel d' in if d'.write_failed then d' else more
  ]

  -- One result out of the channel.
  unfoldable pub receive : ChunkResult → DrainState W → DrainState W
  unfolding flush delete
  receive r d =
      let pending = (r.idx, r) ∷ delete r.idx d.pending in
      if d.write_failed then d else flush (suc (length pending)) (record d { pending = pending })

  -- The outer loop, over the results in the order in which they come out of the channel.
  unfoldable pub drain : List ChunkResult → DrainState W → DrainState W
  unfolding receive
  drain [] d = d
  drain (r ∷ rs) d = drain rs (receive r d)
