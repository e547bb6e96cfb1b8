-- ===== src/Udif/Chunks/Tests.antt =====
-- Two results that arrive in the wrong order, and small sources.
use mathlib.Core.List.{Memᴰ}
use go_dmg_writer.Base.{
  ℕ, zero, suc, ◌<◌, ◌≡◌, refl, ◌↔◌, true, false, [], ◌∷◌, ◌++◌, map, length, arith,
}
use go_dmg_writer.Udif.Chunks.{
  ChunkResult, drain, drain_start, read_chunks, is_all_zero, stride_loop, bytes_equal, tail_is_zero,
  encode_chunk, compression_zlib, block_raw,
}
use go_dmg_writer.Udif.Chunks.Drain.{core, in_order}
use go_dmg_writer.Udif.Chunks.Ordered.{drain-in_order}
use go_dmg_writer.Udif.Chunks.Zero.{zeros, is_all_zero_iff}
use go_dmg_writer.Udif.Chunks.Read.{IsRead, read_chunks-IsRead, read_chunks_short}
use go_dmg_writer.Udif.Chunks.Decode.{append}

abbrev result_of : ℕ → ChunkResult
result_of k = record {
  idx = k;
  run_type = block_raw;
  sector_start = k;
  sec_count = 1;
  payload = k ∷ k ∷ [];
}

both : (k : ℕ) → k < 2 → Memᴰ k (1 ∷ 0 ∷ [])
both zero lt = Memᴰ.tail (Memᴰ.head refl)
both (suc zero) lt = Memᴰ.head refl
both (suc (suc k)) lt = absurd (omega arith)

drain-in_order_example :
    core append result_of 2
      (drain_start 9 [])
      (drain append (map result_of (1 ∷ 0 ∷ [])) (drain_start 9 []))
    ≡ in_order append result_of 2 (drain_start 9 []) 2
drain-in_order_example =
    drain-in_order append 9 [] result_of 2 (1 ∷ 0 ∷ []) (λ k. refl) (omega arith, (omega arith, tt))
      both

is_all_zero_iff_example :
    (is_all_zero (zeros 70 ++ (1 ∷ [])) ≡ true)
    ↔ (zeros 70 ++ (1 ∷ []) ≡ zeros (length (zeros 70 ++ (1 ∷ []))))
is_all_zero_iff_example = is_all_zero_iff (zeros 70 ++ (1 ∷ []))

not_all_zero : is_all_zero (zeros 70 ++ (1 ∷ [])) ≡ false
unfolding is_all_zero stride_loop bytes_equal tail_is_zero
not_all_zero = refl

read_chunks-IsRead_example :
    IsRead 512 (omega arith) 0 1024 (zeros 1100) (read_chunks 1024 512 0 0 1024 (zeros 1100))
read_chunks-IsRead_example =
    read_chunks-IsRead 512 (omega arith) 1024 0 0 1024 (zeros 1100) refl refl (omega arith)
      (omega arith) (omega arith)

read_chunks_short_example : (read_chunks 1024 512 0 0 1024 (zeros 1000)).read_failed ≡ true
read_chunks_short_example =
    read_chunks_short 512 (omega arith) 1024 0 0 1024 (zeros 1000) (omega arith) (omega arith)

-- A chunk that does not get smaller is stored as it is.
stored :
    (encode_chunk
      (λ p. 1 ∷ p)
      compression_zlib
      (record { idx = 0; sector_start = 0; is_zero = false; buf = 5 ∷ [] })).run_type
    ≡ block_raw
unfolding encode_chunk
stored = refl
