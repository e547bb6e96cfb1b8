-- ===== src/Udif/Pipeline/Bounds.antt =====
-- internal/udif/writer.go, `encodeChunks`: a bound on its steps, and the end of its runs.
use go_dmg_writer.Base.{
  ℕ, ◌+◌, ◌*◌, ◌≤◌, ◌<◌, ◌≡◌, refl, Bool-cases, ◌⊎◌, inl, inr, List, [], ◌∷◌, Option, if◌then◌else◌,
  length, length-append, arith,
}
use go_dmg_writer.Base.Bytes.{Bytes}
use go_dmg_writer.Udif.Chunks.{ChunkJob, ChunkResult}
use go_dmg_writer.Udif.Pipeline.{
  System, Step, send, finish_reading, give_up, begin, finish, collect, IsFinal,
}

unfoldable pub work : {W : Type 0} → System W → ℕ
work s =
    4 * length s.unread
    + 3 * length s.jobs
    + 2 * length s.busy
    + length s.results
    + (if s.closed then 0 else 1)

List-cases : {A : Type 0} (xs : List A) → (xs ≡ []) ⊎ ((x : A) × (ys : List A) × (xs ≡ x ∷ ys))
List-cases [] = inl refl
List-cases (x ∷ xs) = inr (x, xs, refl)

module _ {W : Type 0} (write : W → Bytes → Option W) (enc : ChunkJob → ChunkResult) where
  -- Every step decreases the work that is left: the chunks not yet read count four, those in
  -- the channel to the workers three, those in work two, the results one, and an open channel
  -- one.
  pub Step-work : {workers : ℕ} {s t : System W} → Step write enc workers s t → work t < work s
  unfolding work
  Step-work {s} (send j open_ e room) = rw (e, open_) (omega (arith, length-append s.jobs (j ∷ [])))
  Step-work (finish_reading open_ e) = rw open_ (omega arith)
  Step-work (give_up j open_ u e) = rw open_ (omega arith)
  Step-work {s} (begin j {js} e idle) = rw e (omega arith)
  Step-work {s} (finish js j ks e room) = rw e (
      omega (
        arith,
        length-append js (j ∷ ks),
        length-append js ks,
        length-append s.results (enc j ∷ []),
      ))
  Step-work {s} (collect r e) = rw e (omega arith)

  -- With a worker at least, a system that is not done has a step: there is no deadlock.
  pub Step-total :
      {workers : ℕ} (s : System W)
      → 1 ≤ workers
      → IsFinal s ⊎ ((t : System W) × Step write enc workers s t)
  Step-total s some_worker = elim (List-cases s.results) [
    | inr (r, rs, e) ↦ inr (_, collect r e)
    | inl no_results ↦ elim (List-cases s.busy) [
      | inr (j, js, e) ↦ inr (_, finish [] j js e (rw no_results (omega arith)))
      | inl no_busy ↦ elim (List-cases s.jobs) [
        | inr (j, js, e) ↦ inr (_, begin j e (rw no_busy (omega arith)))
        | inl no_jobs ↦ elim (Bool-cases s.closed) [
          | inl shut ↦
              inl (record { closed = shut; jobs = no_jobs; busy = no_busy; results = no_results })
          | inr open_ ↦ elim (List-cases s.unread) [
            | inl read ↦ inr (_, finish_reading open_ read)
            | inr (j, js, e) ↦ inr (_, send j open_ e (rw no_jobs (omega arith)))
          ]
        ]
      ]
    ]
  ]
