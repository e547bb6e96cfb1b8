-- ===== src/Udif/Chunks/Drain.antt =====
-- internal/udif/writer.go, the drain of `encodeChunks`: what its loops do to a map that holds right
-- results.
use mathlib.Core.Path.{subst}
use go_dmg_writer.Base.{
  ℕ, zero, suc, ◌+◌, ◌≤◌, ◌<◌, ◌≡◌, refl, sym, ap, ◌∙◌, true, false, Bool-cases, inl, inr, ◌⊎◌,
  List, [], ◌∷◌, Option, none, some, Option-cases, ◌==◌, if◌then◌else◌, length, arith,
}
use go_dmg_writer.Base.Bytes.{Bytes}
use go_dmg_writer.Udif.Chunks.{ChunkResult, DrainState, lookup, delete, emit, flush}

pub lookup-delete :
    (i k : ℕ) (m : List (ℕ × ChunkResult))
    → lookup i (delete k m) ≡ (if k == i then none else lookup i m)
unfolding lookup delete
lookup-delete i k [] = ground arith
lookup-delete i k ((j, r) ∷ m) = ground (arith, lookup-delete i k m)

length-delete-le : (k : ℕ) (m : List (ℕ × ChunkResult)) → length (delete k m) ≤ length m
unfolding delete
length-delete-le k [] = omega arith
length-delete-le k ((j, r) ∷ m) = ground (arith, length-delete-le k m)

length-delete :
    (k : ℕ) (m : List (ℕ × ChunkResult)) {r : ChunkResult}
    → lookup k m ≡ some r
    → length (delete k m) < length m
unfolding lookup delete
length-delete k [] e = cc
length-delete k ((j, r) ∷ m) {r = s} e =
    ground (arith, length-delete k m {r = s}, length-delete-le k m)

module _ {W : Type 0} (write : W → Bytes → Option W) (res : ℕ → ChunkResult) (count : ℕ)
    (start : DrainState W) where
  -- The output of the first `n` chunks in order, up to the first write that fails.
  unfoldable pub in_order : ℕ → DrainState W
  in_order zero = start
  in_order (suc n) = let d = in_order n in if d.write_failed then d else emit write (res n) d

  -- The drain's state without its map.
  abbrev pub core : DrainState W → DrainState W
  core d = record d { pending = [] }

  emit-core : (r : ChunkResult) (d : DrainState W) → core (emit write r d) ≡ emit write r (core d)
  unfolding emit
  emit-core r d = ground arith

  emit-pending : (r : ChunkResult) (d : DrainState W) → (emit write r d).pending ≡ d.pending
  unfolding emit
  emit-pending r d = ground arith

  emit-next_idx : (r : ChunkResult) (d : DrainState W) → (emit write r d).next_idx ≡ d.next_idx + 1
  unfolding emit
  emit-next_idx r d = ground arith

  -- The state after the first `n` of the `count` chunks in line, with right results in its map.
  pub record IsSound (n : ℕ) (d : DrainState W) : Type 0 where
    pub output : core d ≡ in_order n
    pub right : (i : ℕ) (r : ChunkResult) → lookup i d.pending ≡ some r → (r ≡ res i) × (i < count)
    pub bound : n ≤ count
    pub in_line : d.write_failed ≡ false → d.next_idx ≡ n

  -- Behind the inner loop either a write has failed, or the next chunk is not there yet and the
  -- map keeps all later ones.
  abbrev pub Settled : ℕ → DrainState W → DrainState W → Type 0
  Settled m d d' =
      (d'.write_failed ≡ true)
      ⊎ ((lookup m d'.pending ≡ none)
          × ((i : ℕ) → m ≤ i → lookup i d'.pending ≡ lookup i d.pending))

  pub in_order-suc :
      (n : ℕ) (c : DrainState W)
      → in_order n ≡ c
      → c.write_failed ≡ false
      → in_order (suc n) ≡ emit write (res n) c
  unfolding in_order
  in_order-suc n c e fine = rw (e, fine)

  -- One round of the inner loop.
  step-IsSound :
      (n : ℕ) (d : DrainState W) (r : ChunkResult)
      → IsSound n d
      → d.write_failed ≡ false
      → lookup n d.pending ≡ some r
      → IsSound (suc n) (emit write r (record d { pending = delete n d.pending }))
  step-IsSound n d r s fine e = record {
    output =
        emit-core r (record d { pending = delete n d.pending })
        ∙ ap (λ (q : ChunkResult). emit write q (core d)) (s.right n r e).0
        ∙ sym (in_order-suc n (core d) (sym s.output) fine);
    right = λ i q h. s.right i q (
        still i q
          (subst (λ (m : List (ℕ × ChunkResult)). lookup i m ≡ some q) (emit-pending r _) h));
    bound = omega (arith, (s.right n r e).1);
    in_line = λ _.
        emit-next_idx r (record d { pending = delete n d.pending }) ∙ omega (arith, s.in_line fine);
  }
    where
      still :
          (i : ℕ) (q : ChunkResult)
          → lookup i (delete n d.pending) ≡ some q
          → lookup i d.pending ≡ some q
      still i q h = ground (arith, lookup-delete i n d.pending)

  flush-none :
      (fuel : ℕ) (d : DrainState W)
      → lookup d.next_idx d.pending ≡ none
      → flush write (suc fuel) d ≡ d
  unfolding flush
  flush-none fuel d e = ground arith

  -- What the round makes of the next chunk `r` in line.
  abbrev emitted : ChunkResult → DrainState W → DrainState W
  emitted r d = emit write r (record d { pending = delete d.next_idx d.pending })

  flush-stop :
      (fuel : ℕ) (d : DrainState W) (r : ChunkResult)
      → lookup d.next_idx d.pending ≡ some r
      → (emitted r d).write_failed ≡ true
      → flush write (suc fuel) d ≡ emitted r d
  unfolding flush
  flush-stop fuel d r e broken = rw (flush, e, broken)

  flush-on :
      (fuel : ℕ) (d : DrainState W) (r : ChunkResult)
      → lookup d.next_idx d.pending ≡ some r
      → (emitted r d).write_failed ≡ false
      → flush write (suc fuel) d ≡ flush write fuel (emitted r d)
  unfolding flush
  flush-on fuel d r e going = ground arith

  pub flush-IsSound :
      (fuel n : ℕ) (d : DrainState W)
      → IsSound n d
      → d.write_failed ≡ false
      → length d.pending < fuel
      → (m : ℕ) × (n ≤ m) × IsSound m (flush write fuel d) × Settled m d (flush write fuel d)
  flush-IsSound zero n d s fine enough = absurd (omega arith)
  flush-IsSound (suc fuel) n d s fine enough =
      subst
        (λ (k : ℕ).
          (m : ℕ) × (k ≤ m)
          × IsSound m (flush write (suc fuel) d)
          × Settled m d (flush write (suc fuel) d))
        (s.in_line fine)
        (elim (Option-cases (lookup d.next_idx d.pending)) [
          | inl gone ↦
              rw (flush-none fuel d gone) (d.next_idx, omega arith, sound, inr (gone, λ i _. refl))
          | inr (r, here) ↦
              let s' : IsSound (suc d.next_idx) (emitted r d) =
                step-IsSound d.next_idx d r sound fine here in
              elim (Bool-cases (emitted r d).write_failed) [
                | inl broken ↦
                    rw (flush-stop fuel d r here broken)
                      (suc d.next_idx, omega arith, s', inl broken)
                | inr going ↦
                    let (m, le, sm, settled) =
                      flush-IsSound fuel (suc d.next_idx) (emitted r d) s' going (shorter r here) in
                    rw (flush-on fuel d r here going) (m, omega arith, sm, later r m le settled)
              ]
        ])
    where
      sound : IsSound d.next_idx d
      sound = subst (λ (k : ℕ). IsSound k d) (sym (s.in_line fine)) s

      shorter :
          (r : ChunkResult)
          → lookup d.next_idx d.pending ≡ some r
          → length (emitted r d).pending < fuel
      shorter r here =
          rw (emit-pending r (record d { pending = delete d.next_idx d.pending }))
            (omega (arith, length-delete d.next_idx d.pending here))

      later :
          (r : ChunkResult) (m : ℕ)
          → suc d.next_idx ≤ m
          → Settled m (emitted r d) (flush write fuel (emitted r d))
          → Settled m d (flush write fuel (emitted r d))
      later r m le (inl broken) = inl broken
      later r m le (inr (gone, kept)) = inr (
        gone,
        λ i hi.
            kept i hi
            ∙ ap (lookup i) (emit-pending r (record d { pending = delete d.next_idx d.pending }))
            ∙ lookup-delete i d.next_idx d.pending
            ∙ other i (omega arith),
      )
        where
          other :
              (i : ℕ)
              → d.next_idx < i
              → (if d.next_idx == i then none else lookup i d.pending) ≡ lookup i d.pending
          other i lt = ground arith
