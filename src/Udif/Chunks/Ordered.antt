-- ===== src/Udif/Chunks/Ordered.antt =====
-- internal/udif/writer.go, the drain of `encodeChunks`: its results in any order of arrival.
use go_dmg_writer.Base.{
  ℕ, zero, suc, ◌≤◌, ◌<◌, ◌≡◌, refl, sym, ap, ◌∙◌, true, false, Bool-cases, inl, inr, ◌⊎◌, List, [],
  ◌∷◌, map, Option, none, some, ◌==◌, if◌then◌else◌, length, All, arith, dec_lt, ℕ_discrete,
}
use mathlib.Core.List.{Memᴰ}
use mathlib.Core.Option.{some-injective}
use go_dmg_writer.Base.Bytes.{Bytes}
use go_dmg_writer.Udif.Chunks.{
  ChunkResult, DrainState, lookup, delete, flush, receive, drain, drain_start,
}
use go_dmg_writer.Udif.Chunks.Drain.{in_order, core, IsSound, Settled, flush-IsSound, lookup-delete}

abbrev pub Has : ℕ → List (ℕ × ChunkResult) → Type 0
Has i m = (r : ChunkResult) × (lookup i m ≡ some r)

module _ {W : Type 0} (write : W → Bytes → Option W) (res : ℕ → ChunkResult) (count : ℕ)
    (start : DrainState W) where
  -- The state of the drain when the results that `arrived` names have arrived.
  pub record IsCaughtUp (arrived : ℕ → Type 0) (d : DrainState W) : Type 0 where
    pub next : ℕ
    pub sound : IsSound write res count start next d
    pub settled :
        (d.write_failed ≡ true)
        ⊎ ((lookup next d.pending ≡ none) × ((i : ℕ) → arrived i → (i < next) ⊎ Has i d.pending))

  abbrev queued : ℕ → DrainState W → DrainState W
  queued k d = record d { pending = ((res k).idx, res k) ∷ delete (res k).idx d.pending }

  lookup-queued :
      (i k : ℕ) (d : DrainState W)
      → (res k).idx ≡ k
      → lookup i (queued k d).pending ≡ (if k == i then some (res k) else lookup i d.pending)
  unfolding lookup
  lookup-queued i k d named = ground (arith, lookup-delete i k d.pending)

  receive-fine :
      (k : ℕ) (d : DrainState W)
      → d.write_failed ≡ false
      → receive write (res k) d ≡ flush write (suc (length (queued k d).pending)) (queued k d)
  unfolding receive
  receive-fine k d fine = ground arith

  pub receive-failed :
      (k : ℕ) (d : DrainState W) → d.write_failed ≡ true → receive write (res k) d ≡ d
  unfolding receive
  receive-failed k d broken = ground arith

  pub receive-IsCaughtUp :
      (arrived : ℕ → Type 0) (k : ℕ) (d : DrainState W)
      → (res k).idx ≡ k
      → k < count
      → IsCaughtUp arrived d
      → IsCaughtUp (λ i. arrived i ⊎ (i ≡ k)) (receive write (res k) d)
  receive-IsCaughtUp arrived k d named small c = elim (Bool-cases d.write_failed) [
    | inl broken ↦
        rw (receive-failed k d broken)
          (record { next = c.next; sound = c.sound; settled = inl broken })
    | inr fine ↦
        let (m, le, sound, settled) =
          flush-IsSound write res count start (suc (length (queued k d).pending)) c.next
            (queued k d) (queued-IsSound fine) fine (omega arith) in
        rw (receive-fine k d fine) (record {
          next = m;
          sound = sound;
          settled =
              on m (flush write (suc (length (queued k d).pending)) (queued k d)) le fine settled;
        })
  ]
    where
      right :
          (i : ℕ) (r : ChunkResult)
          → (if k == i then some (res k) else lookup i d.pending) ≡ some r
          → (r ≡ res i) × (i < count)
      right i r h = elim (ℕ_discrete k i) [
        | yes e ↦
            let h' : some (res k) ≡ some r = ground (arith, h) in
            (sym (some-injective _ _ h') ∙ ap res e, omega arith)
        | no ne ↦ let h' : lookup i d.pending ≡ some r = ground (arith, h) in c.sound.right i r h'
      ]

      queued-IsSound : d.write_failed ≡ false → IsSound write res count start c.next (queued k d)
      queued-IsSound fine = record {
        output = c.sound.output;
        right = λ i r h. right i r (sym (lookup-queued i k d named) ∙ h);
        bound = c.sound.bound;
        in_line = c.sound.in_line;
      }

      -- Chunk `k` and those that waited before wait in the new map.
      waits : (i : ℕ) → (i ≡ k) ⊎ Has i d.pending → Has i (queued k d).pending
      waits i old = elim (ℕ_discrete k i) [
        | yes e ↦ (res k, lookup-queued i k d named ∙ ground arith)
        | no ne ↦ elim old [
          | inl e ↦ absurd (ne (sym e))
          | inr (r, h) ↦ (r, lookup-queued i k d named ∙ ground (arith, h))
        ]
      ]

      was :
          d.write_failed ≡ false
          → (i : ℕ) → arrived i ⊎ (i ≡ k)
          → (i < c.next) ⊎ ((i ≡ k) ⊎ Has i d.pending)
      was fine i (inr e) = inr (inl e)
      was fine i (inl a) = elim c.settled [
        | inl broken ↦ cc
        | inr (gone, all) ↦ elim (all i a) [ inl lt ↦ inl lt | inr has ↦ inr (inr has) ]
      ]

      on :
          (m : ℕ) (d' : DrainState W)
          → c.next ≤ m
          → d.write_failed ≡ false
          → Settled write res count start m (queued k d) d'
          → (d'.write_failed ≡ true)
            ⊎ ((lookup m d'.pending ≡ none)
                × ((i : ℕ) → arrived i ⊎ (i ≡ k) → (i < m) ⊎ Has i d'.pending))
      on m d' le fine (inl broken) = inl broken
      on m d' le fine (inr (gone, kept)) = inr (gone, there)
        where
          there : (i : ℕ) → arrived i ⊎ (i ≡ k) → (i < m) ⊎ Has i d'.pending
          there i a = elim (dec_lt i m) [
            | yes lt ↦ inl lt
            | no nlt ↦ elim (was fine i a) [
              | inl lt ↦ absurd (omega arith)
              | inr old ↦ let (r, h) = waits i old in inr (r, kept i (omega arith) ∙ h)
            ]
          ]

  pub weaken :
      (P Q : ℕ → Type 0) (d : DrainState W)
      → ((i : ℕ) → Q i → P i)
      → IsCaughtUp P d
      → IsCaughtUp Q d
  weaken P Q d f c = record {
    next = c.next;
    sound = c.sound;
    settled = elim c.settled [
      | inl broken ↦ inl broken
      | inr (gone, all) ↦ inr (gone, λ i q. all i (f i q))
    ];
  }

  drain-IsCaughtUp :
      (arrived : ℕ → Type 0) (ks : List ℕ) (d : DrainState W)
      → ((k : ℕ) → (res k).idx ≡ k)
      → All (λ k. k < count) ks
      → IsCaughtUp arrived d
      → IsCaughtUp (λ i. arrived i ⊎ Memᴰ i ks) (drain write (map res ks) d)
  unfolding drain
  drain-IsCaughtUp arrived [] d named small c =
      weaken arrived (λ i. arrived i ⊎ Memᴰ i []) d
        (λ i m. elim m [ inl a ↦ a | inr h ↦ elim h [ ] ]) c
  drain-IsCaughtUp arrived (k ∷ ks) d named (lt, small) c =
      weaken (λ i. (arrived i ⊎ (i ≡ k)) ⊎ Memᴰ i ks) (λ i. arrived i ⊎ Memᴰ i (k ∷ ks)) _ one
        (drain-IsCaughtUp (λ i. arrived i ⊎ (i ≡ k)) ks (receive write (res k) d) named small
          (receive-IsCaughtUp arrived k d (named k) lt c))
    where
      one : (i : ℕ) → arrived i ⊎ Memᴰ i (k ∷ ks) → (arrived i ⊎ (i ≡ k)) ⊎ Memᴰ i ks
      one i (inl a) = inl (inl a)
      one i (inr (Memᴰ.head e)) = inl (inr e)
      one i (inr (Memᴰ.tail h)) = inr h

  in_order-stuck :
      (m k : ℕ)
      → (in_order write res count start m).write_failed ≡ true
      → m ≤ k
      → in_order write res count start k ≡ in_order write res count start m
  unfolding in_order
  in_order-stuck m zero broken le =
      let e : 0 ≡ m = omega arith in ap (in_order write res count start) e
  in_order-stuck m (suc k) broken le = elim (ℕ_discrete m (suc k)) [
    | yes e ↦ ap (in_order write res count start) (sym e)
    | no ne ↦ rw (in_order-stuck m k broken (omega arith), broken)
  ]

  -- What the drain has done when every chunk has arrived.
  pub complete :
      (d : DrainState W)
      → IsCaughtUp (λ i. i < count) d
      → core write res count start d ≡ in_order write res count start count
  complete d c = elim c.settled [
    | inl broken ↦
        let stuck : (in_order write res count start c.next).write_failed ≡ true =
          ap (λ (q : DrainState W). q.write_failed) (sym c.sound.output) ∙ broken in
        c.sound.output ∙ sym (in_order-stuck c.next count stuck c.sound.bound)
    | inr (gone, all) ↦ elim (dec_lt c.next count) [
      | no ge ↦ c.sound.output ∙ ap (in_order write res count start) (omega (arith, c.sound.bound))
      | yes lt ↦ elim (all c.next lt) [ inl lt' ↦ absurd (omega arith) | inr (r, h) ↦ cc ]
    ]
  ]

pub start-IsCaughtUp :
    {W : Type 0} (write : W → Bytes → Option W) (base_offset : ℕ) (w : W) (res : ℕ → ChunkResult)
    (count : ℕ)
    → IsCaughtUp write res count (drain_start base_offset w) (λ i. ⊥) (drain_start base_offset w)
unfolding lookup in_order
start-IsCaughtUp write base_offset w res count = record {
  next = 0;
  sound = record { output = refl; right = λ i r h. cc; bound = omega arith; in_line = λ _. refl };
  settled = inr (refl, λ i a. absurd a);
}

-- If the results of the first `count` chunks, and of no other, arrive in any order, the drain
-- ends with the runs, the fork length and the output of those chunks one after the other, up
-- to a failed write.
pub drain-in_order :
    {W : Type 0} (write : W → Bytes → Option W) (base_offset : ℕ) (w : W) (res : ℕ → ChunkResult)
    (count : ℕ) (order : List ℕ)
    → ((k : ℕ) → (res k).idx ≡ k)
    → All (λ k. k < count) order
    → ((k : ℕ) → k < count → Memᴰ k order)
    → core write res count
        (drain_start base_offset w)
        (drain write (map res order) (drain_start base_offset w))
      ≡ in_order write res count (drain_start base_offset w) count
drain-in_order write base_offset w res count order named small all =
    let start = drain_start base_offset w in
    complete write res count start (drain write (map res order) start) (
      weaken write res count start (λ i. ⊥ ⊎ Memᴰ i order) (λ i. i < count) _
        (λ i lt. inr (all i lt))
        (drain-IsCaughtUp write res count start (λ i. ⊥) order start named small
          (start-IsCaughtUp write base_offset w res count)))
