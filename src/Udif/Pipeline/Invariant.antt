-- ===== src/Udif/Pipeline/Invariant.antt =====
-- internal/udif/writer.go, `encodeChunks`: what holds between the channels and the drain.
use mathlib.Core.List.{Memᴰ}
use mathlib.Core.List.Memᴰ
use mathlib.Core.Path.{subst}
use go_dmg_writer.Base.{
  ℕ, ◌<◌, ◌≡◌, refl, sym, ap, ◌∙◌, true, false, Bool-cases, ◌⊎◌, inl, inr, List, [], ◌∷◌, Option,
}
use go_dmg_writer.Base.Bytes.{Bytes}
use go_dmg_writer.Udif.Chunks.{ChunkJob, ChunkResult, DrainState, receive}
use go_dmg_writer.Udif.Chunks.Drain.{core, in_order}
use go_dmg_writer.Udif.Chunks.Ordered.{
  IsCaughtUp, receive-IsCaughtUp, receive-failed, weaken, complete,
}
use go_dmg_writer.Udif.Pipeline.{
  System, Step, send, finish_reading, give_up, begin, finish, collect, IsFinal,
}
use go_dmg_writer.Udif.Pipeline.InFlight.{Works, Flies, Taken, Step-Flies, Step-Flies_back}

module _ {W : Type 0} (write : W → Bytes → Option W) (enc : ChunkJob → ChunkResult)
    (res : ℕ → ChunkResult) (count : ℕ) (start : DrainState W)
    (named : (k : ℕ) → k < count → (res k).idx ≡ k) where
  -- `arrived` are the chunks whose results the drain has had.
  pub record IsFlowing (s : System W) : Type 1 where
    pub arrived : ℕ → Type 0
    pub caught_up : IsCaughtUp write res count start arrived s.drained
    pub right : (r : ChunkResult) → Flies write enc r s → (r ≡ res r.idx) × (r.idx < count)
    pub covered : (i : ℕ) → i < count → arrived i ⊎ Flies write enc (res i) s
    pub stopped : s.closed ≡ true → (s.unread ≡ []) ⊎ (s.drained.write_failed ≡ true)

  carried :
      {workers : ℕ} {s t : System W} (st : Step write enc workers s t) (f : IsFlowing s) (i : ℕ)
      → i < count
      → f.arrived i ⊎ (Taken write enc st (res i) ⊎ Flies write enc (res i) t)
  carried st f i lt = elim (f.covered i lt) [
    | inl a ↦ inl a
    | inr h ↦ inr (Step-Flies write enc st (res i) h)
  ]

  -- A step that is not the drain's.
  on_the_way :
      {workers : ℕ} {s t : System W} (st : Step write enc workers s t) (f : IsFlowing s)
      → ((r : ChunkResult) → ¬ Taken write enc st r)
      → s.drained ≡ t.drained
      → (t.closed ≡ true → (t.unread ≡ []) ⊎ (t.drained.write_failed ≡ true))
      → IsFlowing t
  on_the_way st f not_taken same stopped = record {
    arrived = f.arrived;
    caught_up = subst (IsCaughtUp write res count start f.arrived) same f.caught_up;
    right = λ r h. f.right r (Step-Flies_back write enc st r h);
    covered = λ i lt. elim (carried st f i lt) [
      | inl a ↦ inl a
      | inr h ↦ elim h [ inl tk ↦ absurd (not_taken (res i) tk) | inr h' ↦ inr h' ]
    ];
    stopped = stopped;
  }

  still_failed :
      (r : ChunkResult) (d : DrainState W)
      → d.write_failed ≡ true
      → (receive write r d).write_failed ≡ true
  still_failed r d broken =
      ap (λ (q : DrainState W). q.write_failed)
        (receive-failed write (λ k. r) count start 0 d broken)
      ∙ broken

  collected :
      (workers : ℕ) {s : System W} (r : ChunkResult) (rs : List ChunkResult)
      (e : s.results ≡ r ∷ rs)
      → IsFlowing s
      → IsFlowing (record s { results = rs; drained = receive write r s.drained })
  collected workers {s} r rs e f = record {
    arrived = λ i. f.arrived i ⊎ (i ≡ r.idx);
    caught_up =
        subst
          (λ (q : ChunkResult).
            IsCaughtUp write res count start (λ i. f.arrived i ⊎ (i ≡ r.idx))
              (receive write q s.drained))
          (sym ours.0)
          (receive-IsCaughtUp write res count start f.arrived r.idx s.drained (named r.idx ours.1)
            ours.1 f.caught_up);
    right = λ q h. f.right q (Step-Flies_back write enc st q h);
    covered = λ i lt. elim (carried st f i lt) [
      | inl a ↦ inl (inl a)
      | inr h ↦ elim h [
        | inl tk ↦ inl (inr (sym (named i lt) ∙ ap (λ (q : ChunkResult). q.idx) tk))
        | inr h' ↦ inr h'
      ]
    ];
    stopped = λ shut. elim (f.stopped shut) [
      | inl read ↦ inl read
      | inr broken ↦ inr (still_failed r s.drained broken)
    ];
  }
    where
      st : Step write enc workers s (record s { results = rs; drained = receive write r s.drained })
      st = collect r e

      ours : (r ≡ res r.idx) × (r.idx < count)
      ours = f.right r (inr (inr (subst (Memᴰ r) (sym e) (Memᴰ.head refl))))

  pub Step-IsFlowing :
      {workers : ℕ} {s t : System W} → Step write enc workers s t → IsFlowing s → IsFlowing t
  Step-IsFlowing (send j open_ e room) f =
      on_the_way (send j open_ e room) f (λ r h. h) refl (λ shut. cc)
  Step-IsFlowing {workers} (finish_reading open_ e) f =
      on_the_way {workers = workers} (finish_reading open_ e) f (λ r h. h) refl (λ shut. inl e)
  Step-IsFlowing {workers} (give_up j open_ u e) f =
      on_the_way {workers = workers} (give_up j open_ u e) f (λ r h. h) refl (λ shut. inr e)
  Step-IsFlowing (begin j e idle) f = on_the_way (begin j e idle) f (λ r h. h) refl f.stopped
  Step-IsFlowing (finish js j ks e room) f =
      on_the_way (finish js j ks e room) f (λ r h. h) refl f.stopped
  Step-IsFlowing {workers} (collect r {rs} e) f = collected workers r rs e f

  pub final :
      (s : System W)
      → IsFlowing s
      → IsFinal s
      → core write res count start s.drained ≡ in_order write res count start count
  final s f end = elim (Bool-cases s.drained.write_failed) [
    | inl broken ↦
        complete write res count start s.drained
          (record { next = f.caught_up.next; sound = f.caught_up.sound; settled = inl broken })
    | inr fine ↦ complete write res count start s.drained (
        weaken write res count start f.arrived (λ i. i < count) s.drained (λ i lt. all fine i lt)
          f.caught_up)
  ]
    where
      all : s.drained.write_failed ≡ false → (i : ℕ) → i < count → f.arrived i
      all fine i lt = elim (f.covered i lt) [
        | inl a ↦ a
        | inr (inl (inl w)) ↦ elim (f.stopped end.closed) [
          | inl read ↦ nothing (subst (Works write enc (res i)) read w)
          | inr broken ↦ cc
        ]
        | inr (inl (inr w)) ↦ nothing (subst (Works write enc (res i)) end.jobs w)
        | inr (inr (inl w)) ↦ nothing (subst (Works write enc (res i)) end.busy w)
        | inr (inr (inr m)) ↦ absurd (Memᴰ.not-nil (subst (Memᴰ (res i)) end.results m))
      ]
        where
          nothing : Works write enc (res i) [] → f.arrived i
          nothing (j, m, e) = absurd (Memᴰ.not-nil m)
