-- ===== src/Udif/Pipeline/InFlight.antt =====
-- internal/udif/writer.go, `encodeChunks`: the chunks on their way from the producer to the drain.
use mathlib.Core.List.{Memᴰ}
use mathlib.Core.List.Memᴰ
use go_dmg_writer.Base.{ℕ, ◌≡◌, refl, sym, ap, ◌∙◌, ◌⊎◌, inl, inr, List, [], ◌∷◌, ◌++◌, Option}
use mathlib.Core.Path.{subst}
use go_dmg_writer.Base.Bytes.{Bytes}
use go_dmg_writer.Udif.Chunks.{ChunkJob, ChunkResult}
use go_dmg_writer.Udif.Pipeline.{
  System, Step, send, finish_reading, give_up, begin, finish, collect,
}

module _ {W : Type 0} (write : W → Bytes → Option W) (enc : ChunkJob → ChunkResult) where
  -- `r` is what a worker makes of one of the chunks `js`.
  abbrev pub Works : ChunkResult → List ChunkJob → Type 0
  Works r js = (j : ChunkJob) × Memᴰ j js × (r ≡ enc j)

  -- `r` is on its way: to be made from a chunk somewhere, or made.
  abbrev pub Flies : ChunkResult → System W → Type 0
  Flies r s = (Works r s.unread ⊎ Works r s.jobs) ⊎ (Works r s.busy ⊎ Memᴰ r s.results)

  Works-join :
      (r : ChunkResult) (js : List ChunkJob) (j : ChunkJob) (ks : List ChunkJob)
      → (r ≡ enc j) ⊎ Works r (js ++ ks)
      → Works r (js ++ (j ∷ ks))
  Works-join r js j ks (inl e) = (j, Memᴰ.append_right js (Memᴰ.head refl), e)
  Works-join r js j ks (inr (i, m, e)) = elim (Memᴰ.append_cases js m) [
    | inl l ↦ (i, Memᴰ.append_left (j ∷ ks) l, e)
    | inr h ↦ (i, Memᴰ.append_right js (Memᴰ.tail h), e)
  ]

  Works-split :
      (r : ChunkResult) (js : List ChunkJob) (j : ChunkJob) (ks : List ChunkJob)
      → Works r (js ++ (j ∷ ks))
      → (r ≡ enc j) ⊎ Works r (js ++ ks)
  Works-split r js j ks (i, m, e) = elim (Memᴰ.append_cases js m) [
    | inl l ↦ inr (i, Memᴰ.append_left ks l, e)
    | inr h ↦ elim (Memᴰ.cases_cons h) [
      | inl same ↦ inl (e ∙ ap enc same)
      | inr t ↦ inr (i, Memᴰ.append_right js t, e)
    ]
  ]

  Works-snoc :
      (r : ChunkResult) (js : List ChunkJob) (j : ChunkJob)
      → (r ≡ enc j) ⊎ Works r js
      → Works r (js ++ (j ∷ []))
  Works-snoc r js j (inl e) = (j, Memᴰ.append_right js (Memᴰ.head refl), e)
  Works-snoc r js j (inr (i, m, e)) = (i, Memᴰ.append_left (j ∷ []) m, e)

  snoc-Works :
      (r : ChunkResult) (js : List ChunkJob) (j : ChunkJob)
      → Works r (js ++ (j ∷ []))
      → (r ≡ enc j) ⊎ Works r js
  snoc-Works r js j (i, m, e) = elim (Memᴰ.append_cases js m) [
    | inl l ↦ inr (i, l, e)
    | inr h ↦ inl (e ∙ ap enc (Memᴰ.eq_of_singleton h))
  ]

  -- What the drain takes, if the step is one of the drain.
  abbrev pub Taken :
      {workers : ℕ} {s t : System W} → Step write enc workers s t → ChunkResult → Type 0
  Taken (send j open_ e room) r = ⊥
  Taken (finish_reading open_ e) r = ⊥
  Taken (give_up j open_ u e) r = ⊥
  Taken (begin j e idle) r = ⊥
  Taken (finish js j ks e room) r = ⊥
  Taken (collect r' e) r = r ≡ r'

  pub Step-Flies :
      {workers : ℕ} {s t : System W} (st : Step write enc workers s t) (r : ChunkResult)
      → Flies r s
      → Taken st r ⊎ Flies r t
  Step-Flies (send j {js} open_ e room) r (inl (inl w)) =
      elim (Works-split r [] j js (subst (Works r) e w)) [
        | inl same ↦ inr (inl (inr (Works-snoc r _ j (inl same))))
        | inr w' ↦ inr (inl (inl w'))
      ]
  Step-Flies (send j open_ e room) r (inl (inr w)) = inr (inl (inr (Works-snoc r _ j (inr w))))
  Step-Flies (send j open_ e room) r (inr f) = inr (inr f)
  Step-Flies (finish_reading open_ e) r f = inr f
  Step-Flies (give_up j open_ u e) r f = inr f
  Step-Flies (begin j e idle) r (inl (inl w)) = inr (inl (inl w))
  Step-Flies (begin j {js} e idle) r (inl (inr w)) =
      elim (Works-split r [] j js (subst (Works r) e w)) [
        | inl same ↦ inr (inr (inl (Works-join r [] j _ (inl same))))
        | inr w' ↦ inr (inl (inr w'))
      ]
  Step-Flies (begin j e idle) r (inr (inl w)) = inr (inr (inl (Works-join r [] j _ (inr w))))
  Step-Flies (begin j e idle) r (inr (inr m)) = inr (inr (inr m))
  Step-Flies (finish js j ks e room) r (inl f) = inr (inl f)
  Step-Flies {s} (finish js j ks e room) r (inr (inl w)) =
      elim (Works-split r js j ks (subst (Works r) e w)) [
        | inl same ↦ inr (inr (inr (Memᴰ.append_right s.results (Memᴰ.head same))))
        | inr w' ↦ inr (inr (inl w'))
      ]
  Step-Flies (finish js j ks e room) r (inr (inr m)) =
      inr (inr (inr (Memᴰ.append_left (enc j ∷ []) m)))
  Step-Flies (collect r' e) r (inl f) = inr (inl f)
  Step-Flies (collect r' e) r (inr (inl w)) = inr (inr (inl w))
  Step-Flies (collect r' e) r (inr (inr m)) = elim (Memᴰ.cases_cons (subst (Memᴰ r) e m)) [
    | inl same ↦ inl same
    | inr m' ↦ inr (inr (inr m'))
  ]

  pub Step-Flies_back :
      {workers : ℕ} {s t : System W} (st : Step write enc workers s t) (r : ChunkResult)
      → Flies r t
      → Flies r s
  Step-Flies_back (send j {js} open_ e room) r (inl (inl w)) =
      inl (inl (subst (Works r) (sym e) (Works-join r [] j js (inr w))))
  Step-Flies_back {s} (send j {js} open_ e room) r (inl (inr w)) = elim (snoc-Works r s.jobs j w) [
    | inl same ↦ inl (inl (subst (Works r) (sym e) (Works-join r [] j js (inl same))))
    | inr w' ↦ inl (inr w')
  ]
  Step-Flies_back (send j open_ e room) r (inr f) = inr f
  Step-Flies_back (finish_reading open_ e) r f = f
  Step-Flies_back (give_up j open_ u e) r f = f
  Step-Flies_back (begin j e idle) r (inl (inl w)) = inl (inl w)
  Step-Flies_back (begin j {js} e idle) r (inl (inr w)) =
      inl (inr (subst (Works r) (sym e) (Works-join r [] j js (inr w))))
  Step-Flies_back {s} (begin j {js} e idle) r (inr (inl w)) = elim (Works-split r [] j s.busy w) [
    | inl same ↦ inl (inr (subst (Works r) (sym e) (Works-join r [] j js (inl same))))
    | inr w' ↦ inr (inl w')
  ]
  Step-Flies_back (begin j e idle) r (inr (inr m)) = inr (inr m)
  Step-Flies_back (finish js j ks e room) r (inl f) = inl f
  Step-Flies_back (finish js j ks e room) r (inr (inl w)) =
      inr (inl (subst (Works r) (sym e) (Works-join r js j ks (inr w))))
  Step-Flies_back {s} (finish js j ks e room) r (inr (inr m)) =
      elim (Memᴰ.append_cases s.results m) [
        | inl m' ↦ inr (inr m')
        | inr one ↦
            inr (
              inl (subst (Works r) (sym e) (Works-join r js j ks (inl (Memᴰ.eq_of_singleton one)))))
      ]
  Step-Flies_back (collect r' e) r (inl f) = inl f
  Step-Flies_back (collect r' e) r (inr (inl w)) = inr (inl w)
  Step-Flies_back (collect r' e) r (inr (inr m)) = inr (inr (subst (Memᴰ r) (sym e) (Memᴰ.tail m)))
