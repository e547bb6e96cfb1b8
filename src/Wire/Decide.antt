-- ===== src/Wire/Decide.antt =====
-- A test of whether fields fit their Go types, which decides it for concrete structures.
use go_dmg_writer.Base.{
  ℕ, ◌≡◌, refl, Bool, true, false, ◌&&◌, List, [], ◌∷◌, All, ltb, ltb→lt, ◌<◌, ◌==◌, ==_iff, length,
}
use go_dmg_writer.Wire.{Field, at8, at16, at32, at64, raw, array, Fits}

unfoldable pub all_below : ℕ → List ℕ → Bool
all_below n [] = true
all_below n (v ∷ vs) = ltb v n && all_below n vs

unfoldable pub fits : Field → Bool
unfolding all_below
fits (at8 o v) = ltb v 256
fits (at16 o v) = ltb v 65536
fits (at32 o v) = ltb v 4294967296
fits (at64 o v) = ltb v 18446744073709551616
fits (raw o n b) = length b == n
fits (array o n vs) = (length vs == n) && all_below 4294967296 vs

unfoldable pub all_fit : List Field → Bool
unfolding fits
all_fit [] = true
all_fit (f ∷ fs) = fits f && all_fit fs

and-both : (a b : Bool) → (a && b) ≡ true → (a ≡ true) × (b ≡ true)
and-both true b e = (refl, e)
and-both false b e = (e, absurd (let e' : false ≡ true = e in cc))

all_below-All : (n : ℕ) (vs : List ℕ) → all_below n vs ≡ true → All (λ (v : ℕ). v < n) vs
unfolding all_below
all_below-All n [] e = tt
all_below-All n (v ∷ vs) e =
    let (here, rest) = and-both (ltb v n) (all_below n vs) e in
    (ltb→lt v n here, all_below-All n vs rest)

fits-Fits : (f : Field) → fits f ≡ true → Fits f
unfolding fits
fits-Fits (at8 o v) e = ltb→lt _ _ e
fits-Fits (at16 o v) e = ltb→lt _ _ e
fits-Fits (at32 o v) e = ltb→lt _ _ e
fits-Fits (at64 o v) e = ltb→lt _ _ e
fits-Fits (raw o n b) e = (==_iff (length b) n).0 e
fits-Fits (array o n vs) e =
    let (len, small) = and-both (length vs == n) (all_below 4294967296 vs) e in
    ((==_iff (length vs) n).0 len, all_below-All 4294967296 vs small)

pub all_fit-Fits : (fs : List Field) → all_fit fs ≡ true → All Fits fs
unfolding all_fit
all_fit-Fits [] e = tt
all_fit-Fits (f ∷ fs) e =
    let (here, rest) = and-both (fits f) (all_fit fs) e in (fits-Fits f here, all_fit-Fits fs rest)
