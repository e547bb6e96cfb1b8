-- ===== src/Base/Below.antt =====
-- Properties of the numbers below a bound, by a test of each of them.
use go_dmg_writer.Base.{ℕ, zero, suc, ◌<◌, ◌≡◌, Bool, true, false, dec_lt, if◌then◌else◌, arith}

-- A test on every number under `n`.
unfoldable pub all_below : ℕ → (ℕ → Bool) → Bool
all_below zero test = true
all_below (suc n) test = if test n then all_below n test else false

pub all_below-eq_true :
    (test : ℕ → Bool) (n : ℕ) → all_below n test ≡ true → (b : ℕ) → b < n → test b ≡ true
unfolding all_below
all_below-eq_true test zero _ b lt = absurd (omega arith)
all_below-eq_true test (suc n) all b lt = elim (dec_lt b n) [
  | yes under ↦
      let rest : all_below n test ≡ true = ground arith in all_below-eq_true test n rest b under
  | no last ↦ let same : b ≡ n = omega arith in rw same (ground arith)
]
