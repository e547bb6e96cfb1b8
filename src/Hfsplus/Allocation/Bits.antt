-- ===== src/Hfsplus/Allocation/Bits.antt =====
-- The bits of one byte, as tables over every byte.
use Prim.Native.Nat.{bit_or}
use go_dmg_writer.Base.{
  ℕ, ◌+◌, ◌<◌, ◌≡◌, refl, Bool, true, ltb, ◌==◌, ==_iff, ltb→lt, if◌then◌else◌,
}
use go_dmg_writer.Base.Below.{all_below, all_below-eq_true}
use go_dmg_writer.Hfsplus.Allocation.{mask, bit_of, popcount8}

-- Setting bit `k` of a byte sets that bit and no other.
sets_one : ℕ → ℕ → ℕ → Bool
sets_one x k j = bit_of (bit_or x (mask k)) j == (if j == k then 1 else bit_of x j)

sets_one_table : all_below 8 (λ k. all_below 8 (λ j. all_below 256 (λ x. sets_one x k j))) ≡ true
unfolding all_below sets_one
sets_one_table = refl

pub bit_of-bit_or :
    (x k j : ℕ)
    → x < 256
    → k < 8
    → j < 8
    → bit_of (bit_or x (mask k)) j ≡ (if j == k then 1 else bit_of x j)
unfolding sets_one
bit_of-bit_or x k j hx hk hj =
    let each_k =
      all_below-eq_true (λ k. all_below 8 (λ j. all_below 256 (λ x. sets_one x k j))) 8
        sets_one_table k hk in
    let each_j = all_below-eq_true (λ j. all_below 256 (λ x. sets_one x k j)) 8 each_k j hj in
    (==_iff _ _).0 (all_below-eq_true (λ x. sets_one x k j) 256 each_j x hx)

stays_byte_table : all_below 8 (λ k. all_below 256 (λ x. ltb (bit_or x (mask k)) 256)) ≡ true
unfolding all_below
stays_byte_table = refl

pub bit_or-lt : (x k : ℕ) → x < 256 → k < 8 → bit_or x (mask k) < 256
bit_or-lt x k hx hk =
    let each_k =
      all_below-eq_true (λ k. all_below 256 (λ x. ltb (bit_or x (mask k)) 256)) 8 stays_byte_table k
        hk in
    ltb→lt _ _ (all_below-eq_true (λ x. ltb (bit_or x (mask k)) 256) 256 each_k x hx)

-- The sum of the eight bits of a byte.
abbrev pub bit_sum : ℕ → ℕ
bit_sum x =
    bit_of x 0
    + bit_of x 1
    + bit_of x 2
    + bit_of x 3
    + bit_of x 4
    + bit_of x 5
    + bit_of x 6
    + bit_of x 7

popcount_table : all_below 256 (λ x. popcount8 x == bit_sum x) ≡ true
unfolding all_below popcount8
popcount_table = refl

pub popcount8-eq-bit_sum : (x : ℕ) → x < 256 → popcount8 x ≡ bit_sum x
popcount8-eq-bit_sum x h =
    (==_iff _ _).0 (all_below-eq_true (λ x. popcount8 x == bit_sum x) 256 popcount_table x h)
