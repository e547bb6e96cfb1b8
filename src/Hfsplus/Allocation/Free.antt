-- ===== src/Hfsplus/Allocation/Free.antt =====
-- `FreeBlocks` counts the blocks that are not marked.
use go_dmg_writer.Base.{
  ℕ, zero, suc, ◌+◌, ◌-◌, ◌*◌, ◌/◌, ◌%◌, ◌^◌, ◌≤◌, ◌<◌, ◌≡◌, refl, ◌∙◌, ap, Bool, false, [], ◌∷◌,
  ◌==◌, if◌then◌else◌, length, get_or, arith,
}
use mathlib.Core.Bool.{not}
use go_dmg_writer.Base.Bytes.{Bytes, u32}
use go_dmg_writer.Hfsplus.Allocation.{
  AllocationBitmap, count_used, free_blocks, used, bit_of, popcount8,
}
use go_dmg_writer.Hfsplus.Allocation.Bits.{popcount8-eq-bit_sum, bit_sum}
use go_dmg_writer.Hfsplus.Allocation.Mark.{IsBitmap}

-- The blocks below `n` that satisfy a test.
unfoldable pub count_below : ℕ → (ℕ → Bool) → ℕ
count_below zero p = 0
count_below (suc n) p = count_below n p + (if p n then 1 else 0)

pub count_below-le : (n : ℕ) (p : ℕ → Bool) → count_below n p ≤ n
unfolding count_below
count_below-le zero p = omega arith
count_below-le (suc n) p = ground (arith, count_below-le n p)

pub count_below_ext :
    (n : ℕ) (p q : ℕ → Bool) → ((b : ℕ) → b < n → p b ≡ q b) → count_below n p ≡ count_below n q
unfolding count_below
count_below_ext zero p q h = refl
count_below_ext (suc n) p q h =
    ground (arith, h n, count_below_ext n p q (λ b hb. h b (omega arith)))

-- The first eight tests, and the rest moved down by eight.
count_below_eight :
    (n : ℕ) (p : ℕ → Bool)
    → count_below (n + 8) p ≡ count_below 8 p + count_below n (λ b. p (b + 8))
unfolding count_below
count_below_eight zero p = omega arith
count_below_eight (suc n) p =
    let next : suc n + 8 ≡ suc (n + 8) = omega arith in
    rw next (omega (arith, count_below_eight n p))

bit_in : Bytes → ℕ → Bool
bit_in xs b = bit_of (get_or xs (b / 8) 0) (b % 8) == 1

bit_in-cons : (x : ℕ) (xs : Bytes) (b : ℕ) → bit_in (x ∷ xs) (b + 8) ≡ bit_in xs b
unfolding bit_in
bit_in-cons x xs b =
    let block : (b + 8) / 8 ≡ suc (b / 8) = omega arith in
    let bit : (b + 8) % 8 ≡ b % 8 = omega arith in rw (block, bit)

bit-test : (n : ℕ) → n < 2 → (if n == 1 then 1 else 0) ≡ n
bit-test n h = ground arith

first_byte : (x : ℕ) (xs : Bytes) → count_below 8 (bit_in (x ∷ xs)) ≡ bit_sum x
unfolding count_below bit_in
first_byte x xs = omega (
  arith,
  bit-test (bit_of x 0) (omega arith),
  bit-test (bit_of x 1) (omega arith),
  bit-test (bit_of x 2) (omega arith),
  bit-test (bit_of x 3) (omega arith),
  bit-test (bit_of x 4) (omega arith),
  bit-test (bit_of x 5) (omega arith),
  bit-test (bit_of x 6) (omega arith),
  bit-test (bit_of x 7) (omega arith),
)

-- The bits of all bytes of the slice; the uint32 sum does not wrap.
count_used_lem :
    (acc : ℕ) (xs : Bytes)
    → ((i : ℕ) → get_or xs i 0 < 256)
    → acc + 8 * length xs < 2 ^ 32
    → count_used acc xs ≡ acc + count_below (8 * length xs) (bit_in xs)
unfolding count_used
count_used_lem acc [] h small = unfold count_below in omega arith
count_used_lem acc (x ∷ xs) h small =
    let pop : popcount8 x ≡ bit_sum x = popcount8-eq-bit_sum x (h 0) in
    let few : bit_sum x ≤ 8 = omega arith in
    let fits : u32 (acc + popcount8 x) ≡ acc + bit_sum x = omega arith in
    let len : 8 * suc (length xs) ≡ 8 * length xs + 8 = omega arith in
    rw (fits, len)
      (omega (
        arith,
        count_used_lem (acc + bit_sum x) xs (λ i. h (suc i)) (omega arith),
        count_below_eight (8 * length xs) (bit_in (x ∷ xs)),
        count_below_ext (8 * length xs) (λ b. bit_in (x ∷ xs) (b + 8)) (bit_in xs)
            (λ b _. bit_in-cons x xs b),
        first_byte x xs,
      ))

count_below-tail :
    (k n : ℕ) (p : ℕ → Bool)
    → ((b : ℕ) → n ≤ b → p b ≡ false)
    → count_below (n + k) p ≡ count_below n p
unfolding count_below
count_below-tail zero n p h = ap (λ (m : ℕ). count_below m p) (omega arith)
count_below-tail (suc k) n p h =
    let next : n + suc k ≡ suc (n + k) = omega arith in
    rw next (ground (arith, h (n + k), count_below-tail k n p h))

count_below-not : (n : ℕ) (p : ℕ → Bool) → count_below n p + count_below n (λ b. not (p b)) ≡ n
unfolding count_below
count_below-not zero p = omega arith
count_below-not (suc n) p = ground (arith, count_below-not n p)

-- On a well-formed bitmap of at most 2^32 - 8 blocks, `FreeBlocks` is the number of blocks
-- that are not marked.
pub free_blocks_lem :
    (a : AllocationBitmap)
    → IsBitmap a
    → a.bits + 7 < 2 ^ 32
    → free_blocks a ≡ count_below a.bits (λ b. not (used a b))
unfolding free_blocks
free_blocks_lem a v small =
    let split : 8 * length a.bytes ≡ a.bits + (8 * length a.bytes - a.bits) =
      omega (arith, v.size) in
    let bits : count_below (8 * length a.bytes) (bit_in a.bytes)
        ≡ count_below (8 * length a.bytes) (used a) =
      unfold bit_in used in refl in
    let total : count_below (8 * length a.bytes) (used a) ≡ count_below a.bits (used a) =
      ap (λ (m : ℕ). count_below m (used a)) split
      ∙ count_below-tail (8 * length a.bytes - a.bits) a.bits (used a) v.tail_clear in
    omega (
      arith,
      v.size,
      count_used_lem 0 a.bytes v.in_range (omega (arith, v.size)),
      bits,
      total,
      count_below-not a.bits (used a),
    )
