-- ===== src/Hfsplus/Allocation/Mark.antt =====
-- `MarkUsed`: which blocks it marks, and that it stays inside the slice.
use Prim.Native.Nat.{bit_or}
use go_dmg_writer.Base.{
  ℕ, zero, suc, ◌+◌, ◌/◌, ◌%◌, ◌^◌, ◌≤◌, ◌<◌, ◌≡◌, refl, sym, ◌∙◌, inl, inr, false, ◌&&◌, ◌||◌,
  some, [], ◌∷◌, ltb, leb, lt→ltb, ◌==◌, Bool-cases, length, get_or, set, replicate, length-set,
  length-replicate, get_or-set_self, get_or-set_ne, arith, ℕ_discrete,
}
use go_dmg_writer.Base.Bytes.{Bytes, u32}
use go_dmg_writer.Hfsplus.Allocation.{
  AllocationBitmap, new_allocation_bitmap, set_bit, mark_loop, mark_used, used, bit_of, mask,
}
use go_dmg_writer.Hfsplus.Allocation.Bits.{bit_of-bit_or, bit_or-lt}

-- The slice has a byte for each eight blocks, all bytes are in range, and the bits past the last
-- block are clear.
pub record IsBitmap (a : AllocationBitmap) : Type 0 where
  pub size : length a.bytes ≡ (a.bits + 7) / 8
  pub in_range : (i : ℕ) → get_or a.bytes i 0 < 256
  pub tail_clear : (b : ℕ) → a.bits ≤ b → used a b ≡ false

get_or-replicate_zero : (n i : ℕ) → get_or {A = ℕ} (replicate n 0) i 0 ≡ 0
get_or-replicate_zero zero i = refl
get_or-replicate_zero (suc n) zero = refl
get_or-replicate_zero (suc n) (suc i) = get_or-replicate_zero n i

pub new_allocation_bitmap-used : (n b : ℕ) → used (new_allocation_bitmap n) b ≡ false
unfolding new_allocation_bitmap used
new_allocation_bitmap-used n b =
    ground (arith, get_or-replicate_zero (u32 (n + 7) / 8) (b / 8), zero_div (b % 8))
  where
    zero_div : (k : ℕ) → bit_of 0 k ≡ 0
    zero_div k = omega arith

pub new_allocation_bitmap-IsBitmap : (n : ℕ) → n + 7 < 2 ^ 32 → IsBitmap (new_allocation_bitmap n)
new_allocation_bitmap-IsBitmap n h = record {
  size =
      unfold new_allocation_bitmap in
      omega (arith, length-replicate {0} {A = ℕ} (u32 (n + 7) / 8) 0);
  in_range =
      λ i. unfold new_allocation_bitmap in omega (arith, get_or-replicate_zero (u32 (n + 7) / 8) i);
  tail_clear = λ b _. new_allocation_bitmap-used n b;
}

-- What a write does to the bit of block `c`.
bit-set :
    (xs : Bytes) (b c : ℕ)
    → get_or xs (b / 8) 0 < 256
    → b / 8 < length xs
    → (bit_of
          (get_or (set xs (b / 8) (bit_or (get_or xs (b / 8) 0) (mask (b % 8)))) (c / 8) 0)
          (c % 8)
        == 1)
      ≡ ((bit_of (get_or xs (c / 8) 0) (c % 8) == 1) || (c == b))
bit-set xs b c byte fits = elim (ℕ_discrete (c / 8) (b / 8)) [
  | yes e ↦
      rw (e, get_or-set_self xs (b / 8) (bit_or (get_or xs (b / 8) 0) (mask (b % 8))) 0 fits)
        (ground (
          arith,
          bit_of-bit_or (get_or xs (b / 8) 0) (b % 8) (c % 8) byte (omega arith) (omega arith),
        ))
  | no e ↦
      rw
        (get_or-set_ne xs (b / 8) (c / 8) (bit_or (get_or xs (b / 8) 0) (mask (b % 8))) 0
          (λ p. e (sym p)))
        (ground arith)
]

set_bit-IsBitmap_in_range :
    (xs : Bytes) (k v : ℕ)
    → v < 256
    → ((i : ℕ) → get_or xs i 0 < 256)
    → (i : ℕ) → get_or (set xs k v) i 0 < 256
set_bit-IsBitmap_in_range [] k v hv h i = h i
set_bit-IsBitmap_in_range (x ∷ xs) zero v hv h zero = hv
set_bit-IsBitmap_in_range (x ∷ xs) zero v hv h (suc i) = h (suc i)
set_bit-IsBitmap_in_range (x ∷ xs) (suc k) v hv h zero = h 0
set_bit-IsBitmap_in_range (x ∷ xs) (suc k) v hv h (suc i) =
    set_bit-IsBitmap_in_range xs k v hv (λ j. h (suc j)) i

-- One write, at a block that the bitmap covers.
set_bit_lem :
    (a : AllocationBitmap) (b : ℕ)
    → IsBitmap a
    → b < a.bits
    → (a' : AllocationBitmap) × (set_bit a b ≡ some a')
      × IsBitmap a'
      × (a'.bits ≡ a.bits)
      × ((c : ℕ) → used a' c ≡ (used a c || (c == b)))
set_bit_lem a b v h =
    let fits : b / 8 < length a.bytes = omega (arith, v.size) in
    let byte = v.in_range (b / 8) in
    let next : AllocationBitmap = record a {
      bytes = set a.bytes (b / 8) (bit_or (get_or a.bytes (b / 8) 0) (mask (b % 8)));
    } in
    let marks : (c : ℕ) → used next c ≡ (used a c || (c == b)) =
      λ c. unfold used in bit-set a.bytes b c byte fits in
    (
      next,
      (unfold set_bit in rw (lt→ltb _ _ fits)),
      record {
        size = omega (
          arith,
          v.size,
          length-set a.bytes (b / 8) (bit_or (get_or a.bytes (b / 8) 0) (mask (b % 8))),
        );
        in_range =
            set_bit-IsBitmap_in_range a.bytes (b / 8) _ (bit_or-lt _ (b % 8) byte (omega arith))
              v.in_range;
        tail_clear = λ c hc. ground (arith, marks c, v.tail_clear c hc);
      },
      refl,
      marks,
    )

mark_loop-suc :
    (left start i : ℕ) (a next : AllocationBitmap)
    → start + i < 2 ^ 32
    → start + i < a.bits
    → set_bit a (start + i) ≡ some next
    → mark_loop (suc left) start i a ≡ mark_loop left start (i + 1) next
unfolding mark_loop
mark_loop-suc left start i a next h inside e =
    let wrap : u32 (start + i) ≡ start + i = omega arith in rw wrap (ground arith)

-- The rounds `i` to `i + left` of the loop, with no wrap-around of the block number.
mark_loop_lem :
    (left start i : ℕ) (a : AllocationBitmap)
    → IsBitmap a
    → start + i + left < 2 ^ 32
    → (a' : AllocationBitmap) × (mark_loop left start i a ≡ some a')
      × IsBitmap a'
      × (a'.bits ≡ a.bits)
      × ((c : ℕ)
          → c < a.bits
          → used a' c ≡ (used a c || (leb (start + i) c && ltb c (start + i + left))))
mark_loop_lem zero start i a v h = (a, (unfold mark_loop in refl), v, refl, λ c hc. ground arith)
mark_loop_lem (suc left) start i a v h =
    let wrap : u32 (start + i) ≡ start + i = omega arith in
    elim (Bool-cases (leb a.bits (start + i))) [
      | inl past ↦ (a, (unfold mark_loop in rw (wrap, past)), v, refl, λ c hc. ground arith)
      | inr inside ↦
          let (next, e, nv, nb, marks) = set_bit_lem a (start + i) v (ground arith) in
          let (last, e', lv, lb, more) = mark_loop_lem left start (i + 1) next nv (omega arith) in
          (
            last,
            mark_loop-suc left start i a next (omega arith) (ground arith) e ∙ e',
            lv,
            lb ∙ nb,
            λ c hc. ground (arith, marks c, more c),
          )
    ]

-- On a well-formed bitmap and a run that ends below 2^32, `MarkUsed` does not panic, keeps the
-- bitmap well-formed, marks the blocks of the run that the bitmap covers, and no other.
pub mark_used_lem :
    (start count : ℕ) (a : AllocationBitmap)
    → IsBitmap a
    → start + count < 2 ^ 32
    → (a' : AllocationBitmap) × (mark_used start count a ≡ some a')
      × IsBitmap a'
      × (a'.bits ≡ a.bits)
      × ((c : ℕ) → c < a.bits → used a' c ≡ (used a c || (leb start c && ltb c (start + count))))
mark_used_lem start count a v h =
    let (last, e, lv, lb, more) = mark_loop_lem count start 0 a v (omega arith) in
    (last, (unfold mark_used in e), lv, lb, λ c hc. ground (arith, more c hc))
