-- ===== src/Hfsplus/Btree/Levels.antt =====
-- internal/hfsplus/btree.go, the index levels of `BuildTree`.
use go_dmg_writer.Base.{
  ℕ, zero, suc, ◌+◌, ◌*◌, ◌%◌, ◌^◌, ◌≤◌, ◌<◌, ◌≡◌, refl, sym, ap, false, Bool-cases, inl, inr, List,
  [], ◌∷◌, ◌++◌, All, flatten, map, leb, leb→le, length, length-map, length-append, ok, arith,
}
use mathlib.Core.Path.{subst}
use go_dmg_writer.Base.Bytes.{Bytes}
use go_dmg_writer.Hfsplus.Btree.{
  IdxRec, empty_packing, index_size, number_keys, pack_index, first_key, index_levels,
  node_descriptor_size,
}
use go_dmg_writer.Hfsplus.Btree.Pack.{
  IsNode, IsGreedy, IsPacked, node_bytes, pack_items-IsPacked, IsPacking-empty,
}

-- A key that an index node holds, with its child's number.
abbrev pub KeyFits : ℕ → Bytes → Type 0
KeyFits node_size k = length k + 8 + node_descriptor_size + 2 ≤ node_size

-- A key narrow enough that an index node holds two such.
abbrev pub KeyIsNarrow : ℕ → Bytes → Type 0
KeyIsNarrow node_size k = 2 * (length k + 8) + node_descriptor_size + 2 ≤ node_size

-- The items point at the nodes with the given first keys, one item for each node, in order; the
-- first of these nodes is at position `i` of its level.
abbrev pub PointAt : ℕ → List Bytes → List IdxRec → Type 0
PointAt i [] [] = Unit {0}
PointAt i [] (r ∷ rs) = ⊥
PointAt i (k ∷ keys) [] = ⊥
PointAt i (k ∷ keys) (r ∷ rs) = (r.key ≡ k) × (r.child_idx ≡ i % 2 ^ 32) × PointAt (suc i) keys rs

-- The index levels over a level with the given first keys: each holds every key of the level
-- below once, in order, with the position of its node, in nodes that are packed, and the topmost
-- level is one node.
abbrev pub IsTower : ℕ → List Bytes → List (List (List IdxRec)) → Type 0
IsTower node_size keys [] = length keys ≤ 1
IsTower node_size keys (idx ∷ levels) =
    PointAt 0 keys (flatten idx)
    × IsPacked index_size node_size (flatten idx) idx
    × (length idx < length keys)
    × IsTower node_size (map first_key idx) levels

number_keys-PointAt : (i : ℕ) (keys : List Bytes) → PointAt i keys (number_keys i keys)
unfolding number_keys
number_keys-PointAt i [] = tt
number_keys-PointAt i (k ∷ keys) =
    let e : i + 1 ≡ suc i = omega arith in
    (
      refl,
      refl,
      subst (λ (j : ℕ). PointAt (suc i) keys (number_keys j keys)) (sym e)
          (number_keys-PointAt (suc i) keys),
    )

number_keys-fit :
    (node_size i : ℕ) (keys : List Bytes)
    → All (KeyFits node_size) keys
    → All (λ x. index_size x + node_descriptor_size + 2 ≤ node_size) (number_keys i keys)
unfolding number_keys
number_keys-fit node_size i [] h = tt
number_keys-fit node_size i (k ∷ keys) h = (omega arith, number_keys-fit node_size (i + 1) keys h.1)

length-number_keys : (i : ℕ) (keys : List Bytes) → length (number_keys i keys) ≡ length keys
unfolding number_keys
length-number_keys i [] = refl
length-number_keys i (k ∷ keys) = ap suc (length-number_keys (i + 1) keys)

pub pack_index-IsPacked :
    (node_size : ℕ) (keys : List Bytes)
    → node_descriptor_size + 2 ≤ node_size
    → All (KeyFits node_size) keys
    → IsPacked index_size node_size (number_keys 0 keys) (pack_index node_size keys)
unfolding pack_index
pack_index-IsPacked node_size keys h fits =
    pack_items-IsPacked index_size node_size (number_keys 0 keys) empty_packing
      (number_keys-fit node_size 0 keys fits) (IsPacking-empty index_size node_size h)

-- The first keys of packed index nodes fit an index node again.
first_keys-fit :
    (node_size : ℕ) (idx : List (List IdxRec))
    → All (IsNode index_size node_size) idx
    → All (KeyFits node_size) (map first_key idx)
first_keys-fit node_size [] h = tt
first_keys-fit node_size ([] ∷ idx) h = absurd (h.0.0 refl)
first_keys-fit node_size ((r ∷ rs) ∷ idx) h =
    (omega (arith, at_least rs), first_keys-fit node_size idx h.1)
  where
    at_least : (l : List IdxRec) → node_descriptor_size + 2 ≤ node_bytes index_size l
    at_least [] = omega arith
    at_least (x ∷ l) = omega (arith, at_least l)

-- An index item narrow enough that a node holds two.
abbrev ItemIsNarrow : ℕ → IdxRec → Type 0
ItemIsNarrow node_size r = 2 * index_size r + node_descriptor_size + 2 ≤ node_size

number_keys-narrow :
    (node_size i : ℕ) (keys : List Bytes)
    → All (KeyIsNarrow node_size) keys
    → All (ItemIsNarrow node_size) (number_keys i keys)
unfolding number_keys
number_keys-narrow node_size i [] h = tt
number_keys-narrow node_size i (k ∷ keys) h =
    (omega arith, number_keys-narrow node_size (i + 1) keys h.1)

All-front : (P : IdxRec → Type 0) (xs ys : List IdxRec) → All P (xs ++ ys) → All P xs
All-front P [] ys h = tt
All-front P (x ∷ xs) ys h = (h.0, All-front P xs ys h.1)

All-back : (P : IdxRec → Type 0) (xs ys : List IdxRec) → All P (xs ++ ys) → All P ys
All-back P [] ys h = h
All-back P (x ∷ xs) ys h = All-back P xs ys h.1

-- With narrow items every node but the last has two items at least.
halves :
    (node_size : ℕ) (idx : List (List IdxRec))
    → All (IsNode index_size node_size) idx
    → IsGreedy index_size node_size idx
    → All (ItemIsNarrow node_size) (flatten idx)
    → 2 * length idx ≤ length (flatten idx) + 1
unfolding flatten
halves node_size [] full greedy narrow = omega arith
halves node_size ([] ∷ idx) full greedy narrow = absurd (full.0.0 refl)
halves node_size ((x ∷ n) ∷ []) full greedy narrow = omega arith
halves node_size ((x ∷ n) ∷ [] ∷ idx) full greedy narrow = absurd greedy
halves node_size ((x ∷ []) ∷ (y ∷ m) ∷ idx) full greedy narrow =
    absurd (omega (arith, greedy.0, narrow.0, narrow.1.0))
halves node_size ((x ∷ z ∷ n) ∷ (y ∷ m) ∷ idx) full greedy narrow = omega (
  arith,
  length-append n (flatten ((y ∷ m) ∷ idx)),
  halves node_size ((y ∷ m) ∷ idx) full.1 greedy.1
      (All-back (ItemIsNarrow node_size) (x ∷ z ∷ n) (flatten ((y ∷ m) ∷ idx)) narrow),
)

narrow-fits :
    (node_size : ℕ) (keys : List Bytes)
    → All (KeyIsNarrow node_size) keys
    → All (KeyFits node_size) keys
narrow-fits node_size [] h = tt
narrow-fits node_size (k ∷ keys) h = (omega arith, narrow-fits node_size keys h.1)

-- The items of the packed nodes are the numbered keys.
packed-narrow :
    (node_size : ℕ) (keys : List Bytes) (idx : List (List IdxRec))
    → All (KeyIsNarrow node_size) keys
    → IsPacked index_size node_size (number_keys 0 keys) idx
    → All (ItemIsNarrow node_size) (flatten idx)
packed-narrow node_size keys idx h p = rw p.items (number_keys-narrow node_size 0 keys h)

-- A level over two narrow keys or more is smaller than the one below it.
pack_index_shrinks :
    (node_size : ℕ) (keys : List Bytes) (idx : List (List IdxRec))
    → All (KeyIsNarrow node_size) keys
    → IsPacked index_size node_size (number_keys 0 keys) idx
    → 2 ≤ length keys
    → length idx < length keys
pack_index_shrinks node_size keys idx h p two = omega (
  arith,
  halves node_size idx p.full p.greedy (packed-narrow node_size keys idx h p),
  ap length p.items,
  length-number_keys 0 keys,
)

first_keys-narrow :
    (node_size : ℕ) (idx : List (List IdxRec))
    → All (IsNode index_size node_size) idx
    → All (ItemIsNarrow node_size) (flatten idx)
    → All (KeyIsNarrow node_size) (map first_key idx)
unfolding flatten
first_keys-narrow node_size [] full h = tt
first_keys-narrow node_size ([] ∷ idx) full h = absurd (full.0.0 refl)
first_keys-narrow node_size ((r ∷ rs) ∷ idx) full h = (
  omega (arith, h.0),
  first_keys-narrow node_size idx full.1
      (All-back (ItemIsNarrow node_size) (r ∷ rs) (flatten idx) h),
)

-- If a node holds two index records of any of the keys, and there is more fuel than keys, the
-- index levels are built up to a single root: the loop ends, the error of a level that cannot
-- shrink does not arise, and each level lists the nodes of the level below in order, each with its
-- first key and its position modulo 2^32, in nodes that fit and that are filled greedily.
pub index_levels-IsTower :
    (fuel node_size : ℕ) (keys : List Bytes)
    → node_descriptor_size + 2 ≤ node_size
    → All (KeyIsNarrow node_size) keys
    → length keys < fuel
    → (levels : List (List (List IdxRec))) × (index_levels fuel node_size keys ≡ ok levels)
      × IsTower node_size keys levels
unfolding index_levels
index_levels-IsTower zero node_size keys h narrow enough = absurd (omega arith)
index_levels-IsTower (suc fuel) node_size keys h narrow enough =
    elim (Bool-cases (leb (length keys) 1)) [
      | inl top ↦ ([], rw top, leb→le _ _ top)
      | inr more ↦
          let idx = pack_index node_size keys in
          let packed = pack_index-IsPacked node_size keys h (narrow-fits node_size keys narrow) in
          let shrinks : length idx < length keys =
            pack_index_shrinks node_size keys idx narrow packed (ground arith) in
          let keep : leb (length keys) (length idx) ≡ false = ground arith in
          let (levels, e, tower) =
            index_levels-IsTower fuel node_size (map first_key idx) h
              (first_keys-narrow node_size idx packed.full
                (packed-narrow node_size keys idx narrow packed))
              (omega (arith, length-map idx first_key)) in
          (
            idx ∷ levels,
            rw (more, keep, e),
            (
              subst (PointAt 0 keys) (sym packed.items) (number_keys-PointAt 0 keys),
              subst (λ (l : List IdxRec). IsPacked index_size node_size l idx) (sym packed.items)
                  packed,
              shrinks,
              tower,
            ),
          )
    ]
