-- ===== src/Hfsplus/Btree/MapNodes.antt =====
-- internal/hfsplus/btree.go, the loop of `BuildTree` over map nodes.
use mathlib.Core.Path.{subst}
use go_dmg_writer.Base.{
  ℕ, zero, suc, ◌+◌, ◌*◌, ◌^◌, ◌≤◌, ◌<◌, ◌≡◌, refl, false, Bool-cases, inl, inr, some, ltb, ltb→lt,
  lt→ltb, dec_lt, arith,
}
use go_dmg_writer.Base.Bytes.{u32}
use go_dmg_writer.Hfsplus.Btree.{map_loop}

-- `map_nodes` is the least number of map nodes with which the map describes a tree that has
-- `others` nodes besides.
pub record IsLeastMap (header_bits per_map_node others map_nodes total_nodes : ℕ) : Type 0 where
  pub is_total : total_nodes ≡ others + map_nodes
  pub covered : total_nodes ≤ header_bits + map_nodes * per_map_node
  pub least : (m : ℕ) → m < map_nodes → header_bits + m * per_map_node < others + m

module _ (header_bits per_map_node others : ℕ) (gains : 2 ≤ per_map_node)
    (small : 2 * others < 2 ^ 32) where
  twice-le : (m : ℕ) → 2 * m ≤ m * per_map_node
  twice-le m = grind arith

  at_least :
      (m : ℕ)
      → ((k : ℕ) → k < m → header_bits + k * per_map_node < others + k)
      → others + m ≤ header_bits + m * per_map_node
      → IsLeastMap header_bits per_map_node others m (others + m)
  at_least m short enough = record { is_total = refl; covered = enough; least = short }

  -- One more node is short of bits too.
  short-suc :
      (m : ℕ)
      → ((k : ℕ) → k < m → header_bits + k * per_map_node < others + k)
      → header_bits + m * per_map_node < others + m
      → (k : ℕ) → k < m + 1
      → header_bits + k * per_map_node < others + k
  short-suc m short last k lt = elim (dec_lt k m) [
    | yes p ↦ short k p
    | no p ↦ let same : k ≡ m = omega arith in rw same last
  ]

  map_loop-suc :
      (fuel m : ℕ) (r : ℕ × ℕ)
      → header_bits + m * per_map_node < others + m
      → m < others
      → map_loop fuel header_bits per_map_node (m + 1) (others + (m + 1)) ≡ some r
      → map_loop (suc fuel) header_bits per_map_node m (others + m) ≡ some r
  unfolding map_loop
  map_loop-suc fuel m r short below e =
      let one : u32 (m + 1) ≡ m + 1 = omega arith in
      let two : u32 (others + m + 1) ≡ others + (m + 1) = omega arith in
      rw (lt→ltb _ _ short, one, two) e

  map_loop-done :
      (fuel m : ℕ)
      → ltb (header_bits + m * per_map_node) (others + m) ≡ false
      → map_loop (suc fuel) header_bits per_map_node m (others + m) ≡ some (m, others + m)
  unfolding map_loop
  map_loop-done fuel m e = rw e

  map_loop_from :
      (fuel m : ℕ)
      → others ≤ m + fuel
      → m ≤ others
      → ((k : ℕ) → k < m → header_bits + k * per_map_node < others + k)
      → (r : ℕ × ℕ) × (map_loop (suc fuel) header_bits per_map_node m (others + m) ≡ some r)
        × IsLeastMap header_bits per_map_node others r.0 r.1
  map_loop_from zero m enough below short =
      let covered : others + m ≤ header_bits + m * per_map_node = omega (arith, twice-le m) in
      ((m, others + m), map_loop-done zero m (ground arith), at_least m short covered)
  map_loop_from (suc fuel) m enough below short =
      elim (Bool-cases (ltb (header_bits + m * per_map_node) (others + m))) [
        | inr done ↦
            ((m, others + m), map_loop-done (suc fuel) m done, at_least m short (ground arith))
        | inl more ↦
            let lt = ltb→lt _ _ more in
            let under : m < others = omega (arith, twice-le m) in
            let (r, e, fine) =
              map_loop_from fuel (m + 1) (omega arith) (omega arith) (short-suc m short lt) in
            (r, map_loop-suc (suc fuel) m r lt under e, fine)
      ]

  -- If a map node has two bits at least and twice the number of other nodes is below 2^32, the
  -- loop over map nodes ends within one round for each node and one more, with the least
  -- number of map nodes whose bits, with the header's, cover all nodes, the map nodes
  -- included.
  pub map_loop_lem :
      (r : ℕ × ℕ) × (map_loop (suc others) header_bits per_map_node 0 others ≡ some r)
      × IsLeastMap header_bits per_map_node others r.0 r.1
  map_loop_lem =
      let none_yet : others + 0 ≡ others = omega arith in
      let (r, e, fine) =
        map_loop_from others 0 (omega arith) (omega arith) (λ k lt. absurd (omega arith)) in
      (
        r,
        subst (λ (n : ℕ). map_loop (suc others) header_bits per_map_node 0 n ≡ some r) none_yet e,
        fine,
      )
