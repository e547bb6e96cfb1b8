-- ===== src/Hfsplus/Btree/Pack.antt =====
-- internal/hfsplus/btree.go, the greedy packing of records into nodes.
use mathlib.Core.List.{append-nil, append_assoc}
use go_dmg_writer.Base.{
  ℕ, ◌+◌, ◌-◌, ◌≤◌, ◌<◌, ◌≡◌, ◌≢◌, refl, sym, ap, ◌∙◌, Bool, true, false, ◌&&◌, Bool-cases, inl,
  inr, List, [], ◌∷◌, ◌++◌, All, All-snoc, flatten, ltb, ltb→lt, Result, ok, err, arith,
}
use go_dmg_writer.Hfsplus.Btree.{
  Record, Packing, empty_packing, add_item, close_packing, pack_items, record_size, pack_records,
  pack_leaves, node_descriptor_size, TreeError, record_too_large,
}

-- The bytes of a node with these records: the descriptor, the free-space slot, and the records,
-- each with its slot.
abbrev pub node_bytes : {A : Type 0} → (A → ℕ) → List A → ℕ
node_bytes size [] = node_descriptor_size + 2
node_bytes size (x ∷ xs) = size x + node_bytes size xs

-- No node could have taken the first record of the next.
abbrev pub IsGreedy : {A : Type 0} → (A → ℕ) → ℕ → List (List A) → Type 0
IsGreedy size node_size [] = Unit {0}
IsGreedy size node_size (n ∷ []) = Unit {0}
IsGreedy size node_size (n ∷ [] ∷ ns) = ⊥
IsGreedy size node_size (n ∷ (x ∷ m) ∷ ns) =
    (node_size < node_bytes size n + size x) × IsGreedy size node_size ((x ∷ m) ∷ ns)

-- A node of the tree: not empty, and no longer than `node_size`.
abbrev pub IsNode : {A : Type 0} → (A → ℕ) → ℕ → List A → Type 0
IsNode size node_size n = (n ≢ []) × (node_bytes size n ≤ node_size)

and_false : (b : Bool) → (b && false) ≡ false
and_false true = refl
and_false false = refl

module _ {A : Type 0} (size : A → ℕ) (node_size : ℕ) where
  node_bytes-append :
      (xs : List A) (x : A) → node_bytes size (xs ++ (x ∷ [])) ≡ node_bytes size xs + size x
  node_bytes-append [] x = omega arith
  node_bytes-append (y ∷ xs) x = omega (arith, node_bytes-append xs x)

  flatten-append : (ns : List (List A)) (n : List A) → flatten (ns ++ (n ∷ [])) ≡ flatten ns ++ n
  unfolding flatten
  flatten-append [] n = append-nil n
  flatten-append (m ∷ ns) n =
      ap (λ (l : List A). m ++ l) (flatten-append ns n) ∙ sym (append_assoc m (flatten ns) n)

  -- What a packing loop keeps: `seen` are the items packed so far.
  pub record IsPacking (seen : List A) (p : Packing A) : Type 0 where
    pub items : flatten (p.nodes ++ (p.cur ∷ [])) ≡ seen
    pub counted : p.used ≡ node_bytes size p.cur
    pub fits : p.used ≤ node_size
    pub full : All (IsNode size node_size) p.nodes
    pub greedy : IsGreedy size node_size (p.nodes ++ (p.cur ∷ []))
    pub started : p.cur ≡ [] → p.nodes ≡ []

  IsGreedy-snoc :
      (ns : List (List A)) (m : List A) (x : A)
      → IsGreedy size node_size (ns ++ (m ∷ []))
      → node_size < node_bytes size m + size x
      → IsGreedy size node_size ((ns ++ (m ∷ [])) ++ ((x ∷ []) ∷ []))
  IsGreedy-snoc [] m x g h = (h, tt)
  IsGreedy-snoc (n ∷ []) [] x g h = absurd g
  IsGreedy-snoc (n ∷ []) (y ∷ m) x g h = (g.0, (h, tt))
  IsGreedy-snoc (n ∷ [] ∷ ns) m x g h = absurd g
  IsGreedy-snoc (n ∷ (y ∷ k) ∷ ns) m x g h = (g.0, IsGreedy-snoc ((y ∷ k) ∷ ns) m x g.1 h)

  IsGreedy-grow :
      (ns : List (List A)) (y : A) (m : List A) (x : A)
      → IsGreedy size node_size (ns ++ ((y ∷ m) ∷ []))
      → IsGreedy size node_size (ns ++ ((y ∷ (m ++ (x ∷ []))) ∷ []))
  IsGreedy-grow [] y m x g = tt
  IsGreedy-grow (n ∷ []) y m x g = (g.0, tt)
  IsGreedy-grow (n ∷ [] ∷ ns) y m x g = absurd g
  IsGreedy-grow (n ∷ (z ∷ k) ∷ ns) y m x g = (g.0, IsGreedy-grow ((z ∷ k) ∷ ns) y m x g.1)

  seen-snoc :
      (ns : List (List A)) (cur : List A) (x : A) {seen : List A}
      → flatten (ns ++ (cur ∷ [])) ≡ seen
      → flatten (ns ++ ((cur ++ (x ∷ [])) ∷ [])) ≡ seen ++ (x ∷ [])
  seen-snoc ns cur x e =
      flatten-append ns (cur ++ (x ∷ []))
      ∙ sym (append_assoc (flatten ns) cur (x ∷ []))
      ∙ ap (λ (l : List A). l ++ (x ∷ [])) (sym (flatten-append ns cur) ∙ e)

  add_item-IsPacking :
      (nodes : List (List A)) (cur : List A) (used : ℕ) (x : A) {seen : List A}
      → size x + node_descriptor_size + 2 ≤ node_size
      → IsPacking seen (record { nodes = nodes; cur = cur; used = used })
      → IsPacking
          (seen ++ (x ∷ []))
          (add_item size node_size (record { nodes = nodes; cur = cur; used = used }) x)
  unfolding add_item
  add_item-IsPacking (n ∷ nodes) [] used x small p = cc (p.started refl)
  add_item-IsPacking [] [] used x small p = rw (and_false (ltb node_size (used + size x))) (record {
    items = seen-snoc [] [] x p.items;
    counted = omega (arith, p.counted);
    fits = omega (arith, p.counted);
    full = tt;
    greedy = tt;
    started = λ e. refl;
  })
  add_item-IsPacking nodes (y ∷ cur) used x small p =
      elim (Bool-cases (ltb node_size (used + size x))) [
        | inl over ↦ rw over (record {
          items =
              flatten-append (nodes ++ ((y ∷ cur) ∷ [])) (x ∷ [])
              ∙ ap (λ (l : List A). l ++ (x ∷ [])) p.items;
          counted = omega arith;
          fits = omega arith;
          full =
              All-snoc (IsNode size node_size) nodes (y ∷ cur)
                ((λ e. cc), omega (arith, p.fits, p.counted)) p.full;
          greedy = IsGreedy-snoc nodes (y ∷ cur) x p.greedy (ground (arith, p.counted));
          started = λ e. cc;
        })
        | inr room ↦ rw room (record {
          items = seen-snoc nodes (y ∷ cur) x p.items;
          counted = omega (arith, p.counted, node_bytes-append cur x);
          fits = ground arith;
          full = p.full;
          greedy = IsGreedy-grow nodes y cur x p.greedy;
          started = λ e. cc;
        })
      ]

  pub IsPacking-empty : node_descriptor_size + 2 ≤ node_size → IsPacking [] empty_packing
  IsPacking-empty h = record {
    items = unfold flatten in refl;
    counted = refl;
    fits = h;
    full = tt;
    greedy = tt;
    started = λ e. refl;
  }

  -- The finished nodes of a packing.
  pub record IsPacked (seen : List A) (nodes : List (List A)) : Type 0 where
    pub items : flatten nodes ≡ seen
    pub full : All (IsNode size node_size) nodes
    pub greedy : IsGreedy size node_size nodes

  close_packing-IsPacked :
      (nodes : List (List A)) (cur : List A) (used : ℕ) {seen : List A}
      → IsPacking seen (record { nodes = nodes; cur = cur; used = used })
      → IsPacked seen (close_packing (record { nodes = nodes; cur = cur; used = used }))
  unfolding close_packing flatten
  close_packing-IsPacked (n ∷ nodes) [] used p = cc (p.started refl)
  close_packing-IsPacked [] [] used p = record { items = p.items; full = tt; greedy = tt }
  close_packing-IsPacked nodes (y ∷ cur) used p = record {
    items = p.items;
    full =
        All-snoc (IsNode size node_size) nodes (y ∷ cur)
          ((λ e. cc), omega (arith, p.fits, p.counted)) p.full;
    greedy = p.greedy;
  }

  -- The loop of the index levels, over items that each fit a node.
  pub pack_items-IsPacked :
      (xs : List A) (p : Packing A) {seen : List A}
      → All (λ x. size x + node_descriptor_size + 2 ≤ node_size) xs
      → IsPacking seen p
      → IsPacked (seen ++ xs) (close_packing (pack_items size node_size p xs))
  unfolding pack_items
  pack_items-IsPacked [] p {seen} h inv =
      rw (append-nil seen) (close_packing-IsPacked p.nodes p.cur p.used inv)
  pack_items-IsPacked (x ∷ xs) p {seen} h inv = rw (← append_assoc seen (x ∷ []) xs) (
      pack_items-IsPacked xs (add_item size node_size p x) h.1
        (add_item-IsPacking p.nodes p.cur p.used x h.0 inv))

-- A record that no node holds.
abbrev pub IsTooLarge : ℕ → Record → Type 0
IsTooLarge node_size r = node_size < record_size r + node_descriptor_size + 2

-- What `packLeaves` returns: the packed nodes, or the size of the first record that is too large.
abbrev pub LeavesResult : ℕ → List Record → Result TreeError (List (List Record)) → Type 0
LeavesResult node_size records (ok leaves) = IsPacked record_size node_size records leaves
LeavesResult node_size records (err e) =
    (front : List Record) × (r : Record) × (back : List Record) × (records ≡ front ++ (r ∷ back))
    × All (λ q. record_size q + node_descriptor_size + 2 ≤ node_size) front
    × IsTooLarge node_size r
    × (e ≡ record_too_large (record_size r - 2))

pack_records-result :
    (node_size : ℕ) (rs seen : List Record) (p : Packing Record)
    → All (λ q. record_size q + node_descriptor_size + 2 ≤ node_size) seen
    → IsPacking record_size node_size seen p
    → LeavesResult node_size (seen ++ rs) (pack_records node_size p rs)
unfolding pack_records
pack_records-result node_size [] seen p fits inv =
    rw (append-nil seen) (close_packing-IsPacked record_size node_size p.nodes p.cur p.used inv)
pack_records-result node_size (r ∷ rs) seen p fits inv =
    elim (Bool-cases (ltb node_size (record_size r + node_descriptor_size + 2))) [
      | inl big ↦ rw big (seen, r, rs, refl, fits, ltb→lt _ _ big, refl)
      | inr small ↦
          let fine : record_size r + node_descriptor_size + 2 ≤ node_size = ground arith in
          rw (small, ← append_assoc seen (r ∷ []) rs)
            (pack_records-result node_size rs (seen ++ (r ∷ []))
              (add_item record_size node_size p r)
              (All-snoc (λ q. record_size q + node_descriptor_size + 2 ≤ node_size) seen r fine
                fits)
              (add_item-IsPacking record_size node_size p.nodes p.cur p.used r fine inv))
    ]

-- With nodes of 16 bytes at least, `packLeaves` either packs all records, in order, into nodes
-- that are not empty, fit the node size and could not have taken the next node's first record,
-- or names the first record that no node holds.
pub pack_leaves_lem :
    (records : List Record) (node_size : ℕ)
    → node_descriptor_size + 2 ≤ node_size
    → LeavesResult node_size records (pack_leaves records node_size)
unfolding pack_leaves
pack_leaves_lem records node_size h =
    pack_records-result node_size records [] empty_packing tt
      (IsPacking-empty record_size node_size h)
