-- ===== src/Hfsplus/Keys/Lexicographic.antt =====
-- internal/hfsplus/unicode.go and catalog.go: the order of names against the lexicographic order.
use go_dmg_writer.Base.{
  ℕ, zero, suc, ◌+◌, ◌<◌, ◌≡◌, refl, sym, ap, ap₂, ◌∙◌, List, [], ◌∷◌, Option, none, some, ltb,
  length, get_or, arith, true, false,
}
use go_dmg_writer.Hfsplus.Entry.{HfsName}
use go_dmg_writer.Hfsplus.Keys.{
  Sign, less, same, more, differ, or_rest, or_then, units_loop, by_length, minimum, hfs_compare,
  encode_catalog_key, compare_catalog_keys,
}
use go_dmg_writer.Hfsplus.Keys.Agree.{IsName, compare_catalog_keys_lem}

-- The lexicographic order on code units: a shorter name comes before its extensions.
unfoldable pub lex : List ℕ → List ℕ → Sign
lex [] [] = same
lex [] (u ∷ us) = less
lex (u ∷ us) [] = more
lex (u ∷ us) (v ∷ vs) = let rest = lex us vs in or_then (differ u v) rest

units_loop-shift :
    (left i : ℕ) (u v : ℕ) (us vs : List ℕ)
    → units_loop left (suc i) (u ∷ us) (v ∷ vs) ≡ units_loop left i us vs
unfolding units_loop
units_loop-shift zero i u v us vs = refl
units_loop-shift (suc left) i u v us vs =
    let one : suc i + 1 ≡ suc (i + 1) = omega arith in
    ap (or_rest (differ (get_or us i 0) (get_or vs i 0))) (
      ap (λ (k : ℕ). units_loop left k (u ∷ us) (v ∷ vs)) one
      ∙ units_loop-shift left (i + 1) u v us vs)

or_rest-or_then :
    (d rest : Option Sign) (s : Sign) → or_then (or_rest d rest) s ≡ or_then d (or_then rest s)
or_rest-or_then none rest s = refl
or_rest-or_then (some d) rest s = refl

differ-suc : (a b : ℕ) → differ (suc a) (suc b) ≡ differ a b
differ-suc a b = ground arith

minimum-suc : (a b : ℕ) → minimum (suc a) (suc b) ≡ suc (minimum a b)
minimum-suc a b = ground arith

loop-lex :
    (us vs : List ℕ)
    → by_length (units_loop (minimum (length us) (length vs)) 0 us vs) (length us) (length vs)
      ≡ lex us vs
unfolding lex units_loop
loop-lex [] [] = refl
loop-lex [] (v ∷ vs) =
    let low : ltb (suc (length vs)) 0 ≡ false = ground arith in
    let high : ltb 0 (suc (length vs)) ≡ true = ground arith in rw (low, high) refl
loop-lex (u ∷ us) [] =
    let low : ltb (suc (length us)) 0 ≡ false = ground arith in
    let high : ltb 0 (suc (length us)) ≡ true = ground arith in rw (low, high) refl
loop-lex (u ∷ us) (v ∷ vs) =
    ap (λ (m : ℕ). by_length (units_loop m 0 (u ∷ us) (v ∷ vs)) (suc (length us)) (suc (length vs)))
      (minimum-suc (length us) (length vs))
    ∙ ap₂ (λ (f : Option Sign) (d : Option Sign). or_then (or_rest (differ u v) f) (or_then d same))
        (units_loop-shift (minimum (length us) (length vs)) 0 u v us vs)
        (differ-suc (length us) (length vs))
    ∙ or_rest-or_then (differ u v) (units_loop (minimum (length us) (length vs)) 0 us vs)
        (or_then (differ (length us) (length vs)) same)
    ∙ ap (or_then (differ u v)) (loop-lex us vs)

differ-none : (a b : ℕ) → differ a b ≡ none → a ≡ b
differ-none a b e = ground arith

differ_self : (a : ℕ) → differ a a ≡ none
differ_self a = ground arith

differ-same : (a b : ℕ) → differ a b ≡ some same → ⊥
differ-same a b e = ground arith

both_same :
    (d : Option Sign) (s : Sign)
    → (d ≡ some same → ⊥)
    → or_then d s ≡ same
    → (d ≡ none) × (s ≡ same)
both_same none s _ e = (refl, e)
both_same (some t) s differs e = absurd (differs (ap some e))

lex-same : (us vs : List ℕ) → lex us vs ≡ same → us ≡ vs
unfolding lex
lex-same [] [] e = refl
lex-same [] (v ∷ vs) e = cc
lex-same (u ∷ us) [] e = cc
lex-same (u ∷ us) (v ∷ vs) e =
    let (d, rest) = both_same (differ u v) (lex us vs) (differ-same u v) e in
    ap₂ (λ (x : ℕ) (y : List ℕ). x ∷ y) (differ-none u v d) (lex-same us vs rest)

lex_self : (us : List ℕ) → lex us us ≡ same
unfolding lex
lex_self [] = refl
lex_self (u ∷ us) = rw (differ_self u) (lex_self us)

-- `HFSCompare` is the lexicographic order of the code units.
pub hfs_compare_lem : (n o : HfsName) → hfs_compare n o ≡ lex n.units o.units
unfolding hfs_compare
hfs_compare_lem n o = loop-lex n.units o.units

-- Keys of parents below 2^32 and names of at most 255 units compare as equal only for one parent and
-- one name.
pub compare_catalog_keys-same :
    (p q : ℕ) (n o : HfsName)
    → p < 4294967296
    → q < 4294967296
    → IsName n
    → IsName o
    → compare_catalog_keys (encode_catalog_key p n) (encode_catalog_key q o) ≡ same
    → (p ≡ q) × (n.units ≡ o.units)
compare_catalog_keys-same p q n o hp hq hn ho e =
    let (d, names) =
      both_same (differ p q) (hfs_compare n o) (differ-same p q)
        (sym (compare_catalog_keys_lem p q n o hp hq hn ho) ∙ e) in
    (differ-none p q d, lex-same n.units o.units (sym (hfs_compare_lem n o) ∙ names))
