-- ===== src/Xattrs/Names.antt =====
-- `splitNullDelimited` of internal/xattrs/xattrs_unix.go on a list of names as the system reports it.
use go_dmg_writer.Base.{
  ℕ, ◌≡◌, ◌≢◌, refl, ap, ◌∙◌, Bool, true, false, ◌&&◌, List, [], ◌∷◌, ◌++◌, All, ◌==◌,
  if◌then◌else◌, arith,
}
use go_dmg_writer.Base.Bytes.{Bytes}
use go_dmg_writer.Hfsplus.Btree.{is_empty}
use go_dmg_writer.Xattrs.{trim_right, cons_head, split, split_null_delimited}

-- A name is not empty and has no NUL.
abbrev pub IsAttrName : Bytes → Type 0
IsAttrName n = (n ≢ []) × All (λ (b : ℕ). b ≢ 0) n

-- The names, each with a NUL behind it.
unfoldable pub delimited : List Bytes → Bytes
delimited [] = []
delimited (n ∷ ns) = n ++ (0 ∷ delimited ns)

nonzero : (b : ℕ) → b ≢ 0 → (b == 0) ≡ false
nonzero b ne = ground arith

split-name : (n rest : Bytes) → All (λ (b : ℕ). b ≢ 0) n → split (n ++ (0 ∷ rest)) ≡ n ∷ split rest
unfolding split
split-name [] rest h = refl
split-name (b ∷ n) rest (ne, h) =
    ap
      (λ (t : Bool).
        if t then [] ∷ split (n ++ (0 ∷ rest)) else cons_head b (split (n ++ (0 ∷ rest))))
      (nonzero b ne)
    ∙ ap (cons_head b) (split-name n rest h)

split-last : (n : Bytes) → All (λ (b : ℕ). b ≢ 0) n → split n ≡ n ∷ []
unfolding split
split-last [] h = refl
split-last (b ∷ n) (ne, h) =
    ap (λ (t : Bool). if t then [] ∷ split n else cons_head b (split n)) (nonzero b ne)
    ∙ ap (cons_head b) (split-last n h)

and_false : (b : Bool) → (b && false) ≡ false
and_false true = refl
and_false false = refl

-- Without NULs at its end a string stays as it is.
trim_right-name :
    (n zeros : Bytes)
    → trim_right zeros ≡ []
    → All (λ (b : ℕ). b ≢ 0) n
    → trim_right (n ++ zeros) ≡ n
unfolding trim_right
trim_right-name [] zeros z h = z
trim_right-name (b ∷ n) zeros z (ne, h) =
    let rest = trim_right (n ++ zeros) in
    ap (λ (t : Bool). if is_empty rest && t then [] else b ∷ rest) (nonzero b ne)
    ∙ ap (λ (t : Bool). if t then [] else b ∷ rest) (and_false (is_empty rest))
    ∙ ap (◌∷◌ b) (trim_right-name n zeros z h)

trim_zero : trim_right (0 ∷ []) ≡ []
unfolding trim_right
trim_zero = refl

empty_split : split_null_delimited [] ≡ []
unfolding split_null_delimited trim_right
empty_split = refl

is_empty-append : (xs ys : Bytes) → is_empty ys ≡ false → is_empty (xs ++ ys) ≡ false
is_empty-append [] ys h = h
is_empty-append (x ∷ xs) ys h = refl

trim_right-append :
    (xs ys : Bytes) → is_empty (trim_right ys) ≡ false → trim_right (xs ++ ys) ≡ xs ++ trim_right ys
unfolding trim_right
trim_right-append [] ys h = refl
trim_right-append (x ∷ xs) ys h =
    let rest = trim_right-append xs ys h in
    let some_ : is_empty (trim_right (xs ++ ys)) ≡ false =
      ap is_empty rest ∙ is_empty-append xs (trim_right ys) h in
    ap (λ (t : Bool). if t && (x == 0) then [] else x ∷ trim_right (xs ++ ys)) some_
    ∙ ap (◌∷◌ x) rest

trim_right-zero :
    (bs : Bytes) → is_empty (trim_right bs) ≡ false → trim_right (0 ∷ bs) ≡ 0 ∷ trim_right bs
unfolding trim_right
trim_right-zero bs h = ap (λ (t : Bool). if t && true then [] else 0 ∷ trim_right bs) h

pub name-is_empty : (n : Bytes) → n ≢ [] → is_empty n ≡ false
name-is_empty [] ne = absurd (ne refl)
name-is_empty (b ∷ n) ne = refl

trimmed-names :
    (n : Bytes) (ns : List Bytes)
    → All IsAttrName (n ∷ ns)
    → (is_empty (trim_right (delimited (n ∷ ns))) ≡ false)
      × (split (trim_right (delimited (n ∷ ns))) ≡ n ∷ ns)
unfolding delimited
trimmed-names n [] ((ne, free), _) =
    let trimmed = trim_right-name n (0 ∷ []) trim_zero free in
    (ap is_empty trimmed ∙ name-is_empty n ne, ap split trimmed ∙ split-last n free)
trimmed-names n (m ∷ ms) ((ne, free), names) =
    let (some_, rest) = trimmed-names m ms names in
    let tail = delimited (m ∷ ms) in
    let zero_ = trim_right-zero tail some_ in
    let trimmed : trim_right (n ++ (0 ∷ tail)) ≡ n ++ (0 ∷ trim_right tail) =
      trim_right-append n (0 ∷ tail) (ap is_empty zero_) ∙ ap (λ (b : Bytes). n ++ b) zero_ in
    (
      ap is_empty trimmed ∙ is_empty-append n (0 ∷ trim_right tail) refl,
      ap split trimmed ∙ split-name n (trim_right tail) free ∙ ap (◌∷◌ n) rest,
    )

-- Names that are not empty and have no NUL are got back from the buffer in which each has a NUL behind
-- it.
pub split_null_delimited-delimited :
    (ns : List Bytes) → All IsAttrName ns → split_null_delimited (delimited ns) ≡ ns
unfolding split_null_delimited delimited
split_null_delimited-delimited [] h = empty_split
split_null_delimited-delimited (n ∷ ns) h =
    let (some_, names) = trimmed-names n ns h in
    let s = trim_right (delimited (n ∷ ns)) in
    ap (λ (t : Bool). if t then [] else split s) some_ ∙ names
