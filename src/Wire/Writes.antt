-- ===== src/Wire/Writes.antt =====
-- What the writes at offsets change, and what they leave.
use go_dmg_writer.Base.{
  ℕ, zero, suc, ◌+◌, ◌*◌, ◌≤◌, ◌<◌, ◌≡◌, refl, sym, ap, ◌∙◌, Bool, true, false, Bool-cases, inl,
  inr, List, [], ◌∷◌, some, leb, leb→le, le→leb, if◌then◌else◌, length, get_elem?, take, arith,
}
use mathlib.Core.Option.{some-injective}
use mathlib.Core.Path.{subst}
use go_dmg_writer.Base.Bytes.{Bytes, be16, be32, be64, u8, of_be}
use go_dmg_writer.Wire.{
  overlay, put, slice, fit, words, Field, at8, at16, at32, at64, raw, array, offset, width, content,
  write_all, in_line,
}

length-overlay : (b buf : Bytes) → length (overlay b buf) ≡ length buf
unfolding overlay
length-overlay [] buf = refl
length-overlay (x ∷ b) [] = refl
length-overlay (x ∷ b) (y ∷ buf) = ap suc (length-overlay b buf)

pub length-put : (at : ℕ) (b buf : Bytes) → length (put at b buf) ≡ length buf
unfolding put
length-put zero b buf = length-overlay b buf
length-put (suc at) b [] = refl
length-put (suc at) b (y ∷ buf) = ap suc (length-put at b buf)

take-overlay : (b buf : Bytes) → length b ≤ length buf → take (length b) (overlay b buf) ≡ b
unfolding overlay
take-overlay [] buf le = refl
take-overlay (x ∷ b) [] le = absurd (omega arith)
take-overlay (x ∷ b) (y ∷ buf) le = ap (◌∷◌ x) (take-overlay b buf (omega arith))

slice-put_self :
    (at : ℕ) (b buf : Bytes) → at + length b ≤ length buf → slice at (length b) (put at b buf) ≡ b
unfolding put
slice-put_self zero b buf le = take-overlay b buf (omega arith)
slice-put_self (suc at) b [] le = absurd (omega arith)
slice-put_self (suc at) b (y ∷ buf) le = slice-put_self at b buf (omega arith)

take-put : (n at : ℕ) (b buf : Bytes) → n ≤ at → take n (put at b buf) ≡ take n buf
unfolding put
take-put zero at b buf le = refl
take-put (suc n) zero b buf le = absurd (omega arith)
take-put (suc n) (suc at) b [] le = refl
take-put (suc n) (suc at) b (y ∷ buf) le = ap (◌∷◌ y) (take-put n at b buf (omega arith))

-- A write behind a slice does not touch it.
pub slice-put_after :
    (at n at' : ℕ) (b buf : Bytes) → at + n ≤ at' → slice at n (put at' b buf) ≡ slice at n buf
unfolding put
slice-put_after zero n at' b buf le = take-put n at' b buf (omega arith)
slice-put_after (suc at) n zero b buf le = absurd (omega arith)
slice-put_after (suc at) n (suc at') b [] le = refl
slice-put_after (suc at) n (suc at') b (y ∷ buf) le = slice-put_after at n at' b buf (omega arith)

length-fit : (n : ℕ) (b : Bytes) → length (fit n b) ≡ n
unfolding fit
length-fit zero b = refl
length-fit (suc n) [] = ap suc (length-fit n [])
length-fit (suc n) (x ∷ b) = ap suc (length-fit n b)

pub fit_self : (n : ℕ) (b : Bytes) → length b ≡ n → fit n b ≡ b
unfolding fit
fit_self zero [] e = refl
fit_self zero (x ∷ b) e = absurd (omega arith)
fit_self (suc n) [] e = absurd (omega arith)
fit_self (suc n) (x ∷ b) e = ap (◌∷◌ x) (fit_self n b (omega arith))

length-words : (vs : List ℕ) → length (words vs) ≡ length vs * 4
unfolding words be32
length-words [] = refl
length-words (v ∷ vs) = omega (arith, length-words vs)

pub length-be32 : (v : ℕ) → length (be32 v) ≡ 4
unfolding be32
length-be32 v = refl

pub of_be-u8 : (v : ℕ) → v < 256 → of_be (u8 v ∷ []) ≡ v
unfolding of_be
of_be-u8 v h = omega arith

pub length-content : (f : Field) → length (content f) ≡ width f
unfolding be16 be32 be64
length-content (at8 o v) = refl
length-content (at16 o v) = refl
length-content (at32 o v) = refl
length-content (at64 o v) = refl
length-content (raw o n b) = length-fit n b
length-content (array o n vs) = length-words (fit n vs) ∙ ap (λ (k : ℕ). k * 4) (length-fit n vs)

pub slice-put_content :
    (f : Field) (buf : Bytes)
    → offset f + width f ≤ length buf
    → slice (offset f) (width f) (put (offset f) (content f) buf) ≡ content f
slice-put_content f buf le =
    ap (λ (n : ℕ). slice (offset f) n (put (offset f) (content f) buf)) (sym (length-content f))
    ∙ slice-put_self (offset f) (content f) buf (omega (arith, length-content f))

pub length-write_all : (fs : List Field) (buf : Bytes) → length (write_all fs buf) ≡ length buf
unfolding write_all
length-write_all [] buf = refl
length-write_all (f ∷ fs) buf =
    length-write_all fs (put (offset f) (content f) buf) ∙ length-put (offset f) (content f) buf

pub in_line-cons :
    (n from : ℕ) (f : Field) (fs : List Field)
    → in_line n from (f ∷ fs) ≡ true
    → (from ≤ offset f) × (in_line n (offset f + width f) fs ≡ true)
in_line-cons n from f fs e = elim (Bool-cases (leb from (offset f))) [
  | inl yes_ ↦ (leb→le _ _ yes_, (rw yes_ at e))
  | inr no_ ↦ let e' : false ≡ true = (rw no_ at e) in cc
]

pub cons-in_line :
    (n from : ℕ) (f : Field) (fs : List Field)
    → from ≤ offset f
    → in_line n (offset f + width f) fs ≡ true
    → in_line n from (f ∷ fs) ≡ true
cons-in_line n from f fs le rest =
    ap (λ (b : Bool). if b then in_line n (offset f + width f) fs else false) (le→leb _ _ le) ∙ rest

pub in_line-le : (n from : ℕ) (fs : List Field) → in_line n from fs ≡ true → from ≤ n
in_line-le n from [] e = leb→le _ _ e
in_line-le n from (f ∷ fs) e =
    let (le, rest) = in_line-cons n from f fs e in
    omega (arith, in_line-le n (offset f + width f) fs rest)

pub slice-write_all_before :
    (at w n from : ℕ) (fs : List Field) (buf : Bytes)
    → in_line n from fs ≡ true
    → at + w ≤ from
    → slice at w (write_all fs buf) ≡ slice at w buf
unfolding write_all
slice-write_all_before at w n from [] buf e le = refl
slice-write_all_before at w n from (f ∷ fs) buf e le =
    let (here, rest) = in_line-cons n from f fs e in
    slice-write_all_before at w n (offset f + width f) fs (put (offset f) (content f) buf) rest
      (omega arith)
    ∙ slice-put_after at w (offset f) (content f) buf (omega arith)

pub slice-write_all :
    (i n from : ℕ) (fs : List Field) (buf : Bytes) (f : Field)
    → length buf ≡ n
    → in_line n from fs ≡ true
    → get_elem? fs i ≡ some f
    → slice (offset f) (width f) (write_all fs buf) ≡ content f
unfolding write_all
slice-write_all i n from [] buf f len e at = cc
slice-write_all zero n from (g ∷ fs) buf f len e at =
    let (here, rest) = in_line-cons n from g fs e in
    let bound = in_line-le n (offset g + width g) fs rest in
    let same : g ≡ f = some-injective _ _ at in
    subst (λ (h : Field). slice (offset h) (width h) (write_all (g ∷ fs) buf) ≡ content h) same
      (slice-write_all_before (offset g) (width g) n (offset g + width g) fs
          (put (offset g) (content g) buf) rest (omega arith)
        ∙ slice-put_content g buf (omega (arith, bound)))
slice-write_all (suc i) n from (g ∷ fs) buf f len e at =
    let (here, rest) = in_line-cons n from g fs e in
    slice-write_all i n (offset g + width g) fs (put (offset g) (content g) buf) f
      (length-put (offset g) (content g) buf ∙ len) rest at
