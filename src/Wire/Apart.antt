-- ===== src/Wire/Apart.antt =====
-- Writes in any order: fields that do not overlap are each found again.
use go_dmg_writer.Base.{
  ℕ, zero, suc, ◌+◌, ◌≤◌, ◌≡◌, refl, ◌∙◌, ◌⊎◌, inl, inr, true, List, [], ◌∷◌, ◌++◌, All, All-map,
  All-append, length, length-replicate, replicate, arith,
}
use go_dmg_writer.Base.Bytes.{Bytes}
use go_dmg_writer.Wire.{
  overlay, put, slice, Field, offset, width, content, write_all, encode, in_line, Found, Fits,
}
use go_dmg_writer.Wire.Laws.{Found-slice}
use go_dmg_writer.Wire.Writes.{
  length-put, length-write_all, slice-put_after, slice-put_content, length-content, in_line-cons,
  in_line-le,
}

slice-overlay :
    (at n : ℕ) (b buf : Bytes) → length b ≤ at → slice at n (overlay b buf) ≡ slice at n buf
unfolding overlay
slice-overlay at n [] buf le = refl
slice-overlay zero n (x ∷ b) buf le = absurd (omega arith)
slice-overlay (suc at) n (x ∷ b) [] le = refl
slice-overlay (suc at) n (x ∷ b) (y ∷ buf) le = slice-overlay at n b buf (omega arith)

-- A write before a slice does not touch it.
pub slice-put_before :
    (at n at' : ℕ) (b buf : Bytes)
    → at' + length b ≤ at
    → slice at n (put at' b buf) ≡ slice at n buf
unfolding put
slice-put_before at n zero b buf le = slice-overlay at n b buf (omega arith)
slice-put_before zero n (suc at') b buf le = absurd (omega arith)
slice-put_before (suc at) n (suc at') b [] le = refl
slice-put_before (suc at) n (suc at') b (y ∷ buf) le = slice-put_before at n at' b buf (omega arith)

-- Two fields that do not overlap.
abbrev pub Apart : Field → Field → Type 0
Apart f g = (offset f + width f ≤ offset g) ⊎ (offset g + width g ≤ offset f)

abbrev pub AllApart : List Field → Type 0
AllApart [] = Unit {0}
AllApart (f ∷ fs) = All (Apart f) fs × AllApart fs

abbrev pub Within : ℕ → ℕ → Field → Type 0
Within lo hi f = (lo ≤ offset f) × (offset f + width f ≤ hi)

slice-write_all-Apart :
    (f : Field) (fs : List Field) (buf : Bytes)
    → All (Apart f) fs
    → slice (offset f) (width f) (write_all fs buf) ≡ slice (offset f) (width f) buf
unfolding write_all
slice-write_all-Apart f [] buf h = refl
slice-write_all-Apart f (g ∷ fs) buf (inl before, h) =
    slice-write_all-Apart f fs (put (offset g) (content g) buf) h
    ∙ slice-put_after (offset f) (width f) (offset g) (content g) buf before
slice-write_all-Apart f (g ∷ fs) buf (inr behind, h) =
    slice-write_all-Apart f fs (put (offset g) (content g) buf) h
    ∙ slice-put_before (offset f) (width f) (offset g) (content g) buf
        (omega (arith, length-content g, behind))

pub write_all-Found :
    (n : ℕ) (fs : List Field) (buf : Bytes)
    → length buf ≡ n
    → AllApart fs
    → All (Within 0 n) fs
    → All Fits fs
    → All (Found (write_all fs buf)) fs
unfolding write_all
write_all-Found n [] buf len apart within fits = tt
write_all-Found n (f ∷ fs) buf len (here, apart) ((_, inside), within) (fit, fits) =
    let after = put (offset f) (content f) buf in
    (
      Found-slice f (write_all fs after) fit (
          slice-write_all-Apart f fs after here
          ∙ slice-put_content f buf (omega (arith, inside, len))),
      write_all-Found n fs after (length-put (offset f) (content f) buf ∙ len) apart within fits,
    )

pub encode-Found_apart :
    (n : ℕ) (fs : List Field)
    → AllApart fs
    → All (Within 0 n) fs
    → All Fits fs
    → (length (encode n fs) ≡ n) × All (Found (encode n fs)) fs
encode-Found_apart n fs apart within fits =
    let buf = replicate n 0 in
    (
      length-write_all fs buf ∙ length-replicate n 0,
      write_all-Found n fs buf (length-replicate n 0) apart within fits,
    )

-- Fields in a row are apart and lie in between.
pub in_line-Within :
    (n from : ℕ) (fs : List Field) → in_line n from fs ≡ true → All (Within from n) fs
in_line-Within n from [] e = tt
in_line-Within n from (f ∷ fs) e =
    let (le, rest) = in_line-cons n from f fs e in
    (
      (le, in_line-le n (offset f + width f) fs rest),
      All-map _ _ fs (λ g (lo, hi). (omega (arith, lo, le), hi))
          (in_line-Within n (offset f + width f) fs rest),
    )

pub in_line-AllApart : (n from : ℕ) (fs : List Field) → in_line n from fs ≡ true → AllApart fs
in_line-AllApart n from [] e = tt
in_line-AllApart n from (f ∷ fs) e =
    let (le, rest) = in_line-cons n from f fs e in
    (
      All-map _ _ fs (λ g (lo, hi). inl lo) (in_line-Within n (offset f + width f) fs rest),
      in_line-AllApart n (offset f + width f) fs rest,
    )

-- The fields of two parts of a buffer.
pub AllApart-append :
    (lo mid hi : ℕ) (fs gs : List Field)
    → All (Within lo mid) fs
    → All (Within mid hi) gs
    → AllApart fs
    → AllApart gs
    → AllApart (fs ++ gs)
AllApart-append lo mid hi [] gs below above a b = b
AllApart-append lo mid hi (f ∷ fs) gs ((_, end_), below) above (here, a) b = (
  All-append _ fs gs here (All-map _ _ gs (λ g (start, _). inl (omega (arith, end_, start))) above),
  AllApart-append lo mid hi fs gs below above a b,
)
