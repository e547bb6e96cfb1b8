-- ===== src/Wire/Laws.antt =====
-- Writes at offsets: where the fields lie one behind the other, each is found again.
use go_dmg_writer.Base.{
  ℕ, zero, suc, ◌+◌, ◌*◌, ◌≤◌, ◌<◌, ◌≡◌, refl, sym, ap, ap₂, ◌∙◌, true, List, [], ◌∷◌, ◌++◌, All,
  length, take, drop, replicate, length-replicate, drop-drop, take-length_append,
  drop-length_append, arith,
}
use mathlib.Core.Path.{subst}
use go_dmg_writer.Base.Bytes.{Bytes, be32, of_be, of_be-be16, of_be-be32, of_be-be64}
use go_dmg_writer.Wire.{
  put, slice, words, Field, at8, at16, at32, at64, raw, array, Found, Fits, offset, width, content,
  write_all, encode, in_line, read_words,
}
use go_dmg_writer.Wire.Writes.{
  length-put, fit_self, length-be32, of_be-u8, length-write_all, in_line-cons, slice-write_all,
}

take-take : (m n : ℕ) (xs : Bytes) → m ≤ n → take m (take n xs) ≡ take m xs
take-take zero n xs le = refl
take-take (suc m) zero xs le = absurd (omega arith)
take-take (suc m) (suc n) [] le = refl
take-take (suc m) (suc n) (x ∷ xs) le = ap (◌∷◌ x) (take-take m n xs (omega arith))

drop-take : (m k n : ℕ) (xs : Bytes) → n ≡ m + k → drop m (take n xs) ≡ take k (drop m xs)
drop-take zero k n xs e = ap (λ (j : ℕ). take j xs) (let e' : n ≡ k = omega arith in e')
drop-take (suc m) k zero xs e = absurd (omega arith)
drop-take (suc m) zero (suc n) [] e = refl
drop-take (suc m) (suc k) (suc n) [] e = refl
drop-take (suc m) k (suc n) (x ∷ xs) e = drop-take m k n xs (omega arith)

-- The front of a slice, and the slice that follows it.
pub slice-front :
    (at m n : ℕ) (buf xs ys : Bytes)
    → m ≤ n
    → length xs ≡ m
    → slice at n buf ≡ xs ++ ys
    → slice at m buf ≡ xs
slice-front at m n buf xs ys le len e =
    sym (take-take m n (drop at buf) le) ∙ ap (take m) e ∙ take-length_append m xs ys len

pub slice-back :
    (at m k n : ℕ) (buf xs ys : Bytes)
    → n ≡ m + k
    → length xs ≡ m
    → slice at n buf ≡ xs ++ ys
    → slice (at + m) k buf ≡ ys
slice-back at m k n buf xs ys sum len e =
    ap (take k) (sym (drop-drop at m buf))
    ∙ sym (drop-take m k n (drop at buf) sum)
    ∙ ap (drop m) e
    ∙ drop-length_append m xs ys len

read_words_lem :
    (at : ℕ) (vs : List ℕ) (buf : Bytes)
    → All (λ (v : ℕ). v < 4294967296) vs
    → slice at (length vs * 4) buf ≡ words vs
    → read_words (length vs) at buf ≡ vs
unfolding read_words words
read_words_lem at [] buf small e = refl
read_words_lem at (v ∷ vs) buf (h, small) e =
    let first =
      slice-front at 4 (length (v ∷ vs) * 4) buf (be32 v) (words vs) (omega arith) (length-be32 v)
        e in
    ap₂ ◌∷◌ (ap of_be first ∙ of_be-be32 v h) (
      read_words_lem (at + 4) vs buf small (
        slice-back at 4 (length vs * 4) (length (v ∷ vs) * 4) buf (be32 v) (words vs) (omega arith)
          (length-be32 v) e))

pub Found-slice :
    (f : Field) (buf : Bytes) → Fits f → slice (offset f) (width f) buf ≡ content f → Found buf f
Found-slice (at8 o v) buf fits e = ap of_be e ∙ of_be-u8 v fits
Found-slice (at16 o v) buf fits e = ap of_be e ∙ of_be-be16 v fits
Found-slice (at32 o v) buf fits e = ap of_be e ∙ of_be-be32 v fits
Found-slice (at64 o v) buf fits e = ap of_be e ∙ of_be-be64 v fits
Found-slice (raw o n b) buf fits e = e ∙ fit_self n b fits
Found-slice (array o n vs) buf (len, small) e =
    subst (λ (k : ℕ). read_words k o buf ≡ vs) len
      (read_words_lem o vs buf small
        (ap (λ (k : ℕ). slice o (k * 4) buf) len ∙ e ∙ ap words (fit_self n vs len)))

All-contents_from :
    (n from : ℕ) (fs : List Field) (buf : Bytes)
    → length buf ≡ n
    → in_line n from fs ≡ true
    → All (λ (f : Field). slice (offset f) (width f) (write_all fs buf) ≡ content f) fs
unfolding write_all
All-contents_from n from [] buf len e = tt
All-contents_from n from (f ∷ fs) buf len e =
    let (le, rest) = in_line-cons n from f fs e in
    let after = put (offset f) (content f) buf in
    (
      slice-write_all zero n from (f ∷ fs) buf f len e refl,
      All-contents_from n (offset f + width f) fs after
          (length-put (offset f) (content f) buf ∙ len) rest,
    )

pub All-Found_from :
    (n from : ℕ) (fs : List Field) (buf : Bytes)
    → length buf ≡ n
    → in_line n from fs ≡ true
    → All Fits fs
    → All (Found (write_all fs buf)) fs
unfolding write_all
All-Found_from n from [] buf len e fits = tt
All-Found_from n from (f ∷ fs) buf len e (here, fits) =
    let (le, rest) = in_line-cons n from f fs e in
    let after = put (offset f) (content f) buf in
    (
      Found-slice f (write_all fs after) here
          (slice-write_all zero n from (f ∷ fs) buf f len e refl),
      All-Found_from n (offset f + width f) fs after (length-put (offset f) (content f) buf ∙ len)
          rest fits,
    )

-- A structure whose fields lie one behind the other in `n` bytes is `n` bytes long, and each field
-- that fits its type is read back from its offset.
pub encode-Found :
    (n : ℕ) (fs : List Field)
    → in_line n 0 fs ≡ true
    → All Fits fs
    → (length (encode n fs) ≡ n) × All (Found (encode n fs)) fs
encode-Found n fs e fits =
    let buf = replicate n 0 in
    (
      length-write_all fs buf ∙ length-replicate n 0,
      All-Found_from n 0 fs buf (length-replicate n 0) e fits,
    )

-- The bytes of each field of a structure, whether or not its value fits.
pub encode-contents :
    (n : ℕ) (fs : List Field)
    → in_line n 0 fs ≡ true
    → (length (encode n fs) ≡ n)
      × All (λ (f : Field). slice (offset f) (width f) (encode n fs) ≡ content f) fs
encode-contents n fs e =
    let buf = replicate n 0 in
    (
      length-write_all fs buf ∙ length-replicate n 0,
      All-contents_from n 0 fs buf (length-replicate n 0) e,
    )
