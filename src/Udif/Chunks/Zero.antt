-- ===== src/Udif/Chunks/Zero.antt =====
-- internal/udif/writer.go, `isAllZero`.
use go_dmg_writer.Base.{
  ℕ, zero, suc, ◌+◌, ◌-◌, ◌≤◌, ◌<◌, ◌≡◌, refl, sym, ap, ap₂, ◌∙◌, ◌↔◌, true, false, Bool-cases, inl,
  inr, [], ◌∷◌, ◌++◌, leb, leb→le, if◌then◌else◌, length, take, drop, replicate, length-drop,
  length-replicate, take-append-drop, arith,
}
use go_dmg_writer.Base.Bytes.{Bytes}
use go_dmg_writer.Udif.Chunks.{bytes_equal, tail_is_zero, stride_loop, is_all_zero}

abbrev pub zeros : ℕ → Bytes
zeros n = replicate n 0

bytes_equal-eq : (p q : Bytes) → bytes_equal p q ≡ true → p ≡ q
unfolding bytes_equal
bytes_equal-eq [] [] e = refl
bytes_equal-eq [] (b ∷ q) e = cc
bytes_equal-eq (a ∷ p) [] e = cc
bytes_equal-eq (a ∷ p) (b ∷ q) e =
    let ha : a ≡ b = ground arith in
    let hq : bytes_equal p q ≡ true = ground arith in
    ap₂ (λ (x : ℕ) (y : Bytes). x ∷ y) ha (bytes_equal-eq p q hq)

bytes_equal_self : (p : Bytes) → bytes_equal p p ≡ true
unfolding bytes_equal
bytes_equal_self [] = refl
bytes_equal_self (a ∷ p) = ground (arith, bytes_equal_self p)

tail_is_zero-eq : (p : Bytes) → tail_is_zero p ≡ true → p ≡ zeros (length p)
unfolding tail_is_zero
tail_is_zero-eq [] e = refl
tail_is_zero-eq (b ∷ p) e =
    let hb : b ≡ 0 = ground arith in
    let hp : tail_is_zero p ≡ true = ground arith in
    ap₂ (λ (x : ℕ) (y : Bytes). x ∷ y) hb (tail_is_zero-eq p hp)

tail_is_zero-zeros : (n : ℕ) → tail_is_zero (zeros n) ≡ true
unfolding tail_is_zero
tail_is_zero-zeros zero = refl
tail_is_zero-zeros (suc n) = ground (arith, tail_is_zero-zeros n)

zeros-append : (m n : ℕ) → zeros m ++ zeros n ≡ zeros (m + n)
zeros-append zero n = ap zeros (omega arith)
zeros-append (suc m) n =
    ap (◌∷◌ 0) (zeros-append m n) ∙ ap zeros (let e : suc (m + n) ≡ suc m + n = omega arith in e)

drop-zeros : (m n : ℕ) → drop m (zeros n) ≡ zeros (n - m)
drop-zeros zero n = ap zeros (omega arith)
drop-zeros (suc m) zero = ap zeros (let e : 0 ≡ 0 - suc m = omega arith in e)
drop-zeros (suc m) (suc n) = drop-zeros m n ∙ ap zeros (omega arith)

take-zeros : (m n : ℕ) → m ≤ n → take m (zeros n) ≡ zeros m
take-zeros zero n le = refl
take-zeros (suc m) zero le = absurd (omega arith)
take-zeros (suc m) (suc n) le = ap (◌∷◌ 0) (take-zeros m n (omega arith))

stride_loop-zero : (p : Bytes) → stride_loop 0 p ≡ true → ⊥
unfolding stride_loop
stride_loop-zero p e = cc

stride_loop-long :
    (fuel : ℕ) (p : Bytes)
    → leb 64 (length p) ≡ true
    → stride_loop (suc fuel) p
      ≡ (if bytes_equal (take 64 p) (zeros 64) then stride_loop fuel (drop 64 p) else false)
unfolding stride_loop
stride_loop-long fuel p long = rw long refl

stride_loop-short :
    (fuel : ℕ) (p : Bytes) → leb 64 (length p) ≡ false → stride_loop (suc fuel) p ≡ tail_is_zero p
unfolding stride_loop
stride_loop-short fuel p short = rw short refl

stride_loop-eq : (fuel : ℕ) (p : Bytes) → stride_loop fuel p ≡ true → p ≡ zeros (length p)
stride_loop-eq zero p e = absurd (stride_loop-zero p e)
stride_loop-eq (suc fuel) p e = elim (Bool-cases (leb 64 (length p))) [
  | inr short ↦ tail_is_zero-eq p (sym (stride_loop-short fuel p short) ∙ e)
  | inl long ↦ elim (Bool-cases (bytes_equal (take 64 p) (zeros 64))) [
    | inr differs ↦
        let e' = sym (stride_loop-long fuel p long) ∙ e in
        let wrong : false ≡ true = rw differs at e' in cc
    | inl equal ↦
        let e' = sym (stride_loop-long fuel p long) ∙ e in
        let rest : stride_loop fuel (drop 64 p) ≡ true = rw equal at e' in
        sym (take-append-drop 64 p)
        ∙ ap₂ ◌++◌ (bytes_equal-eq (take 64 p) (zeros 64) equal)
            (stride_loop-eq fuel (drop 64 p) rest)
        ∙ zeros-append 64 (length (drop 64 p))
        ∙ ap zeros (omega (arith, length-drop 64 p, leb→le 64 (length p) long))
  ]
]

stride_loop-zeros : (fuel n : ℕ) → n < fuel → stride_loop fuel (zeros n) ≡ true
stride_loop-zeros zero n lt = absurd (omega arith)
stride_loop-zeros (suc fuel) n lt = elim (Bool-cases (leb 64 (length (zeros n)))) [
  | inr short ↦ stride_loop-short fuel (zeros n) short ∙ tail_is_zero-zeros n
  | inl long ↦
      let le : 64 ≤ n =
        omega (arith, leb→le 64 (length (zeros n)) long, length-replicate {A = ℕ} n 0) in
      stride_loop-long fuel (zeros n) long
      ∙ rw (take-zeros 64 n le, bytes_equal_self (zeros 64), drop-zeros 64 n)
          (stride_loop-zeros fuel (n - 64) (omega arith))
]

-- `isAllZero` answers true on a buffer of zero bytes, of any length, and on no other.
pub is_all_zero_iff : (p : Bytes) → (is_all_zero p ≡ true) ↔ (p ≡ zeros (length p))
unfolding is_all_zero
is_all_zero_iff p = (
  stride_loop-eq (suc (length p)) p,
  λ e.
      ap (stride_loop (suc (length p))) e
      ∙ stride_loop-zeros (suc (length p)) (length p) (omega arith),
)
