-- ===== src/Xattrs/Snapshot.antt =====
-- What `ReadXattrs` of internal/xattrs/xattrs_unix.go returns, while the attributes may change and when
-- they do not.
use mathlib.Core.Path.{subst}
use go_dmg_writer.Base.{
  ℕ, zero, suc, ◌*◌, ◌≡◌, refl, sym, ap, ◌∙◌, Bool, true, Bool-cases, inl, inr, [], ◌∷◌, leb,
  le→leb, ==_iff, ◌⊎◌, if◌then◌else◌, length, Result, ok, err, arith,
}
use go_dmg_writer.Base.Bytes.{Bytes}
use go_dmg_writer.Xattrs.{
  XattrError, too_many_retries, errno, Calls, probed, filled, retry, first_probe, read_all,
}

empty_length : (b : Bytes) → length b ≡ 0 → [] ≡ b
empty_length [] e = refl
empty_length (x ∷ b) e = absurd (omega arith)

-- The world after `k` calls.
abbrev pub after : {S : Type 0} → (S → S) → ℕ → S → S
after next zero s = s
after next (suc k) s = after next k (next s)

-- What the system documents of calls on a value that is `content s` in the world `s`: a probe reports
-- its size, a buffer that is long enough is filled with it, and one that is not gives ERANGE. Between
-- two calls the world goes on by `next`, in which the value may change in any way.
pub record IsKernel {S : Type 0} (erange : ℕ) (calls : Calls S) (next : S → S) (content : S → Bytes)
    : Type 0 where
  pub probes : (s : S) → calls.probe s ≡ (next s, ok (length (content s)))
  pub fills :
      (s : S) (len : ℕ)
      → calls.fill s len
        ≡ (next s, if leb (length (content s)) len then ok (content s) else err erange)

-- A result that is the value at one moment, or that gives up.
abbrev pub IsSnapshot :
    {S : Type 0} → (S → S) → (S → Bytes) → S → S × Result XattrError Bytes → Type 0
IsSnapshot next content s (s', ok b) = (k : ℕ) × (b ≡ content (after next k s))
IsSnapshot next content s (s', err e) = e ≡ too_many_retries

module _ {S : Type 0} (erange : ℕ) (calls : Calls S) (next : S → S) (content : S → Bytes)
    (kernel : IsKernel erange calls next content) where
  IsSnapshot-next :
      (s : S) (r : S × Result XattrError Bytes)
      → IsSnapshot next content (next s) r
      → IsSnapshot next content s r
  IsSnapshot-next s (s', ok b) (k, e) = (suc k, e)
  IsSnapshot-next s (s', err x) e = e

  -- One attempt: the value fits the buffer, or the loop goes on two calls later.
  retry-cases :
      (attempts : ℕ) (s : S) (len : ℕ)
      → (retry erange calls (suc attempts) s len ≡ (next s, ok (content s)))
        ⊎ ((n : ℕ) × (retry erange calls (suc attempts) s len
              ≡ retry erange calls attempts (next (next s)) n))
  unfolding retry
  retry-cases attempts s len =
      let again = λ (s' : S) (n : ℕ). retry erange calls attempts s' n in
      let first = ap (filled erange calls again len) (kernel.fills s len) in
      elim (Bool-cases (leb (length (content s)) len)) [
        | inl fits ↦ inl (
            first
            ∙ ap
                (λ (b : Bool).
                  filled erange calls again len (next s, if b then ok (content s) else err erange))
                fits)
        | inr short ↦ inr (
          if leb (length (content (next s))) len then len * 2 else length (content (next s)),
          first
              ∙ ap
                  (λ (b : Bool).
                    filled erange calls again len
                      (next s, if b then ok (content s) else err erange))
                  short
              ∙ ap
                  (λ (b : Bool).
                    if b
                    then probed erange calls again len (calls.probe (next s))
                    else (next s, err (errno erange)))
                  ((==_iff erange erange).1 refl)
              ∙ ap (probed erange calls again len) (kernel.probes (next s)),
        )
      ]

  retry-IsSnapshot :
      (attempts : ℕ) (s : S) (len : ℕ)
      → IsSnapshot next content s (retry erange calls attempts s len)
  unfolding retry
  retry-IsSnapshot zero s len = refl
  retry-IsSnapshot (suc attempts) s len = elim (retry-cases attempts s len) [
    | inl done ↦ subst (IsSnapshot next content s) (sym done) (0, refl)
    | inr (n, on) ↦
        let r = retry erange calls attempts (next (next s)) n in
        subst (IsSnapshot next content s) (sym on) (
          IsSnapshot-next s r
            (IsSnapshot-next (next s) r (retry-IsSnapshot attempts (next (next s)) n)))
  ]

  first_probe-IsSnapshot :
      (s : S) (b : Bytes)
      → content s ≡ b
      → IsSnapshot next content s (first_probe erange calls (next s, ok (length b)))
  unfolding first_probe
  first_probe-IsSnapshot s [] e = (0, sym e)
  first_probe-IsSnapshot s (x ∷ b) e =
      IsSnapshot-next s (retry erange calls 8 (next s) (length (x ∷ b)))
        (retry-IsSnapshot 8 (next s) (length (x ∷ b)))

  -- However the value changes between the calls, the read of a list of names or of a value returns the
  -- whole value as it was at the moment of one of the calls, never a part of it, or the error of too
  -- many retries: ERANGE itself is never returned.
  pub read_all-IsSnapshot : (s : S) → IsSnapshot next content s (read_all erange calls s)
  unfolding read_all
  read_all-IsSnapshot s =
      subst (IsSnapshot next content s) (sym (ap (first_probe erange calls) (kernel.probes s)))
        (first_probe-IsSnapshot s (content s) refl)

-- A value that does not change is read at the first attempt.
module _ {S : Type 0} (erange : ℕ) (calls : Calls S) (next : S → S) (b : Bytes)
    (kernel : IsKernel erange calls next (λ s. b)) where
  quiet-first_probe :
      (s : S) (size : ℕ)
      → length b ≡ size
      → (s' : S) × (first_probe erange calls (s, ok size) ≡ (s', ok b))
  unfolding first_probe retry
  quiet-first_probe s zero e = (s, λ i. (s, ok (empty_length b e i)))
  quiet-first_probe s (suc size) e =
      let fits : leb (length b) (suc size) ≡ true = le→leb _ _ (omega arith) in
      let again = λ (s' : S) (n : ℕ). retry erange calls 7 s' n in
      (
        next s,
        ap (filled erange calls again (suc size)) (kernel.fills s (suc size))
            ∙ ap
                (λ (t : Bool).
                  filled erange calls again (suc size) (next s, if t then ok b else err erange))
                fits,
      )

  pub quiet-read_all : (s : S) → (s' : S) × (read_all erange calls s ≡ (s', ok b))
  unfolding read_all
  quiet-read_all s =
      let (s', e) = quiet-first_probe (next s) (length b) refl in
      (s', ap (first_probe erange calls) (kernel.probes s) ∙ e)
