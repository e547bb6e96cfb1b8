-- ===== src/Source/Collect/Filled.antt =====
-- The entries whose counters `walk` of dmg.go has filled in.
use go_dmg_writer.Base.{
  ℕ, suc, ◌+◌, ◌<◌, ◌≤◌, ◌≡◌, refl, sym, ap, ap₂, ◌∙◌, ◌⊎◌, inl, inr, Bool, ◌&&◌, ◌==◌, Bool-cases,
  if◌then◌else◌, List, [], ◌∷◌, All, All-map, Any, map, map-All, length, arith,
}
use go_dmg_writer.Base.Bytes.{u32}
use go_dmg_writer.Hfsplus.Entry.{Entry, EntryKind, folder, file, symlink, unknown, HfsName}
use go_dmg_writer.Hfsplus.Keys.{unit_bytes}
use go_dmg_writer.Source.Collect.{backfill}
use go_dmg_writer.Source.Collect.Invariant.{
  Ident, ident, SameKey, DistinctKeys, count_if, is_folder, child_of, sub_folder_of,
}

-- Identifiers in a row from `n` on.
abbrev pub InRow : ℕ → List Ident → Type 0
InRow n [] = Unit {0}
InRow n (i ∷ is) = (i.0 ≡ n) × InRow (n + 1) is

-- The root, or a folder of the list.
abbrev pub FolderIn : List Ident → ℕ → Type 0
FolderIn is c = (c ≡ 2) ⊎ Any (λ (i : Ident). (i.0 ≡ c) × (i.2 ≡ folder)) is

-- The entries below the root of a volume that can be mounted.
pub record IsVolume (es : List Entry) : Type 0 where
  pub in_row : InRow 16 (map ident es)
  pub parents : All (λ (i : Ident). FolderIn (map ident es) i.1) (map ident es)
  pub distinct : DistinctKeys es

-- The counters of a folder count its children and its folders.
abbrev pub Counts : List Entry → Entry → Type 0
Counts es e =
    e.kind ≡ folder
    → (e.valence ≡ count_if (child_of e.cnid) es)
      × (e.sub_folder_count ≡ count_if (sub_folder_of e.cnid) es)

backfill-same :
    (v s : ℕ → ℕ) (k : EntryKind) (e : Entry)
    → ((backfill v s k e).cnid ≡ e.cnid)
      × ((backfill v s k e).parent_cnid ≡ e.parent_cnid)
      × ((backfill v s k e).name ≡ e.name)
      × ((backfill v s k e).kind ≡ e.kind)
unfolding backfill
backfill-same v s folder e = (refl, refl, refl, refl)
backfill-same v s file e = (refl, refl, refl, refl)
backfill-same v s symlink e = (refl, refl, refl, refl)
backfill-same v s (unknown n) e = (refl, refl, refl, refl)

backfill-counts :
    (v s : ℕ → ℕ) (k : EntryKind) (e : Entry)
    → k ≡ folder
    → ((backfill v s k e).valence ≡ v e.cnid) × ((backfill v s k e).sub_folder_count ≡ s e.cnid)
unfolding backfill
backfill-counts v s folder e h = (refl, refl)
backfill-counts v s file e h = cc
backfill-counts v s symlink e h = cc
backfill-counts v s (unknown n) e h = cc

count_if-le : {A : Type 0} (f : A → Bool) (xs : List A) → count_if f xs ≤ length xs
count_if-le f [] = omega arith
count_if-le f (x ∷ xs) =
    let rest = count_if-le f xs in
    elim (Bool-cases (f x)) [
      | inl t ↦ rw t (omega (arith, rest))
      | inr n ↦ rw n (omega (arith, rest))
    ]

module _ (v s : ℕ → ℕ) where
  abbrev pub filled : Entry → Entry
  filled e = backfill v s e.kind e

  pub ident-filled : (es : List Entry) → map ident (map filled es) ≡ map ident es
  ident-filled [] = refl
  ident-filled (e ∷ es) =
      let (c, p, n, k) = backfill-same v s e.kind e in λ i. (c i, p i, k i) ∷ ident-filled es i

  count_if-filled :
      (f : Entry → Bool) (es : List Entry)
      → ((e : Entry) → f (filled e) ≡ f e)
      → count_if f (map filled es) ≡ count_if f es
  count_if-filled f [] h = refl
  count_if-filled f (e ∷ es) h =
      ap₂ (λ (b : Bool) (n : ℕ). if b then suc n else n) (h e) (count_if-filled f es h)

  SameKey-filled : (e f : Entry) → SameKey (filled e) (filled f) → SameKey e f
  SameKey-filled e f (parents, names) =
      let (_, p, n, _) = backfill-same v s e.kind e in
      let (_, p', n', _) = backfill-same v s f.kind f in
      (
        sym p ∙ parents ∙ p',
        ap (λ (m : HfsName). unit_bytes m.units) (sym n)
            ∙ names
            ∙ ap (λ (m : HfsName). unit_bytes m.units) n',
      )

  pub DistinctKeys-filled : (es : List Entry) → DistinctKeys es → DistinctKeys (map filled es)
  DistinctKeys-filled [] h = tt
  DistinctKeys-filled (e ∷ es) (here, h) = (
    map-All _ filled es (All-map _ _ es (λ f ne same. ne (SameKey-filled e f same)) here),
    DistinctKeys-filled es h,
  )

  pub Counts-filled :
      (es : List Entry) (e : Entry)
      → length es < 4294967296
      → ((k : ℕ) → v k ≡ u32 (count_if (child_of k) es))
      → ((k : ℕ) → s k ≡ u32 (count_if (sub_folder_of k) es))
      → Counts (map filled es) (filled e)
  Counts-filled es e few counted folders kind_ =
      let (c, p, n, k) = backfill-same v s e.kind e in
      let (valence, subs) = backfill-counts v s e.kind e (sym k ∙ kind_) in
      (
        valence
            ∙ counted e.cnid
            ∙ omega (arith, count_if-le (child_of e.cnid) es)
            ∙ sym (
                count_if-filled (child_of e.cnid) es
                  (λ x. ap (λ (m : ℕ). e.cnid == m) (backfill-same v s x.kind x).1))
            ∙ ap (λ (m : ℕ). count_if (child_of m) (map filled es)) (sym c),
        subs
            ∙ folders e.cnid
            ∙ omega (arith, count_if-le (sub_folder_of e.cnid) es)
            ∙ sym (
                count_if-filled (sub_folder_of e.cnid) es (λ x.
                  ap₂ (λ (m : ℕ) (t : EntryKind). (e.cnid == m) && is_folder t)
                    (backfill-same v s x.kind x).1 (backfill-same v s x.kind x).3))
            ∙ ap (λ (m : ℕ). count_if (sub_folder_of m) (map filled es)) (sym c),
      )
