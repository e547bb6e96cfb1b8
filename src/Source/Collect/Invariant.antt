-- ===== src/Source/Collect/Invariant.antt =====
-- What the second pass of `walk` in dmg.go keeps, over the entries that it has appended.
use mathlib.Core.Path.{subst}
use mathlib.Core.List.{append_assoc, append-nil}
use go_dmg_writer.Base.{
  ℕ, suc, ◌+◌, ◌≡◌, ◌≢◌, refl, sym, ap, ap₂, ◌∙◌, inl, inr, Bool, true, false, ◌&&◌, Bool-cases,
  ◌==◌, ==_iff, if◌then◌else◌, List, [], ◌∷◌, ◌++◌, All, All-snoc, All-map, none, some, map,
  map-snoc, Result, ok, ok-injective, bind-ok, arith,
}
use go_dmg_writer.Base.Bytes.{Bytes, u32}
use go_dmg_writer.Hfsplus.Attr.{Attr}
use go_dmg_writer.Hfsplus.Entry.{Entry, EntryKind, folder, file, symlink, unknown}
use go_dmg_writer.Hfsplus.Keys.{unit_bytes}
use go_dmg_writer.Source.Walk.{OsError, FileKind, link, directory, regular, special, FilePath}
use go_dmg_writer.Source.Scan.{Pending, bytes_eq}
use go_dmg_writer.Source.Walk.Readable.{bytes_eq_self}
use go_dmg_writer.Source.Collect.{
  Claim, find_claim, Collected, collect_one, collect_all, collect_start,
}
use go_dmg_writer.Source.Collect.Steps.{IsRound, kind_of, bump_if, collect_one-IsRound}

abbrev pub Ident : Type 0
Ident = ℕ × ℕ × EntryKind

-- The identifier, the parent and the kind of an entry, and those of the path it is made from.
abbrev pub ident : Entry → Ident
ident e = (e.cnid, e.parent_cnid, e.kind)

abbrev pub pending_ident : Pending → Ident
pending_ident p = (p.cnid, p.parent, kind_of p.info.kind)

-- The catalog keys of the entries are equal.
abbrev pub SameKey : Entry → Entry → Type 0
SameKey e f = (e.parent_cnid ≡ f.parent_cnid) × (unit_bytes e.name.units ≡ unit_bytes f.name.units)

abbrev pub DistinctKeys : List Entry → Type 0
DistinctKeys [] = Unit {0}
DistinctKeys (e ∷ es) = All (λ (f : Entry). ¬ SameKey e f) es × DistinctKeys es

abbrev pub count_if : {A : Type 0} → (A → Bool) → List A → ℕ
count_if f [] = 0
count_if f (x ∷ xs) = if f x then suc (count_if f xs) else count_if f xs

abbrev pub is_folder : EntryKind → Bool
is_folder folder = true
is_folder file = false
is_folder symlink = false
is_folder (unknown k) = false

abbrev pub child_of : ℕ → Entry → Bool
child_of k e = k == e.parent_cnid

abbrev pub sub_folder_of : ℕ → Entry → Bool
sub_folder_of k e = (k == e.parent_cnid) && is_folder e.kind

DistinctKeys-snoc :
    (es : List Entry) (f : Entry)
    → DistinctKeys es
    → All (λ (e : Entry). ¬ SameKey e f) es
    → DistinctKeys (es ++ (f ∷ []))
DistinctKeys-snoc [] f d h = (tt, tt)
DistinctKeys-snoc (e ∷ es) f (here, d) (ne, h) =
    (All-snoc _ es f ne here, DistinctKeys-snoc es f d h)

count_if-snoc :
    {A : Type 0} (f : A → Bool) (xs : List A) (x : A)
    → count_if f (xs ++ (x ∷ [])) ≡ count_if f xs + (if f x then 1 else 0)
count_if-snoc f [] x = elim (Bool-cases (f x)) [ inl t ↦ rw t | inr n ↦ rw n ]
count_if-snoc f (y ∷ xs) x =
    let rest = count_if-snoc f xs x in
    elim (Bool-cases (f y)) [ inl t ↦ rw t (omega (arith, rest)) | inr n ↦ rw n rest ]

-- The key of the entry is among the claims.
abbrev Claimed : List Claim → Entry → Type 0
Claimed cs e = (p : FilePath) × (find_claim e.parent_cnid (unit_bytes e.name.units) cs ≡ some p)

Claimed-cons : (c : Claim) (cs : List Claim) (e : Entry) → Claimed cs e → Claimed (c ∷ cs) e
unfolding find_claim
Claimed-cons c cs e (p, found) =
    elim (Bool-cases (e.parent_cnid == c.parent && bytes_eq (unit_bytes e.name.units) c.name)) [
      | inl yes_ ↦ (c.path, rw yes_)
      | inr no_ ↦ (p, rw no_ found)
    ]

Claimed-self :
    (path : FilePath) (cs : List Claim) (e : Entry)
    → Claimed
        (record { parent = e.parent_cnid; name = unit_bytes e.name.units; path = path } ∷ cs)
        e
unfolding find_claim
Claimed-self path cs e =
    let key : (e.parent_cnid == e.parent_cnid
          && bytes_eq (unit_bytes e.name.units) (unit_bytes e.name.units))
        ≡ true =
      ap₂ ◌&&◌ ((==_iff e.parent_cnid e.parent_cnid).1 refl)
        (bytes_eq_self (unit_bytes e.name.units)) in
    (path, rw key)

-- A key that is free is that of no claimed entry.
fresh-SameKey :
    (cs : List Claim) (f e : Entry)
    → find_claim f.parent_cnid (unit_bytes f.name.units) cs ≡ none
    → Claimed cs e
    → ¬ SameKey e f
fresh-SameKey cs f e free (p, found) (parents, names) =
    let same : find_claim e.parent_cnid (unit_bytes e.name.units) cs
        ≡ find_claim f.parent_cnid (unit_bytes f.name.units) cs =
      ap₂ (λ (n : ℕ) (b : Bytes). find_claim n b cs) parents names in
    cc

pub record IsCollected (root : Entry) (ps : List Pending) (c : Collected) : Type 0 where
  pub es : List Entry
  pub entries : c.out.entries ≡ root ∷ es
  pub same : map ident es ≡ map pending_ident ps
  pub covered : All (Claimed c.claimed) es
  pub distinct : DistinctKeys es
  pub counted : (k : ℕ) → c.valence k ≡ u32 (count_if (child_of k) es)
  pub folders : (k : ℕ) → c.sub_folders k ≡ u32 (count_if (sub_folder_of k) es)

-- A counter in uint32 that a new entry may add to.
count_grows :
    (f : Entry → Bool) (es : List Entry) (e : Entry) (m : ℕ) (b : Bool)
    → f e ≡ b
    → m ≡ u32 (count_if f es)
    → (if b then u32 (m + 1) else m) ≡ u32 (count_if f (es ++ (e ∷ [])))
count_grows f es e m true fe h =
    let n : count_if f (es ++ (e ∷ [])) ≡ count_if f es + 1 =
      count_if-snoc f es e ∙ ap (λ (b : Bool). count_if f es + (if b then 1 else 0)) fe in
    omega (arith, n)
count_grows f es e m false fe h =
    let n : count_if f (es ++ (e ∷ [])) ≡ count_if f es + 0 =
      count_if-snoc f es e ∙ ap (λ (b : Bool). count_if f es + (if b then 1 else 0)) fe in
    omega (arith, n)

and_false : (b : Bool) → (b && false) ≡ false
and_false true = refl
and_false false = refl

and_true : (b : Bool) → (b && true) ≡ b
and_true true = refl
and_true false = refl

bump_if_lem :
    (kind : FileKind) (m : ℕ → ℕ) (parent : ℕ) (es : List Entry) (e : Entry) (k : ℕ)
    → kind ≢ special
    → e.parent_cnid ≡ parent
    → e.kind ≡ kind_of kind
    → m k ≡ u32 (count_if (sub_folder_of k) es)
    → bump_if kind m parent k ≡ u32 (count_if (sub_folder_of k) (es ++ (e ∷ [])))
bump_if_lem special m parent es e k ne same kind h = absurd (ne refl)
bump_if_lem link m parent es e k ne same kind h =
    count_grows (sub_folder_of k) es e (m k) false
      (ap (λ (t : EntryKind). (k == e.parent_cnid) && is_folder t) kind
        ∙ and_false (k == e.parent_cnid))
      h
bump_if_lem regular m parent es e k ne same kind h =
    count_grows (sub_folder_of k) es e (m k) false
      (ap (λ (t : EntryKind). (k == e.parent_cnid) && is_folder t) kind
        ∙ and_false (k == e.parent_cnid))
      h
bump_if_lem directory m parent es e k ne same kind h =
    count_grows (sub_folder_of k) es e (m k) (k == parent)
      (ap (λ (t : EntryKind). (k == e.parent_cnid) && is_folder t) kind
        ∙ and_true (k == e.parent_cnid)
        ∙ ap (λ (n : ℕ). k == n) same)
      h

IsRound-IsCollected :
    (root : Entry) (ps : List Pending) (c : Collected) (p : Pending) (c' : Collected)
    → p.info.kind ≢ special
    → IsCollected root ps c
    → IsRound c p c'
    → IsCollected root (ps ++ (p ∷ [])) c'
IsRound-IsCollected root ps c p c' ne h r =
    let e = r.entry in
    record {
      es = h.es ++ (e ∷ []);
      entries = r.appended ∙ ap (λ (l : List Entry). l ++ (e ∷ [])) h.entries;
      same =
          map-snoc ident h.es e
          ∙ ap₂ (λ (l : List Ident) (i : Ident). l ++ (i ∷ [])) h.same
              (λ i. (r.same_cnid i, r.same_parent i, r.same_kind i))
          ∙ sym (map-snoc pending_ident ps p);
      covered =
          subst (λ (cs : List Claim). All (Claimed cs) (h.es ++ (e ∷ []))) (sym r.claims)
            (All-snoc _ h.es e (Claimed-self p.path c.claimed e)
              (All-map _ _ h.es (Claimed-cons _ c.claimed) h.covered));
      distinct =
          DistinctKeys-snoc h.es e h.distinct
            (All-map _ _ h.es (λ f. fresh-SameKey c.claimed e f r.fresh) h.covered);
      counted = λ k.
          ap (λ (m : ℕ → ℕ). m k) r.counted
          ∙ count_grows (child_of k) h.es e (c.valence k) (k == p.parent)
              (ap (λ (n : ℕ). k == n) r.same_parent) (h.counted k);
      folders = λ k.
          ap (λ (m : ℕ → ℕ). m k) r.folders
          ∙ bump_if_lem p.info.kind c.sub_folders p.parent h.es e k ne r.same_parent r.same_kind
              (h.folders k);
    }

module _ (nfd_runes : Bytes → List ℕ) (readlink : FilePath → Result OsError Bytes)
    (read_xattrs : FilePath → ℕ → Result OsError (List Attr)) (mac_time owner_id group_id : ℕ) where
  collect_all-IsCollected :
      (root : Entry) (ps qs : List Pending) (c : Collected) {c' : Collected}
      → All (λ (p : Pending). p.info.kind ≢ special) qs
      → IsCollected root ps c
      → collect_all nfd_runes readlink read_xattrs mac_time owner_id group_id c qs ≡ ok c'
      → IsCollected root (ps ++ qs) c'
  unfolding collect_all
  collect_all-IsCollected root ps [] c {c'} plain h done =
      subst (λ (l : List Pending). IsCollected root l c') (sym (append-nil ps))
        (subst (IsCollected root ps) (ok-injective done) h)
  collect_all-IsCollected root ps (q ∷ qs) c {c'} (ne, plain) h done =
      let (mid, first, rest) =
        bind-ok (collect_one nfd_runes readlink read_xattrs mac_time owner_id group_id c q) _
          done in
      let round =
        collect_one-IsRound nfd_runes readlink read_xattrs mac_time owner_id group_id c q ne
          first in
      subst (λ (l : List Pending). IsCollected root l c') (append_assoc ps (q ∷ []) qs)
        (collect_all-IsCollected root (ps ++ (q ∷ [])) qs mid plain
          (IsRound-IsCollected root ps c q mid ne h round) rest)

  pub collected-IsCollected :
      (root : Entry) (ps : List Pending) {c : Collected}
      → All (λ (p : Pending). p.info.kind ≢ special) ps
      → collect_all nfd_runes readlink read_xattrs mac_time owner_id group_id
          (collect_start root)
          ps
        ≡ ok c
      → IsCollected root ps c
  collected-IsCollected root ps plain done =
      collect_all-IsCollected root [] ps _ plain
        (record {
          es = [];
          entries = refl;
          same = refl;
          covered = tt;
          distinct = tt;
          counted = λ k. refl;
          folders = λ k. refl;
        })
        done
