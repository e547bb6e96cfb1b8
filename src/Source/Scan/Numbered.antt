-- ===== src/Source/Scan/Numbered.antt =====
-- What the first pass of `walk` in dmg.go keeps: identifiers in a row, and parents that are folders.
use mathlib.Core.Path.{subst}
use mathlib.Core.Option.{some-injective}
use go_dmg_writer.Base.{
  ℕ, ◌+◌, ◌≡◌, ◌≢◌, refl, sym, ◌⊎◌, inl, inr, Bool-cases, List, [], ◌∷◌, ◌++◌, All, All-snoc,
  All-map, Any, Any-append_left, Any-append_right, Option-cases, none, some, Result, ok, err,
  ok-injective, length, length-append, length-map, map, map-snoc, arith,
}
use go_dmg_writer.Base.Bytes.{u32}
use go_dmg_writer.Source.Walk.{
  OsError, FileStat, FileKind, link, directory, regular, special, Node, FilePath, walk_sorted,
}
use go_dmg_writer.Source.Walk.Preserves.{walk_sorted-preserves}
use go_dmg_writer.Source.Scan.{
  Pending, Scanning, path_eq, find_parent, put_off, scan_kind, with_parent, visit_path, scan_start,
}

-- Identifiers in a row from `n` on, in uint32.
abbrev pub NumberedFrom : ℕ → List ℕ → Type 0
NumberedFrom n [] = Unit {0}
NumberedFrom n (c ∷ cs) = (c ≡ u32 n) × NumberedFrom (n + 1) cs

NumberedFrom-snoc :
    (n : ℕ) (cs : List ℕ) (c : ℕ)
    → NumberedFrom n cs
    → c ≡ u32 (n + length cs)
    → NumberedFrom n (cs ++ (c ∷ []))
NumberedFrom-snoc n [] c h e = (omega arith, tt)
NumberedFrom-snoc n (d ∷ cs) c (here, h) e = (here, NumberedFrom-snoc (n + 1) cs c h (omega arith))

abbrev pub IsDirectory : ℕ → Pending → Type 0
IsDirectory c p = (p.cnid ≡ c) × (p.info.kind ≡ directory)

-- The root, or a directory among those that are pending.
abbrev pub IsFolderOf : List Pending → ℕ → Type 0
IsFolderOf ps c = (c ≡ 2) ⊎ Any (IsDirectory c) ps

IsFolderOf-snoc :
    (ps : List Pending) (p : Pending) (c : ℕ) → IsFolderOf ps c → IsFolderOf (ps ++ (p ∷ [])) c
IsFolderOf-snoc ps p c (inl root) = inl root
IsFolderOf-snoc ps p c (inr h) = inr (Any-append_left (IsDirectory c) ps (p ∷ []) h)

pub record IsScanning (s : Scanning) : Type 0 where
  pub numbered : NumberedFrom 16 (map (λ (p : Pending). p.cnid) s.pending)
  pub next : s.next_cnid ≡ u32 (16 + length s.pending)
  pub known : All (λ (m : FilePath × ℕ). IsFolderOf s.pending m.1) s.parent_map
  pub parents : All (λ (p : Pending). IsFolderOf s.pending p.parent) s.pending
  pub plain : All (λ (p : Pending). p.info.kind ≢ special) s.pending

find_parent-All :
    (P : ℕ → Type 0) (path : FilePath) (m : List (FilePath × ℕ)) {c : ℕ}
    → All (λ (e : FilePath × ℕ). P e.1) m
    → find_parent path m ≡ some c
    → P c
unfolding find_parent
find_parent-All P path [] h e = cc
find_parent-All P path ((p, cnid) ∷ m) (here, h) e = elim (Bool-cases (path_eq path p)) [
  | inl yes_ ↦ subst P (some-injective _ _ (rw yes_ at e)) here
  | inr no_ ↦ find_parent-All P path m h (rw no_ at e)
]

put_off-IsScanning :
    (s : Scanning) (path : FilePath) (parent : ℕ) (i : FileStat)
    → IsFolderOf s.pending parent
    → i.kind ≢ special
    → IsScanning s
    → IsScanning (put_off s path parent i)
put_off-IsScanning s path parent i folder_ plain_ h =
    let p : Pending = record { path = path; cnid = s.next_cnid; parent = parent; info = i } in
    let cnids = map (λ (q : Pending). q.cnid) s.pending in
    let count : length cnids ≡ length s.pending = length-map s.pending (λ (q : Pending). q.cnid) in
    let grown : (c : ℕ) → IsFolderOf s.pending c → IsFolderOf (s.pending ++ (p ∷ [])) c =
      IsFolderOf-snoc s.pending p in
    record {
      numbered =
          subst (NumberedFrom 16) (sym (map-snoc (λ (q : Pending). q.cnid) s.pending p))
            (NumberedFrom-snoc 16 cnids s.next_cnid h.numbered (omega (arith, h.next)));
      next = omega (arith, h.next, length-append s.pending (p ∷ []));
      known = All-map _ _ s.parent_map (λ m. grown m.1) h.known;
      parents =
          All-snoc _ s.pending p (grown parent folder_)
            (All-map _ _ s.pending (λ q. grown q.parent) h.parents);
      plain = All-snoc _ s.pending p plain_ h.plain;
    }

scan_kind-IsScanning :
    (s : Scanning) (path : FilePath) (parent : ℕ) (i : FileStat) (k : FileKind)
    → i.kind ≡ k
    → IsFolderOf s.pending parent
    → IsScanning s
    → IsScanning (scan_kind s path parent i k)
unfolding scan_kind
scan_kind-IsScanning s path parent i link e folder_ h =
    put_off-IsScanning s path parent i folder_ (λ f. cc) h
scan_kind-IsScanning s path parent i regular e folder_ h =
    put_off-IsScanning s path parent i folder_ (λ f. cc) h
scan_kind-IsScanning s path parent i special e folder_ h = h
scan_kind-IsScanning s path parent i directory e folder_ h =
    let kept = put_off-IsScanning s path parent i folder_ (λ f. cc) h in
    record {
      numbered = kept.numbered;
      next = kept.next;
      known = (
        inr (Any-append_right (IsDirectory s.next_cnid) s.pending _ (inl (refl, e))),
        kept.known,
      );
      parents = kept.parents;
      plain = kept.plain;
    }

visit_path-IsScanning :
    (s : Scanning) (path : FilePath) (r : Result OsError FileStat) (s' : Scanning)
    → IsScanning s
    → visit_path s path r ≡ ok s'
    → IsScanning s'
unfolding visit_path
visit_path-IsScanning s path (err x) s' h e = cc
visit_path-IsScanning s [] (ok i) s' h e = subst IsScanning (ok-injective e) h
visit_path-IsScanning s (name ∷ above) (ok i) s' h e =
    elim (Option-cases (find_parent above s.parent_map)) [
      | inl none_ ↦
          absurd (let e' : with_parent s (name ∷ above) i none ≡ ok s' = (rw none_ at e) in cc)
      | inr (parent, some_) ↦
          let e' : with_parent s (name ∷ above) i (some parent) ≡ ok s' = (rw some_ at e) in
          subst IsScanning (ok-injective e') (
            scan_kind-IsScanning s (name ∷ above) parent i i.kind refl
              (find_parent-All (IsFolderOf s.pending) above s.parent_map h.known some_) h)
    ]

pub scanned-IsScanning :
    (tree : Node) {s : Scanning} → walk_sorted visit_path scan_start tree ≡ ok s → IsScanning s
scanned-IsScanning tree done =
    let start : IsScanning scan_start = record {
      numbered = tt;
      next = refl;
      known = (inl refl, tt);
      parents = tt;
      plain = tt;
    } in
    walk_sorted-preserves visit_path IsScanning visit_path-IsScanning scan_start tree start done
