-- ===== src/Source/Walk/Readable.antt =====
-- `walk` of dmg.go finds a parent for each path: on a tree that can be read, its first pass succeeds.
use go_dmg_writer.Base.{
  ℕ, ◌≡◌, refl, ap, ap₂, ◌∙◌, true, ◌&&◌, ==_iff, Bool-cases, inl, inr, List, [], ◌∷◌, some, Result,
  ok, ◌>>=◌,
}
use go_dmg_writer.Base.Bytes.{Bytes}
use go_dmg_writer.Source.Walk.{
  FileStat, FileKind, link, directory, regular, special, dir_stat, Node, Children, lstat_failed,
  leaf, dir, unreadable, end, child, FilePath, name_lt, insert_child, sort_node, sort_children,
  walk_node, walk_children, walk_sorted,
}
use go_dmg_writer.Source.Scan.{
  Scanning, WalkError, bytes_eq, path_eq, find_parent, scan_kind, with_parent, visit_path,
  scan_start,
}

-- No system call on the tree fails.
unfoldable mutual
  pub IsReadable : Node → Type 0
  IsReadable (lstat_failed e) = ⊥
  IsReadable (leaf i) = Unit {0}
  IsReadable (dir perm size cs) = AreReadable cs
  IsReadable (unreadable perm size e) = ⊥

  pub AreReadable : Children → Type 0
  AreReadable end = Unit {0}
  AreReadable (child n m cs) = IsReadable m × AreReadable cs

insert_child-AreReadable :
    (name : Bytes) (n : Node) (cs : Children)
    → IsReadable n
    → AreReadable cs
    → AreReadable (insert_child name n cs)
unfolding insert_child IsReadable
insert_child-AreReadable name n end r rs = (r, tt)
insert_child-AreReadable name n (child m k cs) r (here, rest) = elim (Bool-cases (name_lt m name)) [
  | inl yes_ ↦ rw yes_ (here, insert_child-AreReadable name n cs r rest)
  | inr no_ ↦ rw no_ (r, (here, rest))
]

mutual
  unfolding sort_node IsReadable

  sort_node-IsReadable : (n : Node) → IsReadable n → IsReadable (sort_node n)
  sort_node-IsReadable (lstat_failed e) r = r
  sort_node-IsReadable (leaf i) r = r
  sort_node-IsReadable (dir perm size cs) r = sort_children-AreReadable cs r
  sort_node-IsReadable (unreadable perm size e) r = r

  sort_children-AreReadable : (cs : Children) → AreReadable cs → AreReadable (sort_children cs)
  sort_children-AreReadable end r = r
  sort_children-AreReadable (child name n cs) (here, rest) =
      insert_child-AreReadable name (sort_node n) (sort_children cs) (sort_node-IsReadable n here)
        (sort_children-AreReadable cs rest)

pub bytes_eq_self : (b : Bytes) → bytes_eq b b ≡ true
unfolding bytes_eq
bytes_eq_self [] = refl
bytes_eq_self (x ∷ b) = ap₂ ◌&&◌ ((==_iff x x).1 refl) (bytes_eq_self b)

path_eq_self : (p : FilePath) → path_eq p p ≡ true
unfolding path_eq
path_eq_self [] = refl
path_eq_self (x ∷ p) = ap₂ ◌&&◌ (bytes_eq_self x) (path_eq_self p)

-- The path is a directory that the first pass has seen.
abbrev HasParent : FilePath → List (FilePath × ℕ) → Type 0
HasParent q m = (c : ℕ) × (find_parent q m ≡ some c)

HasParent-cons :
    (q p : FilePath) (c : ℕ) (m : List (FilePath × ℕ)) → HasParent q m → HasParent q ((p, c) ∷ m)
unfolding find_parent
HasParent-cons q p c m (d, e) = elim (Bool-cases (path_eq q p)) [
  | inl yes_ ↦ (c, rw yes_)
  | inr no_ ↦ (d, rw no_ e)
]

HasParent-self : (p : FilePath) (c : ℕ) (m : List (FilePath × ℕ)) → HasParent p ((p, c) ∷ m)
unfolding find_parent
HasParent-self p c m = (c, rw (path_eq_self p))

-- A step that succeeds and keeps the directories that were seen.
abbrev Succeeds : Scanning → Result WalkError Scanning → Type 0
Succeeds s r =
    (s' : Scanning) × (r ≡ ok s')
    × ((q : FilePath) → HasParent q s.parent_map → HasParent q s'.parent_map)

scan_kind-keeps :
    (s : Scanning) (path : FilePath) (parent : ℕ) (i : FileStat) (k : FileKind) (q : FilePath)
    → HasParent q s.parent_map
    → HasParent q (scan_kind s path parent i k).parent_map
unfolding scan_kind
scan_kind-keeps s path parent i link q h = h
scan_kind-keeps s path parent i directory q h = HasParent-cons q path s.next_cnid s.parent_map h
scan_kind-keeps s path parent i regular q h = h
scan_kind-keeps s path parent i special q h = h

visit_path-Succeeds :
    (s : Scanning) (name : Bytes) (above : FilePath) (i : FileStat)
    → HasParent above s.parent_map
    → (s' : Scanning) × (visit_path s (name ∷ above) (ok i) ≡ ok s')
      × ((q : FilePath) → HasParent q s.parent_map → HasParent q s'.parent_map)
      × (i.kind ≡ directory → HasParent (name ∷ above) s'.parent_map)
unfolding visit_path scan_kind
visit_path-Succeeds s name above i (c, found) = (
  scan_kind s (name ∷ above) c i i.kind,
  ap (with_parent s (name ∷ above) i) found,
  scan_kind-keeps s (name ∷ above) c i i.kind,
  λ e. rw e (HasParent-self (name ∷ above) s.next_cnid s.parent_map),
)

then-Succeeds :
    (s s' : Scanning) (r : Result WalkError Scanning) (f : Scanning → Result WalkError Scanning)
    → r ≡ ok s'
    → ((q : FilePath) → HasParent q s.parent_map → HasParent q s'.parent_map)
    → Succeeds s' (f s')
    → Succeeds s (r >>= f)
then-Succeeds s s' r f e keeps (s'', e', keeps') =
    (s'', ap (λ (x : Result WalkError Scanning). x >>= f) e ∙ e', λ q h. keeps' q (keeps q h))

mutual
  unfolding walk_node IsReadable

  -- Below a directory that was seen.
  child-Succeeds :
      (s : Scanning) (name : Bytes) (above : FilePath) (n : Node)
      → IsReadable n
      → HasParent above s.parent_map
      → Succeeds s (walk_node visit_path s (name ∷ above) n)
  child-Succeeds s name above (lstat_failed e) r h = absurd r
  child-Succeeds s name above (unreadable perm size e) r h = absurd r
  child-Succeeds s name above (leaf i) r h =
      let (s', e, keeps, _) = visit_path-Succeeds s name above i h in (s', e, keeps)
  child-Succeeds s name above (dir perm size cs) r h =
      let (s', e, keeps, seen) = visit_path-Succeeds s name above (dir_stat perm size) h in
      then-Succeeds s s' _ (λ (x : Scanning). walk_children visit_path x (name ∷ above) cs) e keeps
        (children-Succeeds s' (name ∷ above) cs r (seen refl))

  children-Succeeds :
      (s : Scanning) (path : FilePath) (cs : Children)
      → AreReadable cs
      → HasParent path s.parent_map
      → Succeeds s (walk_children visit_path s path cs)
  children-Succeeds s path end r h = (s, refl, λ q k. k)
  children-Succeeds s path (child name n cs) (here, rest) h =
      let (s', e, keeps) = child-Succeeds s name path n here h in
      then-Succeeds s s' _ (λ (x : Scanning). walk_children visit_path x path cs) e keeps
        (children-Succeeds s' path cs rest (keeps path h))

root-Succeeds :
    (s : Scanning) (n : Node)
    → IsReadable n
    → HasParent [] s.parent_map
    → Succeeds s (walk_node visit_path s [] n)
unfolding walk_node IsReadable visit_path
root-Succeeds s (lstat_failed e) r h = absurd r
root-Succeeds s (unreadable perm size e) r h = absurd r
root-Succeeds s (leaf i) r h = (s, refl, λ q k. k)
root-Succeeds s (dir perm size cs) r h = children-Succeeds s [] cs r h

-- On a tree on which no system call fails, the first pass of `walk` returns: each path below the root
-- finds the identifier of its directory, so the error of a path without a parent never occurs.
pub walk_sorted-visit_path :
    (tree : Node)
    → IsReadable tree
    → (s : Scanning) × (walk_sorted visit_path scan_start tree ≡ ok s)
unfolding walk_sorted find_parent path_eq
walk_sorted-visit_path tree r =
    let (s, e, _) =
      root-Succeeds scan_start (sort_node tree) (sort_node-IsReadable tree r) (2, refl) in
    (s, e)
