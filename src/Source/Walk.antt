-- ===== src/Source/Walk.antt =====
-- `walkSorted` and `walkDir` of dmg.go over a directory tree, which stands for what `os.Lstat` and
-- `os.ReadDir` report while the walk runs.
pub mod Preserves
pub mod Readable
use go_dmg_writer.Base.{
  ℕ, Bool, true, false, List, [], ◌∷◌, Result, ok, err, ◌>>=◌, ltb, if◌then◌else◌,
}
use go_dmg_writer.Base.Bytes.{Bytes}

-- An error of the operating system.
pub record OsError : Type 0 where
  pub code : ℕ

-- What the code asks of `os.FileInfo.Mode`, in the order of its switch; `special` is a socket, a
-- device or a fifo.
pub data FileKind : Type 0 where
  link directory regular special : FileKind

pub record FileStat : Type 0 where
  pub kind : FileKind
  pub perm : ℕ
  pub size : ℕ

-- A directory with this mode and size, as `os.Lstat` reports it.
abbrev pub dir_stat : ℕ → ℕ → FileStat
dir_stat perm size = record { kind = directory; perm = perm; size = size }

-- A file as `os.Lstat` reports it, or its error; a directory has its mode and its size with what
-- `os.ReadDir` reports, and one without entries may be a leaf.
mutual
  pub data Node : Type 0 where
    lstat_failed : OsError → Node
    leaf : FileStat → Node
    dir : ℕ → ℕ → Children → Node
    unreadable : ℕ → ℕ → OsError → Node

  pub data Children : Type 0 where
    end : Children
    child : Bytes → Node → Children → Children

-- A path below the root as its components, the last one first: `filepath.Base` is the head,
-- `filepath.Dir` the tail, and the root is empty.
abbrev pub FilePath : Type 0
FilePath = List Bytes

-- Go's `<` on strings.
unfoldable pub name_lt : Bytes → Bytes → Bool
name_lt [] [] = false
name_lt [] (y ∷ ys) = true
name_lt (x ∷ xs) [] = false
name_lt (x ∷ xs) (y ∷ ys) =
    let rest = name_lt xs ys in if ltb x y then true else if ltb y x then false else rest

-- The `sort.Slice` of `walkDir`, by names, which differ within a directory.
unfoldable pub insert_child : Bytes → Node → Children → Children
unfolding name_lt
insert_child name node end = child name node end
insert_child name node (child n m cs) =
    let rest = insert_child name node cs in
    if name_lt n name then child n m rest else child name node (child n m cs)

-- Each directory of the tree with its entries sorted. The code sorts a directory when it comes to it.
unfoldable mutual
  unfolding insert_child

  pub sort_node : Node → Node
  sort_node (lstat_failed e) = lstat_failed e
  sort_node (leaf i) = leaf i
  sort_node (dir perm size cs) = dir perm size (sort_children cs)
  sort_node (unreadable perm size e) = unreadable perm size e

  pub sort_children : Children → Children
  sort_children end = end
  sort_children (child n m cs) = insert_child n (sort_node m) (sort_children cs)

-- The walk over a sorted tree; the variables that the visitor has captured are its state.
module _ {S E : Type 0} (visit : S → FilePath → Result OsError FileStat → Result E S) where
  unfoldable mutual
    pub walk_node : S → FilePath → Node → Result E S
    walk_node s path (lstat_failed e) = visit s path (err e)
    walk_node s path (leaf i) = visit s path (ok i)
    walk_node s path (dir perm size cs) =
        visit s path (ok (dir_stat perm size)) >>= λ s'. walk_children s' path cs
    walk_node s path (unreadable perm size e) =
        visit s path (ok (dir_stat perm size)) >>= λ s'. visit s' path (err e)

    pub walk_children : S → FilePath → Children → Result E S
    walk_children s path end = ok s
    walk_children s path (child n m cs) =
        walk_node s (n ∷ path) m >>= λ s'. walk_children s' path cs

  -- `walkSorted`
  unfoldable pub walk_sorted : S → Node → Result E S
  unfolding walk_node sort_node
  walk_sorted s root = walk_node s [] (sort_node root)
