-- ===== src/Source/Walk/Preserves.antt =====
-- What every visit of `walkSorted` in dmg.go preserves, the walk preserves.
use go_dmg_writer.Base.{◌≡◌, ◌∷◌, [], Result, ok, err, bind-ok, ok-injective}
use mathlib.Core.Path.{subst}
use go_dmg_writer.Source.Walk.{
  OsError, FileStat, dir_stat, Node, Children, lstat_failed, leaf, dir, unreadable, end, child,
  FilePath, walk_node, walk_children, sort_node, walk_sorted,
}

module _ {S E : Type 0} (visit : S → FilePath → Result OsError FileStat → Result E S)
    (P : S → Type 0)
    (step : (s : S) (path : FilePath) (r : Result OsError FileStat) (s' : S)
      → P s
      → visit s path r ≡ ok s'
      → P s') where
  mutual
    unfolding walk_node

    walk_node-preserves :
        (s : S) (path : FilePath) (n : Node) {s' : S}
        → P s
        → walk_node visit s path n ≡ ok s'
        → P s'
    walk_node-preserves s path (lstat_failed e) p done = step s path (err e) _ p done
    walk_node-preserves s path (leaf i) p done = step s path (ok i) _ p done
    walk_node-preserves s path (dir perm size cs) p done =
        let (mid, first, rest) = bind-ok (visit s path (ok (dir_stat perm size))) _ done in
        walk_children-preserves mid path cs (step s path (ok (dir_stat perm size)) _ p first) rest
    walk_node-preserves s path (unreadable perm size e) p done =
        let (mid, first, rest) = bind-ok (visit s path (ok (dir_stat perm size))) _ done in
        step mid path (err e) _ (step s path (ok (dir_stat perm size)) _ p first) rest

    walk_children-preserves :
        (s : S) (path : FilePath) (cs : Children) {s' : S}
        → P s
        → walk_children visit s path cs ≡ ok s'
        → P s'
    walk_children-preserves s path end p done = subst P (ok-injective done) p
    walk_children-preserves s path (child n m cs) p done =
        let (mid, first, rest) = bind-ok (walk_node visit s (n ∷ path) m) _ done in
        walk_children-preserves mid path cs (walk_node-preserves s (n ∷ path) m p first) rest

  pub walk_sorted-preserves :
      (s : S) (root : Node) {s' : S} → P s → walk_sorted visit s root ≡ ok s' → P s'
  unfolding walk_sorted
  walk_sorted-preserves s root p done = walk_node-preserves s [] (sort_node root) p done
