-- ===== src/Source/Collect/Numbered.antt =====
-- The entries that `walk` of dmg.go returns.
use mathlib.Core.Path.{subst}
use mathlib.Core.Option.{some-injective}
use go_dmg_writer.Base.{
  ℕ, suc, ◌+◌, ◌<◌, ◌≤◌, ◌≡◌, refl, sym, ap, ◌∙◌, inl, inr, Bool-cases, ltb, List, [], ◌∷◌, All,
  All-map, map, map-All, map-Any, Any-map, length, length-map, Option, Option-cases, none, some, ok,
  Result, bind-ok, ok-injective, arith,
}
use go_dmg_writer.Base.Bytes.{Bytes}
use go_dmg_writer.Hfsplus.Attr.{Attr}
use go_dmg_writer.Hfsplus.Entry.{Entry, folder, HfsName}
use go_dmg_writer.Source.Walk.{OsError, Node, FilePath, walk_sorted}
use go_dmg_writer.Source.Scan.{
  Pending, Scanning, ScanResult, visit_path, scan_start, new_folder_entry,
}
use go_dmg_writer.Source.Scan.Numbered.{NumberedFrom, IsFolderOf, IsDirectory, scanned-IsScanning}
use go_dmg_writer.Hfsplus.Utf16.{encode_utf16}
use go_dmg_writer.Source.Collect.{
  Collected, new_name, backfill, finish_walk, collect_start, collect_all, with_root, walk,
}
use go_dmg_writer.Source.Collect.Steps.{kind_of}
use go_dmg_writer.Source.Collect.Invariant.{
  Ident, ident, pending_ident, DistinctKeys, collected-IsCollected,
}
use go_dmg_writer.Source.Collect.Filled.{
  InRow, FolderIn, IsVolume, Counts, filled, ident-filled, DistinctKeys-filled, Counts-filled,
}

InRow-NumberedFrom :
    (n : ℕ) (is : List Ident)
    → n + length is ≤ 4294967296
    → NumberedFrom n (map (λ (i : Ident). i.0) is)
    → InRow n is
InRow-NumberedFrom n [] few h = tt
InRow-NumberedFrom n (i ∷ is) few (here, h) =
    (omega arith, InRow-NumberedFrom (n + 1) is (omega arith) h)

map-map :
    {A B C : Type 0} (f : A → B) (g : B → C) (xs : List A)
    → map g (map f xs) ≡ map (λ (x : A). g (f x)) xs
map-map f g [] = refl
map-map f g (x ∷ xs) = ap (◌∷◌ (g (f x))) (map-map f g xs)

FolderIn-IsFolderOf :
    (ps : List Pending) (c : ℕ) → IsFolderOf ps c → FolderIn (map pending_ident ps) c
FolderIn-IsFolderOf ps c (inl root) = inl root
FolderIn-IsFolderOf ps c (inr h) = inr (
    map-Any (λ (i : Ident). (i.0 ≡ c) × (i.2 ≡ folder)) pending_ident ps
      (Any-map (IsDirectory c) _ ps (λ p (id, kind). (id, ap kind_of kind)) h))

all_of : {A : Type 0} (P : A → Type 0) (xs : List A) → ((x : A) → P x) → All P xs
all_of P [] h = tt
all_of P (x ∷ xs) h = (h x, all_of P xs h)

new_name-units :
    (nfd_runes : Bytes → List ℕ) (s : Bytes) (name : HfsName)
    → new_name nfd_runes s ≡ some name
    → name.units ≡ encode_utf16 (nfd_runes s)
unfolding new_name
new_name-units nfd_runes s name e =
    elim (Bool-cases (ltb 255 (length (encode_utf16 (nfd_runes s))))) [
      | inl long ↦ let e' : ◌≡◌ {A = Option HfsName} none (some name) = rw long at e in cc
      | inr short ↦
          let e' : ◌≡◌ {A = Option HfsName} (some (record { units = encode_utf16 (nfd_runes s) }))
              (some name) =
            rw short at e in
          ap (λ (n : HfsName). n.units) (sym (some-injective _ _ e'))
    ]

-- From the paths of the first pass to the entries whose counters are filled in.
filled-IsVolume :
    (v s : ℕ → ℕ) (es : List Entry) (ps : List Pending)
    → length es < 4294967280
    → map ident es ≡ map pending_ident ps
    → DistinctKeys es
    → NumberedFrom 16 (map (λ (p : Pending). p.cnid) ps)
    → All (λ (p : Pending). IsFolderOf ps p.parent) ps
    → IsVolume (map (filled v s) es)
filled-IsVolume v s es ps few same distinct numbered parents =
    let idents : map ident (map (filled v s) es) ≡ map pending_ident ps =
      ident-filled v s es ∙ same in
    let size : length (map pending_ident ps) ≡ length es =
      ap length (sym same) ∙ length-map es ident in
    record {
      in_row = subst (InRow 16) (sym idents) (
          InRow-NumberedFrom 16 (map pending_ident ps) (omega (arith, size)) (
            subst (NumberedFrom 16) (sym (map-map pending_ident (λ (i : Ident). i.0) ps))
              numbered));
      parents =
          subst (λ (is : List Ident). All (λ (i : Ident). FolderIn is i.1) is) (sym idents)
            (map-All _ pending_ident ps
              (All-map _ _ ps (λ p. FolderIn-IsFolderOf ps p.parent) parents));
      distinct = DistinctKeys-filled v s es distinct;
    }

module _ (nfd_runes : Bytes → List ℕ) (readlink : FilePath → Result OsError Bytes)
    (read_xattrs : FilePath → ℕ → Result OsError (List Attr)) (mac_time owner_id group_id : ℕ) where
  -- The root entry, as `walk` makes it.
  abbrev root_entry : HfsName → Entry
  root_entry name = new_folder_entry 2 1 name mac_time owner_id group_id 0x1ed

  walk-passes :
      (tree : Node) (volume_name : Bytes) {r : ScanResult}
      → walk nfd_runes readlink read_xattrs mac_time owner_id group_id tree volume_name ≡ ok r
      → (name : HfsName) × (s : Scanning) × (c : Collected) × (new_name nfd_runes volume_name
          ≡ some name)
        × (walk_sorted visit_path scan_start tree ≡ ok s)
        × (collect_all nfd_runes readlink read_xattrs mac_time owner_id group_id
              (collect_start (root_entry name))
              s.pending
            ≡ ok c)
        × (finish_walk c ≡ r)
  unfolding walk
  walk-passes tree volume_name {r} done = elim (Option-cases (new_name nfd_runes volume_name)) [
    | inl none_ ↦ absurd (
        let e : with_root nfd_runes readlink read_xattrs mac_time owner_id group_id tree volume_name
              none
            ≡ ok r =
          (rw none_ at done) in
        cc)
    | inr (name, some_) ↦
        let e : with_root nfd_runes readlink read_xattrs mac_time owner_id group_id tree volume_name
              (some name)
            ≡ ok r =
          rw some_ at done in
        let (s, scanned, rest) = bind-ok (walk_sorted visit_path scan_start tree) _ e in
        let (c, collected, last) =
          bind-ok
            (collect_all nfd_runes readlink read_xattrs mac_time owner_id group_id
              (collect_start (root_entry name)) s.pending)
            _ rest in
        (name, s, c, some_, scanned, collected, ok-injective last)
  ]

  -- The entries that `walk` returns, when they are fewer than 2^32 - 16, are the root folder, with
  -- identifier 2 below identifier 1 and with the volume's name in UTF-16, and entries with the identifiers from
  -- 16 on in a row; the parent of each of these is the root or a folder among them, no two of them
  -- have the same parent and the same name, and the counters of each folder, the root included, are
  -- the number of its children and the number of the folders among these.
  pub walk-IsVolume :
      (tree : Node) (volume_name : Bytes) {r : ScanResult}
      → walk nfd_runes readlink read_xattrs mac_time owner_id group_id tree volume_name ≡ ok r
      → length r.entries < 4294967280
      → (root : Entry) × (es : List Entry) × (r.entries ≡ root ∷ es)
        × (ident root ≡ (2, 1, folder))
        × (root.name.units ≡ encode_utf16 (nfd_runes volume_name))
        × IsVolume es
        × All (Counts es) (root ∷ es)
  unfolding new_folder_entry backfill
  walk-IsVolume tree volume_name {r} done few =
      let (name, s, c, named, scanned, collected, finished) = walk-passes tree volume_name done in
      let h = scanned-IsScanning tree scanned in
      let k =
        collected-IsCollected nfd_runes readlink read_xattrs mac_time owner_id group_id
          (root_entry name) s.pending h.plain collected in
      let F = filled c.valence c.sub_folders in
      let made : r.entries ≡ map F (root_entry name ∷ k.es) =
        ap (λ (x : ScanResult). x.entries) (sym finished) ∙ ap (map F) k.entries in
      let size : length r.entries ≡ suc (length k.es) =
        ap length made ∙ ap suc (length-map k.es F) in
      let counts = λ (e : Entry).
        Counts-filled c.valence c.sub_folders k.es e (omega (arith, few, size)) k.counted
          k.folders in
      (
        F (root_entry name),
        map F k.es,
        made,
        refl,
        new_name-units nfd_runes volume_name name named,
        filled-IsVolume c.valence c.sub_folders k.es s.pending (omega (arith, few, size)) k.same
            k.distinct h.numbered h.parents,
        (counts (root_entry name), map-All _ F k.es (all_of _ k.es counts)),
      )
