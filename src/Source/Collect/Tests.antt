-- ===== src/Source/Collect/Tests.antt =====
-- The walk over a directory that holds a directory and a symlink.
use go_dmg_writer.Base.{ℕ, ◌≡◌, refl, false, List, [], ◌∷◌, All, Result, ok, arith}
use go_dmg_writer.Base.Bytes.{Bytes, be16}
use go_dmg_writer.Hfsplus.Keys.{unit_bytes}
use go_dmg_writer.Hfsplus.Attr.{Attr}
use go_dmg_writer.Hfsplus.Entry.{Entry, folder, symlink}
use go_dmg_writer.Hfsplus.Types.{no_extents}
use go_dmg_writer.Hfsplus.Utf16.{units_of_rune, encode_utf16}
use go_dmg_writer.Source.Walk.{
  OsError, Node, leaf, dir, end, child, link, special, FilePath, walk_sorted,
}
use go_dmg_writer.Source.Walk.Readable.{IsReadable, walk_sorted-visit_path}
use go_dmg_writer.Source.Scan.{
  Scanning, ScanResult, visit_path, scan_start, link_bytes, new_folder_entry,
}
use go_dmg_writer.Source.Collect.{walk}
use go_dmg_writer.Source.Collect.Invariant.{ident}
use go_dmg_writer.Source.Collect.Filled.{IsVolume, Counts}
use go_dmg_writer.Source.Collect.Numbered.{walk-IsVolume}

abbrev a_tree : Node
a_tree = dir 0x1ed 64 (
    child (98 ∷ []) (leaf (record { kind = link; perm = 0x1ff; size = 3 })) (
      child (99 ∷ []) (leaf (record { kind = special; perm = 0; size = 0 }))
        (child (97 ∷ []) (dir 0x1ed 64 end) end)))

abbrev no_attrs : FilePath → ℕ → Result OsError (List Attr)
no_attrs path cnid = ok []

abbrev to_itself : FilePath → Result OsError Bytes
to_itself path = ok (98 ∷ [])

abbrev bytes_as_runes : Bytes → List ℕ
bytes_as_runes s = s

abbrev a_folder : ℕ → ℕ → ℕ → ℕ → ℕ → Entry
a_folder cnid parent letter valence subs =
    record (new_folder_entry cnid parent (record { units = letter ∷ [] }) 7 99 20 0x1ed) {
      valence = valence;
      sub_folder_count = subs;
    }

abbrev a_link : Entry
a_link = record {
  cnid = 17;
  parent_cnid = 2;
  name = record { units = 98 ∷ [] };
  kind = symlink;
  mode = 0xa1ff;
  owner_id = 99;
  group_id = 20;
  create_time = 7;
  content_mod_time = 7;
  attribute_mod_time = 7;
  access_time = 7;
  backup_time = 7;
  valence = 0;
  sub_folder_count = 0;
  data_logical_size = 1;
  data_total_blocks = 0;
  data_extents = no_extents;
  has_attributes = false;
  symlink_target = 98 ∷ [];
}

-- The directory comes before the symlink, and the special file is skipped.
abbrev walked : ScanResult
walked = record {
  entries = a_folder 2 1 118 2 1 ∷ a_folder 16 2 97 0 0 ∷ a_link ∷ [];
  files = record { entry = 2; size = 1; opener = link_bytes (98 ∷ []) } ∷ [];
  attrs = [];
}

walk-IsVolume_example :
    (root : Entry) × (es : List Entry) × (walked.entries ≡ root ∷ es)
    × (ident root ≡ (2, 1, folder))
    × (root.name.units ≡ encode_utf16 (118 ∷ []))
    × IsVolume es
    × All (Counts es) (root ∷ es)
unfolding walk new_folder_entry unit_bytes be16 encode_utf16 units_of_rune
walk-IsVolume_example =
    walk-IsVolume bytes_as_runes to_itself no_attrs 7 99 20 a_tree (118 ∷ []) refl (omega arith)

walk_sorted-visit_path_example : (s : Scanning) × (walk_sorted visit_path scan_start a_tree ≡ ok s)
unfolding IsReadable
walk_sorted-visit_path_example = walk_sorted-visit_path a_tree (tt, (tt, (tt, tt)))
