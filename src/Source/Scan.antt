-- ===== src/Source/Scan.antt =====
-- `walk` of dmg.go: the catalog entries of a directory tree, in two passes.
pub mod Numbered
use Prim.Native.Nat.{bit_or}
use go_dmg_writer.Base.{
  ℕ, ◌+◌, Bool, true, false, ◌&&◌, List, [], ◌∷◌, ◌++◌, Option, none, some, map, ltb, ◌==◌,
  if◌then◌else◌, length, Result, ok, err, ◌>>=◌,
}
use go_dmg_writer.Base.Bytes.{Bytes, u16, u32, u64}
use go_dmg_writer.Hfsplus.Attr.{Attr}
use go_dmg_writer.Hfsplus.Entry.{
  Entry, EntryKind, folder, file, symlink, unknown, HfsName, cnid_root_parent, cnid_root_folder,
}
use go_dmg_writer.Hfsplus.Keys.{unit_bytes}
use go_dmg_writer.Hfsplus.Types.{no_extents}
use go_dmg_writer.Source.Walk.{
  OsError, FileStat, FileKind, link, directory, regular, special, Node, FilePath, walk_sorted,
}

-- `pendingPath`
pub record Pending : Type 0 where
  pub path : FilePath
  pub cnid : ℕ
  pub parent : ℕ
  pub info : FileStat

-- The variables of the first pass.
pub record Scanning : Type 0 where
  pub parent_map : List (FilePath × ℕ)
  pub pending : List Pending
  pub next_cnid : ℕ

-- Where an open file's bytes come from: a symlink's target in memory, or the file at a path.
pub data Opener : Type 0 where
  link_bytes : Bytes → Opener
  file_at : FilePath → Opener

-- `hfsplus.UserFileInput`; `entry` is the position of the `*Entry` in the entries.
pub record UserFileInput : Type 0 where
  pub entry : ℕ
  pub size : ℕ
  pub opener : Opener

pub record ScanResult : Type 0 where
  pub entries : List Entry
  pub files : List UserFileInput
  pub attrs : List Attr

pub data WalkError : Type 0 where
  os_failed : OsError → WalkError
  no_parent : FilePath → WalkError
  bad_name : Bytes → WalkError
  collide : FilePath → FilePath → Bytes → WalkError

unfoldable pub bytes_eq : Bytes → Bytes → Bool
bytes_eq [] [] = true
bytes_eq [] (y ∷ ys) = false
bytes_eq (x ∷ xs) [] = false
bytes_eq (x ∷ xs) (y ∷ ys) = x == y && bytes_eq xs ys

unfoldable pub path_eq : FilePath → FilePath → Bool
unfolding bytes_eq
path_eq [] [] = true
path_eq [] (y ∷ ys) = false
path_eq (x ∷ xs) [] = false
path_eq (x ∷ xs) (y ∷ ys) = bytes_eq x y && path_eq xs ys

-- `parentMap[path]`; the latest assignment comes first.
unfoldable pub find_parent : FilePath → List (FilePath × ℕ) → Option ℕ
unfolding path_eq
find_parent path [] = none
find_parent path ((p, cnid) ∷ m) = if path_eq path p then some cnid else find_parent path m

abbrev pub cnid_first_user : ℕ
cnid_first_user = 16

abbrev pub scan_start : Scanning
scan_start = record {
  parent_map = ([], cnid_root_folder) ∷ [];
  pending = [];
  next_cnid = cnid_first_user;
}

-- `pending = append(...); nextCNID++`
abbrev pub put_off : Scanning → FilePath → ℕ → FileStat → Scanning
put_off s path parent i = record s {
  pending =
      s.pending ++ (record { path = path; cnid = s.next_cnid; parent = parent; info = i } ∷ []);
  next_cnid = u32 (s.next_cnid + 1);
}

-- The switch on the kind of a file in the first pass.
unfoldable pub scan_kind : Scanning → FilePath → ℕ → FileStat → FileKind → Scanning
scan_kind s path parent i link = put_off s path parent i
scan_kind s path parent i directory = record (put_off s path parent i) {
  parent_map = (path, s.next_cnid) ∷ s.parent_map;
}
scan_kind s path parent i regular = put_off s path parent i
scan_kind s path parent i special = s

abbrev pub with_parent : Scanning → FilePath → FileStat → Option ℕ → Result WalkError Scanning
with_parent s path i none = err (no_parent path)
with_parent s path i (some parent) = ok (scan_kind s path parent i i.kind)

-- The visitor of the first pass.
unfoldable pub visit_path :
    Scanning → FilePath → Result OsError FileStat → Result WalkError Scanning
unfolding find_parent scan_kind
visit_path s path (err e) = err (os_failed e)
visit_path s [] (ok i) = ok s
visit_path s (name ∷ above) (ok i) = with_parent s (name ∷ above) i (find_parent above s.parent_map)

-- `newFolderEntry`, with `modeBits` applied.
unfoldable pub new_folder_entry : ℕ → ℕ → HfsName → ℕ → ℕ → ℕ → ℕ → Entry
new_folder_entry cnid parent name mac_time owner_id group_id mode = record {
  cnid = cnid;
  parent_cnid = parent;
  name = name;
  kind = folder;
  mode = bit_or mode 0x4000;
  owner_id = owner_id;
  group_id = group_id;
  create_time = mac_time;
  content_mod_time = mac_time;
  attribute_mod_time = mac_time;
  access_time = mac_time;
  backup_time = mac_time;
  valence = 0;
  sub_folder_count = 0;
  data_logical_size = 0;
  data_total_blocks = 0;
  data_extents = no_extents;
  has_attributes = false;
  symlink_target = [];
}

-- `modeBits`
abbrev pub mode_bits : FileStat → ℕ
mode_bits i = u16 i.perm
