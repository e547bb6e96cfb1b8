-- ===== src/Source/Collect.antt =====
-- The second pass of `walk` of dmg.go, and `walk`; with `NewName` of internal/hfsplus/unicode.go.
pub mod Steps
pub mod Invariant
pub mod Numbered
pub mod Filled
mod Tests
use Prim.Native.Nat.{bit_or}
use go_dmg_writer.Base.{
  ℕ, ◌+◌, Bool, true, false, ◌&&◌, List, [], ◌∷◌, ◌++◌, Option, none, some, map, ltb, ◌==◌,
  if◌then◌else◌, length, Result, ok, err, ◌>>=◌,
}
use go_dmg_writer.Base.Bytes.{Bytes, u32, u64}
use go_dmg_writer.Hfsplus.Attr.{Attr}
use go_dmg_writer.Hfsplus.Entry.{
  Entry, EntryKind, folder, file, symlink, unknown, HfsName, cnid_root_parent, cnid_root_folder,
}
use go_dmg_writer.Hfsplus.Keys.{unit_bytes}
use go_dmg_writer.Hfsplus.Types.{no_extents}
use go_dmg_writer.Source.Walk.{
  OsError, FileStat, FileKind, link, directory, regular, special, Node, FilePath, walk_sorted,
}
use go_dmg_writer.Hfsplus.Utf16.{encode_utf16}
use go_dmg_writer.Source.Scan.{
  Pending, Scanning, Opener, link_bytes, file_at, UserFileInput, ScanResult, WalkError, os_failed,
  bad_name, collide, bytes_eq, scan_start, visit_path, new_folder_entry, mode_bits,
}

-- `NewName`: `nfd_runes` are the runes of the normalized string; `none` is ErrNameTooLong.
unfoldable pub new_name : (Bytes → List ℕ) → Bytes → Option HfsName
new_name nfd_runes s =
    let units = encode_utf16 (nfd_runes s) in
    if ltb 255 (length units) then none else some (record { units = units })

abbrev pub base_name : FilePath → Bytes
base_name [] = []
base_name (name ∷ above) = name

-- A name that is claimed in a directory, and the path that has it.
pub record Claim : Type 0 where
  pub parent : ℕ
  pub name : Bytes
  pub path : FilePath

unfoldable pub find_claim : ℕ → Bytes → List Claim → Option FilePath
unfolding bytes_eq
find_claim parent name [] = none
find_claim parent name (c ∷ cs) =
    let rest = find_claim parent name cs in
    if parent == c.parent && bytes_eq name c.name then some c.path else rest

-- The variables of the second pass.
pub record Collected : Type 0 where
  pub claimed : List Claim
  pub valence : ℕ → ℕ
  pub sub_folders : ℕ → ℕ
  pub out : ScanResult

-- `m[k]++` on a `map[uint32]uint32`, where a missing key counts as 0.
abbrev pub bump : (ℕ → ℕ) → ℕ → ℕ → ℕ
bump m k j = if j == k then u32 (m j + 1) else m j

-- The entry of a file or a symlink.
abbrev pub leaf_entry : EntryKind → ℕ → ℕ → Bytes → Pending → HfsName → ℕ → ℕ → ℕ → Entry
leaf_entry kind mode size target p name mac_time owner_id group_id = record {
  cnid = p.cnid;
  parent_cnid = p.parent;
  name = name;
  kind = kind;
  mode = mode;
  owner_id = owner_id;
  group_id = group_id;
  create_time = mac_time;
  content_mod_time = mac_time;
  attribute_mod_time = mac_time;
  access_time = mac_time;
  backup_time = mac_time;
  valence = 0;
  sub_folder_count = 0;
  data_logical_size = size;
  data_total_blocks = 0;
  data_extents = no_extents;
  has_attributes = false;
  symlink_target = target;
}

abbrev pub add_entry : Collected → Entry → Collected
add_entry c e = record c { out = record (c.out) { entries = c.out.entries ++ (e ∷ []) } }

-- Appends an entry with its file.
abbrev pub add_file : Collected → Entry → Opener → Collected
add_file c e opener =
    let input : UserFileInput = record {
      entry = length c.out.entries;
      size = e.data_logical_size;
      opener = opener;
    } in
    record c {
      out = record (c.out) {
        entries = c.out.entries ++ (e ∷ []);
        files = c.out.files ++ (input ∷ []);
      };
    }

abbrev pub add_attrs : Collected → List Attr → Collected
add_attrs c attrs = record c { out = record (c.out) { attrs = c.out.attrs ++ attrs } }

-- `os_result r` is the error of a system call as `walk` returns it.
abbrev pub os_result : {A : Type 0} → Result OsError A → Result WalkError A
os_result (ok a) = ok a
os_result (err e) = err (os_failed e)

-- The counters of a folder.
unfoldable pub backfill : (ℕ → ℕ) → (ℕ → ℕ) → EntryKind → Entry → Entry
backfill valence sub_folders folder e = record e {
  valence = valence e.cnid;
  sub_folder_count = sub_folders e.cnid;
}
backfill valence sub_folders file e = e
backfill valence sub_folders symlink e = e
backfill valence sub_folders (unknown k) e = e

abbrev pub collect_start : Entry → Collected
collect_start root = record {
  claimed = [];
  valence = λ k. 0;
  sub_folders = λ k. 0;
  out = record { entries = root ∷ []; files = []; attrs = [] };
}

-- The result of `walk`, once both passes are done.
abbrev pub finish_walk : Collected → ScanResult
finish_walk c = record (c.out) {
  entries = map (λ e. backfill c.valence c.sub_folders e.kind e) c.out.entries;
}

module _ (nfd_runes : Bytes → List ℕ) (readlink : FilePath → Result OsError Bytes)
    (read_xattrs : FilePath → ℕ → Result OsError (List Attr)) (mac_time owner_id group_id : ℕ) where
  -- The switch on the kind of a file in the second pass.
  unfoldable pub collect_kind :
      Collected → Pending → HfsName → FileKind → Result WalkError Collected
  unfolding new_folder_entry
  collect_kind c p name link = os_result (readlink p.path) >>= λ target.
      let e =
        leaf_entry symlink (bit_or (mode_bits p.info) 0xa000) (u64 (length target)) target p name
          mac_time owner_id group_id in
      ok (add_file c e (link_bytes target))
  collect_kind c p name directory =
      let e = new_folder_entry p.cnid p.parent name mac_time owner_id group_id (mode_bits p.info) in
      let counted : Collected = record c { sub_folders = bump c.sub_folders p.parent } in
      os_result (read_xattrs p.path p.cnid) >>= λ attrs. ok (add_attrs (add_entry counted e) attrs)
  collect_kind c p name regular =
      let e =
        leaf_entry file (bit_or (mode_bits p.info) 0x8000) (u64 p.info.size) [] p name mac_time
          owner_id group_id in
      os_result (read_xattrs p.path p.cnid) >>= λ attrs.
      ok (add_attrs (add_file c e (file_at p.path)) attrs)
  collect_kind c p name special = ok c

  -- A pending path whose name is claimed for it, unless another path has it.
  abbrev pub claim_name :
      Collected → Pending → HfsName → Option FilePath → Result WalkError Collected
  claim_name c p name (some first) = err (collide first p.path (base_name p.path))
  claim_name c p name none =
      let claim : Claim = record {
        parent = p.parent;
        name = unit_bytes name.units;
        path = p.path;
      } in
      collect_kind (record c { claimed = claim ∷ c.claimed; valence = bump c.valence p.parent }) p
        name p.info.kind

  abbrev pub with_name : Collected → Pending → Option HfsName → Result WalkError Collected
  with_name c p none = err (bad_name (base_name p.path))
  with_name c p (some name) =
      claim_name c p name (find_claim p.parent (unit_bytes name.units) c.claimed)

  -- The body of the loop over the pending paths.
  unfoldable pub collect_one : Collected → Pending → Result WalkError Collected
  unfolding collect_kind find_claim new_name
  collect_one c p = with_name c p (new_name nfd_runes (base_name p.path))

  unfoldable pub collect_all : Collected → List Pending → Result WalkError Collected
  unfolding collect_one
  collect_all c [] = ok c
  collect_all c (p ∷ ps) = collect_one c p >>= λ c'. collect_all c' ps

  abbrev pub with_root : Node → Bytes → Option HfsName → Result WalkError ScanResult
  with_root tree volume_name none = err (bad_name volume_name)
  with_root tree volume_name (some name) =
      let root =
        new_folder_entry cnid_root_folder cnid_root_parent name mac_time owner_id group_id 0x1ed in
      walk_sorted visit_path scan_start tree >>= λ s.
      collect_all (collect_start root) s.pending >>= λ c. ok (finish_walk c)

  unfoldable pub walk : Node → Bytes → Result WalkError ScanResult
  unfolding walk_sorted visit_path collect_all backfill
  walk tree volume_name = with_root tree volume_name (new_name nfd_runes volume_name)
