-- ===== src/Hfsplus/Records.antt =====
-- The records of the catalog: `buildCatalogRecords` of internal/hfsplus/catalog.go with the encoders
-- that it calls.
pub mod Read
pub mod Resolve
mod Tests
use go_dmg_writer.Base.{
  ℕ, ◌+◌, ◌*◌, Bool, true, false, List, [], ◌∷◌, ◌++◌, Result, ok, err, ◌>>=◌, ◌==◌, if◌then◌else◌,
  length, replicate,
}
use go_dmg_writer.Base.Bytes.{Bytes, u16}
use go_dmg_writer.Wire.{Field, at16, at32, raw, encode}
use go_dmg_writer.Hfsplus.Btree.{Record}
use go_dmg_writer.Hfsplus.Entry.{
  Entry, EntryKind, folder, file, symlink, unknown, HfsName, cnid_root_parent,
}
use go_dmg_writer.Hfsplus.Header.{no_fork}
use go_dmg_writer.Hfsplus.Keys.{unit_bytes, text_encoding_hint, encode_catalog_key}
use go_dmg_writer.Hfsplus.Structs.{
  BsdInfo, FileInfo, ExtendedFileInfo, FolderInfo, ExtendedFolderInfo, CatalogFolder, CatalogFile,
  folder_fields, file_fields,
}

abbrev pub no_folder_info : FolderInfo
no_folder_info = record {
  window_bounds = replicate 8 0;
  finder_flags = 0;
  location = replicate 4 0;
  reserved = 0;
}

abbrev pub no_extended_folder_info : ExtendedFolderInfo
no_extended_folder_info = record {
  scroll_position = replicate 4 0;
  reserved1 = 0;
  extended_finder_flags = 0;
  reserved2 = 0;
  put_away_folder_id = 0;
}

-- The Finder's information on a file with this type and creator.
abbrev pub info_of_type : ℕ → ℕ → FileInfo
info_of_type file_type creator = record {
  file_type = file_type;
  file_creator = creator;
  finder_flags = 0;
  location = replicate 4 0;
  reserved = 0;
}

abbrev pub no_extended_file_info : ExtendedFileInfo
no_extended_file_info = record {
  reserved1 = replicate 8 0;
  extended_finder_flags = 0;
  reserved2 = 0;
  put_away_folder_id = 0;
}

-- The owner, the group and the mode of an entry.
abbrev pub permissions_of : Entry → BsdInfo
permissions_of e = record {
  owner_id = e.owner_id;
  group_id = e.group_id;
  admin_flags = 0;
  owner_flags = 0;
  file_mode = e.mode;
  special = 0;
}

-- The struct that `encodeCatalogFolderRecord` fills in.
abbrev pub folder_of : Entry → CatalogFolder
folder_of e = record {
  record_type = 1;
  flags = if e.has_attributes then 0x14 else 0x10;
  valence = e.valence;
  folder_id = e.cnid;
  create_date = e.create_time;
  content_mod_date = e.content_mod_time;
  attribute_mod_date = e.attribute_mod_time;
  access_date = e.access_time;
  backup_date = e.backup_time;
  permissions = permissions_of e;
  user_info = no_folder_info;
  finder_info = no_extended_folder_info;
  text_encoding = text_encoding_hint e.name;
  folder_count = e.sub_folder_count;
}

abbrev pub is_symlink : EntryKind → Bool
is_symlink symlink = true
is_symlink folder = false
is_symlink file = false
is_symlink (unknown _) = false

-- The struct that `encodeCatalogFileRecord` fills in.
abbrev pub file_of : Entry → CatalogFile
file_of e = record {
  record_type = 2;
  flags = if e.has_attributes then 0x4 else 0;
  reserved1 = 0;
  file_id = e.cnid;
  create_date = e.create_time;
  content_mod_date = e.content_mod_time;
  attribute_mod_date = e.attribute_mod_time;
  access_date = e.access_time;
  backup_date = e.backup_time;
  permissions = permissions_of e;
  user_info =
      info_of_type (if is_symlink e.kind then 0x736c6e6b else 0)
        (if is_symlink e.kind then 0x72686170 else 0);
  finder_info = no_extended_file_info;
  text_encoding = text_encoding_hint e.name;
  reserved2 = 0;
  data_fork = record {
    logical_size = e.data_logical_size;
    clump_size = 0;
    total_blocks = e.data_total_blocks;
    extents = e.data_extents;
  };
  resource_fork = no_fork;
}

-- `encodeCatalogFolderRecord`
unfoldable pub encode_folder_record : Entry → Bytes
encode_folder_record e = encode 88 (folder_fields (folder_of e))

-- `encodeCatalogFileRecord`
unfoldable pub encode_file_record : Entry → Bytes
encode_file_record e = encode 248 (file_fields (file_of e))

abbrev pub thread_type : EntryKind → ℕ
thread_type folder = 3
thread_type file = 4
thread_type symlink = 4
thread_type (unknown _) = 4

abbrev pub thread_fields : Entry → List Field
thread_fields e =
    at16 0 (thread_type e.kind)
    ∷ at16 2 0
    ∷ at32 4 e.parent_cnid
    ∷ at16 8 (u16 (length e.name.units))
    ∷ raw 10 (length (unit_bytes e.name.units)) (unit_bytes e.name.units)
    ∷ []

-- `encodeThreadRecord`
unfoldable pub encode_thread_record : Entry → Bytes
encode_thread_record e = encode (10 + length (unit_bytes e.name.units)) (thread_fields e)

pub data CatalogError : Type 0 where
  unknown_kind : ℕ → ℕ → CatalogError

-- The data of an entry's forward record, by the switch on its kind.
unfoldable pub forward_data : Entry → EntryKind → Result CatalogError Bytes
forward_data e folder = ok (encode_folder_record e)
forward_data e file = ok (encode_file_record e)
forward_data e symlink = ok (encode_file_record e)
forward_data e (unknown k) = err (unknown_kind e.cnid k)

abbrev pub no_name : HfsName
no_name = record { units = [] }

-- The two records of an entry whose forward record holds `fwd`.
abbrev pub entry_records : Entry → Bytes → List Record
entry_records e fwd =
    record { key = encode_catalog_key e.parent_cnid e.name; content = fwd }
    ∷ record { key = encode_catalog_key e.cnid no_name; content = encode_thread_record e }
    ∷ []

-- `buildCatalogRecords`: a forward record and a thread record for each entry.
unfoldable pub build_catalog_records : List Entry → Result CatalogError (List Record)
unfolding forward_data
build_catalog_records [] = ok []
build_catalog_records (e ∷ es) =
    let rest = build_catalog_records es in
    if e.cnid == cnid_root_parent
    then rest
    else forward_data e e.kind >>= λ fwd. rest >>= λ more. ok (entry_records e fwd ++ more)
