-- ===== src/Hfsplus/Structs.antt =====
-- The structures of internal/hfsplus/types.go inside the records of the catalog.
use go_dmg_writer.Base.{ℕ, ◌+◌, List, [], ◌∷◌, ◌++◌}
use go_dmg_writer.Base.Bytes.{Bytes}
use go_dmg_writer.Wire.{Field, at8, at16, at32, raw}
use go_dmg_writer.Hfsplus.Header.{fork_fields}
use go_dmg_writer.Hfsplus.Types.{ForkData}

pub record BsdInfo : Type 0 where
  pub owner_id : ℕ
  pub group_id : ℕ
  pub admin_flags : ℕ
  pub owner_flags : ℕ
  pub file_mode : ℕ
  pub special : ℕ

-- `BSDInfo.encode` on the slice that starts at `at`
abbrev pub bsd_fields : ℕ → BsdInfo → List Field
bsd_fields at i =
    at32 at i.owner_id
    ∷ at32 (at + 4) i.group_id
    ∷ at8 (at + 8) i.admin_flags
    ∷ at8 (at + 9) i.owner_flags
    ∷ at16 (at + 10) i.file_mode
    ∷ at32 (at + 12) i.special
    ∷ []

pub record FileInfo : Type 0 where
  pub file_type : ℕ
  pub file_creator : ℕ
  pub finder_flags : ℕ
  pub location : Bytes
  pub reserved : ℕ

-- `FileInfo.encode` on the slice that starts at `at`
abbrev pub file_info_fields : ℕ → FileInfo → List Field
file_info_fields at i =
    at32 at i.file_type
    ∷ at32 (at + 4) i.file_creator
    ∷ at16 (at + 8) i.finder_flags
    ∷ raw (at + 10) 4 i.location
    ∷ at16 (at + 14) i.reserved
    ∷ []

pub record ExtendedFileInfo : Type 0 where
  pub reserved1 : Bytes
  pub extended_finder_flags : ℕ
  pub reserved2 : ℕ
  pub put_away_folder_id : ℕ

-- `ExtendedFileInfo.encode` on the slice that starts at `at`
abbrev pub extended_file_info_fields : ℕ → ExtendedFileInfo → List Field
extended_file_info_fields at i =
    raw at 8 i.reserved1
    ∷ at16 (at + 8) i.extended_finder_flags
    ∷ at16 (at + 10) i.reserved2
    ∷ at32 (at + 12) i.put_away_folder_id
    ∷ []

pub record FolderInfo : Type 0 where
  pub window_bounds : Bytes
  pub finder_flags : ℕ
  pub location : Bytes
  pub reserved : ℕ

-- `FolderInfo.encode` on the slice that starts at `at`
abbrev pub folder_info_fields : ℕ → FolderInfo → List Field
folder_info_fields at i =
    raw at 8 i.window_bounds
    ∷ at16 (at + 8) i.finder_flags
    ∷ raw (at + 10) 4 i.location
    ∷ at16 (at + 14) i.reserved
    ∷ []

pub record ExtendedFolderInfo : Type 0 where
  pub scroll_position : Bytes
  pub reserved1 : ℕ
  pub extended_finder_flags : ℕ
  pub reserved2 : ℕ
  pub put_away_folder_id : ℕ

-- `ExtendedFolderInfo.encode` on the slice that starts at `at`
abbrev pub extended_folder_info_fields : ℕ → ExtendedFolderInfo → List Field
extended_folder_info_fields at i =
    raw at 4 i.scroll_position
    ∷ at32 (at + 4) i.reserved1
    ∷ at16 (at + 8) i.extended_finder_flags
    ∷ at16 (at + 10) i.reserved2
    ∷ at32 (at + 12) i.put_away_folder_id
    ∷ []

pub record CatalogFolder : Type 0 where
  pub record_type : ℕ
  pub flags : ℕ
  pub valence : ℕ
  pub folder_id : ℕ
  pub create_date : ℕ
  pub content_mod_date : ℕ
  pub attribute_mod_date : ℕ
  pub access_date : ℕ
  pub backup_date : ℕ
  pub permissions : BsdInfo
  pub user_info : FolderInfo
  pub finder_info : ExtendedFolderInfo
  pub text_encoding : ℕ
  pub folder_count : ℕ

-- `CatalogFolder.encode`
abbrev pub folder_fields : CatalogFolder → List Field
folder_fields r =
    (at16 0 r.record_type
      ∷ at16 2 r.flags
      ∷ at32 4 r.valence
      ∷ at32 8 r.folder_id
      ∷ at32 12 r.create_date
      ∷ at32 16 r.content_mod_date
      ∷ at32 20 r.attribute_mod_date
      ∷ at32 24 r.access_date
      ∷ at32 28 r.backup_date
      ∷ [])
    ++ bsd_fields 32 r.permissions
    ++ folder_info_fields 48 r.user_info
    ++ extended_folder_info_fields 64 r.finder_info
    ++ (at32 80 r.text_encoding ∷ at32 84 r.folder_count ∷ [])

pub record CatalogFile : Type 0 where
  pub record_type : ℕ
  pub flags : ℕ
  pub reserved1 : ℕ
  pub file_id : ℕ
  pub create_date : ℕ
  pub content_mod_date : ℕ
  pub attribute_mod_date : ℕ
  pub access_date : ℕ
  pub backup_date : ℕ
  pub permissions : BsdInfo
  pub user_info : FileInfo
  pub finder_info : ExtendedFileInfo
  pub text_encoding : ℕ
  pub reserved2 : ℕ
  pub data_fork : ForkData
  pub resource_fork : ForkData

-- `CatalogFile.encode`
abbrev pub file_fields : CatalogFile → List Field
file_fields r =
    (at16 0 r.record_type
      ∷ at16 2 r.flags
      ∷ at32 4 r.reserved1
      ∷ at32 8 r.file_id
      ∷ at32 12 r.create_date
      ∷ at32 16 r.content_mod_date
      ∷ at32 20 r.attribute_mod_date
      ∷ at32 24 r.access_date
      ∷ at32 28 r.backup_date
      ∷ [])
    ++ bsd_fields 32 r.permissions
    ++ file_info_fields 48 r.user_info
    ++ extended_file_info_fields 64 r.finder_info
    ++ (at32 80 r.text_encoding ∷ at32 84 r.reserved2 ∷ [])
    ++ fork_fields 88 r.data_fork
    ++ fork_fields 168 r.resource_fork
