-- ===== src/Hfsplus/Entry.antt =====
-- The in-memory catalog entry of internal/hfsplus/catalog.go, with the name of unicode.go and the
-- catalog node identifiers of types.go.
use go_dmg_writer.Base.{ℕ, Bool, List}
use go_dmg_writer.Base.Bytes.{Bytes}
use go_dmg_writer.Hfsplus.Types.{ExtentRecord}

-- UTF-16 code units in host order.
pub record HfsName : Type 0 where
  pub units : List ℕ

-- `unknown` stands for a value of the uint8 beyond the three constants.
pub data EntryKind : Type 0 where
  folder file symlink : EntryKind
  unknown : ℕ → EntryKind

pub record Entry : Type 0 where
  pub cnid : ℕ
  pub parent_cnid : ℕ
  pub name : HfsName
  pub kind : EntryKind
  pub mode : ℕ
  pub owner_id : ℕ
  pub group_id : ℕ
  pub create_time : ℕ
  pub content_mod_time : ℕ
  pub attribute_mod_time : ℕ
  pub access_time : ℕ
  pub backup_time : ℕ
  pub valence : ℕ
  pub sub_folder_count : ℕ
  pub data_logical_size : ℕ
  pub data_total_blocks : ℕ
  pub data_extents : ExtentRecord
  pub has_attributes : Bool
  pub symlink_target : Bytes

abbrev pub cnid_root_parent : ℕ
cnid_root_parent = 1

abbrev pub cnid_root_folder : ℕ
cnid_root_folder = 2
