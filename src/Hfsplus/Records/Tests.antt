-- ===== src/Hfsplus/Records/Tests.antt =====
-- The catalog records of a root folder that holds one symlink.
use go_dmg_writer.Base.{ℕ, refl, false, List, [], ◌∷◌, ◌++◌, All, arith}
use go_dmg_writer.Base.Bytes.{be16}
use go_dmg_writer.Wire.Decide.{all_fit-Fits, all_fit}
use go_dmg_writer.Hfsplus.Btree.{Record}
use go_dmg_writer.Hfsplus.Entry.{Entry, EntryKind, folder, symlink}
use go_dmg_writer.Hfsplus.Types.{no_extents}
use go_dmg_writer.Hfsplus.Header.{extent_words}
use go_dmg_writer.Hfsplus.Keys.{unit_bytes, text_encoding_hint, is_ascii}
use go_dmg_writer.Hfsplus.Structs.{folder_fields, file_fields}
use go_dmg_writer.Hfsplus.Records.{
  folder_of, file_of, thread_fields, encode_folder_record, encode_file_record, forward_data,
  entry_records, build_catalog_records,
}
use go_dmg_writer.Hfsplus.Records.Read.{EntryFits}
use go_dmg_writer.Hfsplus.Records.Resolve.{Resolves, build_catalog_records-Resolves}

abbrev an_entry : ℕ → ℕ → EntryKind → List ℕ → Entry
an_entry cnid parent kind units = record {
  cnid = cnid;
  parent_cnid = parent;
  name = record { units = units };
  kind = kind;
  mode = 0x41ed;
  owner_id = 99;
  group_id = 99;
  create_time = 3600000000;
  content_mod_time = 3600000000;
  attribute_mod_time = 3600000000;
  access_time = 3600000000;
  backup_time = 3600000000;
  valence = 1;
  sub_folder_count = 0;
  data_logical_size = 3;
  data_total_blocks = 1;
  data_extents = no_extents;
  has_attributes = false;
  symlink_target = [];
}

abbrev the_root : Entry
the_root = an_entry 2 1 folder (118 ∷ [])

abbrev the_link : Entry
the_link = an_entry 16 2 symlink (108 ∷ 233 ∷ [])

abbrev two_entries : List Entry
two_entries = the_root ∷ the_link ∷ []

abbrev four_records : List Record
four_records =
    entry_records the_root (encode_folder_record the_root)
    ++ entry_records the_link (encode_file_record the_link)

the_root-EntryFits : EntryFits the_root
unfolding all_fit unit_bytes be16 text_encoding_hint is_ascii extent_words
the_root-EntryFits = record {
  in_thread = all_fit-Fits (thread_fields the_root) refl;
  in_folder = all_fit-Fits (folder_fields (folder_of the_root)) refl;
  in_file = all_fit-Fits (file_fields (file_of the_root)) refl;
  units_fit = (omega arith, tt);
  name_fits = omega arith;
}

the_link-EntryFits : EntryFits the_link
unfolding all_fit unit_bytes be16 text_encoding_hint is_ascii extent_words
the_link-EntryFits = record {
  in_thread = all_fit-Fits (thread_fields the_link) refl;
  in_folder = all_fit-Fits (folder_fields (folder_of the_link)) refl;
  in_file = all_fit-Fits (file_fields (file_of the_link)) refl;
  units_fit = (omega arith, (omega arith, tt));
  name_fits = omega arith;
}

build_catalog_records-Resolves_example : All (Resolves four_records) two_entries
unfolding build_catalog_records forward_data
build_catalog_records-Resolves_example =
    build_catalog_records-Resolves two_entries (the_root-EntryFits, (the_link-EntryFits, tt)) refl
