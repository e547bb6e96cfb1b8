-- ===== src/Gpt/Names.antt =====
-- internal/gpt/gpt.go: the names of the regions and the tags of the GUIDs, as bytes.
use go_dmg_writer.Base.{[], ◌∷◌}
use go_dmg_writer.Base.Bytes.{Bytes}

-- "Protective Master Boot Record"
abbrev pub protective_mbr_name : Bytes
protective_mbr_name =
    80 ∷ 114 ∷ 111 ∷ 116 ∷ 101 ∷ 99 ∷ 116 ∷ 105 ∷ 118 ∷ 101 ∷ 32 ∷ 77 ∷ 97 ∷ 115 ∷ 116 ∷ 101 ∷ 114
    ∷ 32 ∷ 66 ∷ 111 ∷ 111 ∷ 116 ∷ 32 ∷ 82 ∷ 101 ∷ 99 ∷ 111 ∷ 114 ∷ 100 ∷ []

-- "MBR"
abbrev pub mbr_type : Bytes
mbr_type = 77 ∷ 66 ∷ 82 ∷ []

-- "GPT Header"
abbrev pub gpt_header_name : Bytes
gpt_header_name = 71 ∷ 80 ∷ 84 ∷ 32 ∷ 72 ∷ 101 ∷ 97 ∷ 100 ∷ 101 ∷ 114 ∷ []

-- "Primary GPT Header"
abbrev pub primary_header_type : Bytes
primary_header_type =
    80 ∷ 114 ∷ 105 ∷ 109 ∷ 97 ∷ 114 ∷ 121 ∷ 32 ∷ 71 ∷ 80 ∷ 84 ∷ 32 ∷ 72 ∷ 101 ∷ 97 ∷ 100 ∷ 101 ∷ 114
    ∷ []

-- "GPT Partition Data"
abbrev pub partition_data_name : Bytes
partition_data_name =
    71 ∷ 80 ∷ 84 ∷ 32 ∷ 80 ∷ 97 ∷ 114 ∷ 116 ∷ 105 ∷ 116 ∷ 105 ∷ 111 ∷ 110 ∷ 32 ∷ 68 ∷ 97 ∷ 116 ∷ 97
    ∷ []

-- "Primary GPT Table"
abbrev pub primary_table_type : Bytes
primary_table_type =
    80 ∷ 114 ∷ 105 ∷ 109 ∷ 97 ∷ 114 ∷ 121 ∷ 32 ∷ 71 ∷ 80 ∷ 84 ∷ 32 ∷ 84 ∷ 97 ∷ 98 ∷ 108 ∷ 101 ∷ []

-- "Apple_Free"
abbrev pub free_type : Bytes
free_type = 65 ∷ 112 ∷ 112 ∷ 108 ∷ 101 ∷ 95 ∷ 70 ∷ 114 ∷ 101 ∷ 101 ∷ []

-- "disk image"
abbrev pub partition_name : Bytes
partition_name = 100 ∷ 105 ∷ 115 ∷ 107 ∷ 32 ∷ 105 ∷ 109 ∷ 97 ∷ 103 ∷ 101 ∷ []

-- "Apple_HFSX"
abbrev pub hfsx_type : Bytes
hfsx_type = 65 ∷ 112 ∷ 112 ∷ 108 ∷ 101 ∷ 95 ∷ 72 ∷ 70 ∷ 83 ∷ 88 ∷ []

-- "Backup GPT Table"
abbrev pub backup_table_type : Bytes
backup_table_type =
    66 ∷ 97 ∷ 99 ∷ 107 ∷ 117 ∷ 112 ∷ 32 ∷ 71 ∷ 80 ∷ 84 ∷ 32 ∷ 84 ∷ 97 ∷ 98 ∷ 108 ∷ 101 ∷ []

-- "Backup GPT Header"
abbrev pub backup_header_type : Bytes
backup_header_type =
    66 ∷ 97 ∷ 99 ∷ 107 ∷ 117 ∷ 112 ∷ 32 ∷ 71 ∷ 80 ∷ 84 ∷ 32 ∷ 72 ∷ 101 ∷ 97 ∷ 100 ∷ 101 ∷ 114 ∷ []

-- "gpt:disk"
abbrev pub disk_tag : Bytes
disk_tag = 103 ∷ 112 ∷ 116 ∷ 58 ∷ 100 ∷ 105 ∷ 115 ∷ 107 ∷ []

-- "gpt:partition"
abbrev pub partition_tag : Bytes
partition_tag = 103 ∷ 112 ∷ 116 ∷ 58 ∷ 112 ∷ 97 ∷ 114 ∷ 116 ∷ 105 ∷ 116 ∷ 105 ∷ 111 ∷ 110 ∷ []
