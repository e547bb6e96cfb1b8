-- ===== src/Gpt.antt =====
-- internal/gpt/gpt.go: the geometry of the framed disk, and the regions that dmg.go passes on to the
-- container.
mod Tests
mod Names
pub mod Geometry
use go_dmg_writer.Base.{
  ℕ, ◌+◌, ◌-◌, ◌*◌, ◌/◌, ◌%◌, Bool, true, false, List, [], ◌∷◌, map, ◌==◌, if◌then◌else◌, Result,
  ok, err, ◌>>=◌, ◌>>◌, refuse_if,
}
use go_dmg_writer.Base.Bytes.{Bytes, u64}
use go_dmg_writer.Gpt.Names.{
  protective_mbr_name, mbr_type, gpt_header_name, primary_header_type, partition_data_name,
  primary_table_type, free_type, partition_name, hfsx_type, backup_table_type, backup_header_type,
  disk_tag, partition_tag,
}
use go_dmg_writer.Udif.Regions as Udif

abbrev pub sector_size : ℕ
sector_size = 512

abbrev pub entry_count : ℕ
entry_count = 128

abbrev pub entry_size : ℕ
entry_size = 128

abbrev pub entry_array_len : ℕ
entry_array_len = entry_count * entry_size

abbrev pub entry_array_sectors : ℕ
entry_array_sectors = entry_array_len / sector_size

abbrev pub entry_array_lba : ℕ
entry_array_lba = 2

abbrev pub first_usable_lba : ℕ
first_usable_lba = entry_array_lba + entry_array_sectors

abbrev pub backup_sectors : ℕ
backup_sectors = entry_array_sectors + 1

abbrev pub partition_start_lba : ℕ
partition_start_lba = 40

pub record Layout : Type 0 where
  pub volume_sectors : ℕ
  pub total_sectors : ℕ
  pub disk_guid : Bytes
  pub partition_guid : Bytes

pub data GptError : Type 0 where
  empty_volume : GptError
  partial_sector : ℕ → GptError

-- `guid_from` is `guidFrom`, a part of a SHA-256 sum; `when` is `time.Time` in Unix seconds.
unfoldable pub new : (Bytes → Bytes → ℕ → ℕ → Bytes) → ℕ → Bytes → ℕ → Result GptError Layout
new guid_from volume_size name when = do
  refuse_if (volume_size == 0) empty_volume
  refuse_if (if volume_size % sector_size == 0 then false else true) (partial_sector volume_size)
  let sectors = volume_size / sector_size
  let total = u64 (partition_start_lba + sectors + backup_sectors)
  ok (record {
    volume_sectors = sectors;
    total_sectors = total;
    disk_guid = guid_from disk_tag name when total;
    partition_guid = guid_from partition_tag name when sectors;
  })

unfoldable pub disk_size : Layout → ℕ
disk_size l = u64 (l.total_sectors * sector_size)

pub record Region : Type 0 where
  pub name : Bytes
  pub region_type : Bytes
  pub sectors : ℕ

unfoldable pub regions : Layout → List Region
regions l =
    record { name = protective_mbr_name; region_type = mbr_type; sectors = 1 }
    ∷ record { name = gpt_header_name; region_type = primary_header_type; sectors = 1 }
    ∷ record {
      name = partition_data_name;
      region_type = primary_table_type;
      sectors = entry_array_sectors;
    }
    ∷ record {
      name = [];
      region_type = free_type;
      sectors = partition_start_lba - first_usable_lba;
    }
    ∷ record { name = partition_name; region_type = hfsx_type; sectors = l.volume_sectors }
    ∷ record {
      name = partition_data_name;
      region_type = backup_table_type;
      sectors = entry_array_sectors;
    }
    ∷ record { name = gpt_header_name; region_type = backup_header_type; sectors = 1 }
    ∷ []

unfoldable pub last_lba : Layout → ℕ
last_lba l = l.total_sectors - 1

unfoldable pub last_usable_lba : Layout → ℕ
last_usable_lba l = l.total_sectors - backup_sectors - 1

unfoldable pub partition_last_lba : Layout → ℕ
partition_last_lba l = u64 (partition_start_lba + l.volume_sectors - 1)

-- The loop of dmg.go that hands the regions to the container.
unfoldable pub udif_regions : Layout → List Udif.Region
unfolding regions
udif_regions l =
    map
      (λ (r : Region). record {
        name = r.name;
        region_type = r.region_type;
        sector_count = r.sectors;
      })
      (regions l)
