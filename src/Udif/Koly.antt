-- ===== src/Udif/Koly.antt =====
-- The trailer of internal/udif/koly.go: `Koly.Encode` and `DecodeKoly`, with the checksum container and
-- the segment identifier inside it.
pub mod RoundTrip
mod Tests
use go_dmg_writer.Base.{ℕ, ◌+◌, List, [], ◌∷◌, ◌++◌, Result, ok, err, ltb, if◌then◌else◌, length}
use go_dmg_writer.Base.Bytes.{Bytes}
use go_dmg_writer.Wire.{Field, at32, at64, raw, array, encode, slice, uint_at, read_words}

-- `check_type` is the field Type.
pub record UdifChecksum : Type 0 where
  pub check_type : ℕ
  pub size : ℕ
  pub data_words : List ℕ

pub record UdifId : Type 0 where
  pub data1 : ℕ
  pub data2 : ℕ
  pub data3 : ℕ
  pub data4 : ℕ

pub record Koly : Type 0 where
  pub signature : ℕ
  pub version : ℕ
  pub header_size : ℕ
  pub flags : ℕ
  pub running_data_fork_offset : ℕ
  pub data_fork_offset : ℕ
  pub data_fork_length : ℕ
  pub rsrc_fork_offset : ℕ
  pub rsrc_fork_length : ℕ
  pub segment_number : ℕ
  pub segment_count : ℕ
  pub segment_id : UdifId
  pub data_fork_checksum : UdifChecksum
  pub xml_offset : ℕ
  pub xml_length : ℕ
  pub reserved1 : Bytes
  pub master_checksum : UdifChecksum
  pub image_variant : ℕ
  pub sector_count : ℕ
  pub reserved2 : ℕ
  pub reserved3 : ℕ
  pub reserved4 : ℕ

abbrev pub koly_size : ℕ
koly_size = 512

-- `UDIFChecksum.encode` on the slice that starts at `at`; the loop writes the 32 words in a row.
abbrev pub checksum_fields : ℕ → UdifChecksum → List Field
checksum_fields at c =
    at32 at c.check_type ∷ at32 (at + 4) c.size ∷ array (at + 8) 32 c.data_words ∷ []

-- `UDIFID.encode`
abbrev pub id_fields : ℕ → UdifId → List Field
id_fields at u =
    at32 at u.data1 ∷ at32 (at + 4) u.data2 ∷ at32 (at + 8) u.data3 ∷ at32 (at + 12) u.data4 ∷ []

-- The writes of `Koly.Encode`, in their order.
abbrev pub koly_fields : Koly → List Field
koly_fields k =
    (at32 0 k.signature
      ∷ at32 4 k.version
      ∷ at32 8 k.header_size
      ∷ at32 12 k.flags
      ∷ at64 16 k.running_data_fork_offset
      ∷ at64 24 k.data_fork_offset
      ∷ at64 32 k.data_fork_length
      ∷ at64 40 k.rsrc_fork_offset
      ∷ at64 48 k.rsrc_fork_length
      ∷ at32 56 k.segment_number
      ∷ at32 60 k.segment_count
      ∷ id_fields 64 k.segment_id)
    ++ checksum_fields 80 k.data_fork_checksum
    ++ (at64 216 k.xml_offset ∷ at64 224 k.xml_length ∷ raw 232 120 k.reserved1 ∷ [])
    ++ checksum_fields 352 k.master_checksum
    ++ (at32 488 k.image_variant
        ∷ at64 492 k.sector_count
        ∷ at32 500 k.reserved2
        ∷ at32 504 k.reserved3
        ∷ at32 508 k.reserved4
        ∷ [])

-- `Koly.Encode`
unfoldable pub encode_koly : Koly → Bytes
encode_koly k = encode koly_size (koly_fields k)

pub data KolyError : Type 0 where
  short_koly : KolyError

-- `decodeChecksum` on the slice that starts at `at`
abbrev pub decode_checksum : ℕ → Bytes → UdifChecksum
decode_checksum at buf = record {
  check_type = uint_at 4 at buf;
  size = uint_at 4 (at + 4) buf;
  data_words = read_words 32 (at + 8) buf;
}

-- The trailer that `DecodeKoly` reads from a buffer that is long enough.
abbrev pub koly_of : Bytes → Koly
koly_of buf = record {
  signature = uint_at 4 0 buf;
  version = uint_at 4 4 buf;
  header_size = uint_at 4 8 buf;
  flags = uint_at 4 12 buf;
  running_data_fork_offset = uint_at 8 16 buf;
  data_fork_offset = uint_at 8 24 buf;
  data_fork_length = uint_at 8 32 buf;
  rsrc_fork_offset = uint_at 8 40 buf;
  rsrc_fork_length = uint_at 8 48 buf;
  segment_number = uint_at 4 56 buf;
  segment_count = uint_at 4 60 buf;
  segment_id = record {
    data1 = uint_at 4 64 buf;
    data2 = uint_at 4 68 buf;
    data3 = uint_at 4 72 buf;
    data4 = uint_at 4 76 buf;
  };
  data_fork_checksum = decode_checksum 80 buf;
  xml_offset = uint_at 8 216 buf;
  xml_length = uint_at 8 224 buf;
  reserved1 = slice 232 120 buf;
  master_checksum = decode_checksum 352 buf;
  image_variant = uint_at 4 488 buf;
  sector_count = uint_at 8 492 buf;
  reserved2 = uint_at 4 500 buf;
  reserved3 = uint_at 4 504 buf;
  reserved4 = uint_at 4 508 buf;
}

-- `DecodeKoly`
unfoldable pub decode_koly : Bytes → Result KolyError Koly
decode_koly buf = if ltb (length buf) koly_size then err short_koly else ok (koly_of buf)
