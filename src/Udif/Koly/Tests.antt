-- ===== src/Udif/Koly/Tests.antt =====
-- Runs of the code of internal/udif/koly.go on small inputs.
use go_dmg_writer.Base.{◌≡◌, refl, ok, replicate, length, ◌∷◌}
use go_dmg_writer.Wire.Decide.{all_fit-Fits, all_fit}
use go_dmg_writer.Udif.Koly.{Koly, UdifChecksum, koly_fields, encode_koly, decode_koly}
use go_dmg_writer.Udif.Koly.RoundTrip.{decode_koly-encode_koly}

abbrev a_checksum : UdifChecksum
a_checksum = record { check_type = 2; size = 32; data_words = 0xcbf43926 ∷ replicate 31 0 }

abbrev a_trailer : Koly
a_trailer = record {
  signature = 0x6b6f6c79;
  version = 4;
  header_size = 512;
  flags = 1;
  running_data_fork_offset = 0;
  data_fork_offset = 0;
  data_fork_length = 77824;
  rsrc_fork_offset = 0;
  rsrc_fork_length = 0;
  segment_number = 1;
  segment_count = 1;
  segment_id = record { data1 = 0x67206f6f; data2 = 1; data3 = 2; data4 = 0xffffffff };
  data_fork_checksum = a_checksum;
  xml_offset = 77824;
  xml_length = 9001;
  reserved1 = replicate 120 0;
  master_checksum = a_checksum;
  image_variant = 1;
  sector_count = 1208;
  reserved2 = 0;
  reserved3 = 0;
  reserved4 = 0;
}

decode_koly-encode_koly_example :
    (length (encode_koly a_trailer) ≡ 512) × (decode_koly (encode_koly a_trailer) ≡ ok a_trailer)
unfolding all_fit
decode_koly-encode_koly_example =
    decode_koly-encode_koly a_trailer (all_fit-Fits (koly_fields a_trailer) refl)
