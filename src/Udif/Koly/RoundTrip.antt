-- ===== src/Udif/Koly/RoundTrip.antt =====
-- `DecodeKoly` after `Koly.Encode` of internal/udif/koly.go.
use go_dmg_writer.Base.{ℕ, ◌≡◌, refl, ap, ◌∙◌, ok, err, All, ltb, if◌then◌else◌, length}
use go_dmg_writer.Wire.{Fits}
use go_dmg_writer.Wire.Laws.{encode-Found}
use go_dmg_writer.Udif.Koly.{
  Koly, koly_size, koly_fields, koly_of, encode_koly, decode_koly, short_koly,
}

-- A trailer whose fields all fit their Go types is encoded in exactly 512 bytes, and decoding them
-- gives every field of the trailer back.
pub decode_koly-encode_koly :
    (k : Koly)
    → All Fits (koly_fields k)
    → (length (encode_koly k) ≡ 512) × (decode_koly (encode_koly k) ≡ ok k)
unfolding encode_koly decode_koly
decode_koly-encode_koly k fits =
    let (len, found) = encode-Found koly_size (koly_fields k) refl fits in
    let (
      e0,
      (
        e1,
        (
          e2,
          (
            e3,
            (
              e4,
              (
                e5,
                (
                  e6,
                  (
                    e7,
                    (
                      e8,
                      (
                        e9,
                        (
                          e10,
                          (
                            i1,
                            (
                              i2,
                              (
                                i3,
                                (
                                  i4,
                                  (
                                    c1,
                                    (
                                      c2,
                                      (
                                        c3,
                                        (
                                          x1,
                                          (
                                            x2,
                                            (r1, (m1, (m2, (m3, (v1, (v2, (r2, (r3, (r4, _))))))))),
                                          ),
                                        ),
                                      ),
                                    ),
                                  ),
                                ),
                              ),
                            ),
                          ),
                        ),
                      ),
                    ),
                  ),
                ),
              ),
            ),
          ),
        ),
      ),
    ) =
      found in
    (
      len,
      ap (λ (n : ℕ). if ltb n koly_size then err short_koly else ok (koly_of (encode_koly k))) len
          ∙ ap ok (λ i. record {
            signature = e0 i;
            version = e1 i;
            header_size = e2 i;
            flags = e3 i;
            running_data_fork_offset = e4 i;
            data_fork_offset = e5 i;
            data_fork_length = e6 i;
            rsrc_fork_offset = e7 i;
            rsrc_fork_length = e8 i;
            segment_number = e9 i;
            segment_count = e10 i;
            segment_id = record { data1 = i1 i; data2 = i2 i; data3 = i3 i; data4 = i4 i };
            data_fork_checksum = record { check_type = c1 i; size = c2 i; data_words = c3 i };
            xml_offset = x1 i;
            xml_length = x2 i;
            reserved1 = r1 i;
            master_checksum = record { check_type = m1 i; size = m2 i; data_words = m3 i };
            image_variant = v1 i;
            sector_count = v2 i;
            reserved2 = r2 i;
            reserved3 = r3 i;
            reserved4 = r4 i;
          }),
    )
