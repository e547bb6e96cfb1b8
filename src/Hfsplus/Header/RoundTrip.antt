-- ===== src/Hfsplus/Header/RoundTrip.antt =====
-- A reader of the volume header, by the offsets of Apple's description of the format, after
-- `VolumeHeader.Encode` of internal/hfsplus/types.go.
use go_dmg_writer.Base.{ℕ, ◌+◌, ◌≡◌, refl, ap, ◌∙◌, List, [], ◌∷◌, All, length}
use go_dmg_writer.Base.Bytes.{Bytes}
use go_dmg_writer.Wire.{Fits, encode, uint_at, read_words}
use go_dmg_writer.Wire.Laws.{encode-Found}
use go_dmg_writer.Hfsplus.Types.{ForkData, ExtentRecord}
use go_dmg_writer.Hfsplus.Header.{
  VolumeHeader, volume_header_size, extent_words, header_fields, encode_header,
}

unfoldable pub extents_of : List ℕ → ExtentRecord
extents_of [] = []
extents_of (start ∷ []) = []
extents_of (start ∷ count ∷ vs) =
    record { start_block = start; block_count = count } ∷ extents_of vs

abbrev pub read_fork : ℕ → Bytes → ForkData
read_fork at buf = record {
  logical_size = uint_at 8 at buf;
  clump_size = uint_at 4 (at + 8) buf;
  total_blocks = uint_at 4 (at + 12) buf;
  extents = extents_of (read_words 16 (at + 16) buf);
}

unfoldable pub read_header : Bytes → VolumeHeader
read_header buf = record {
  signature = uint_at 2 0 buf;
  version = uint_at 2 2 buf;
  attributes = uint_at 4 4 buf;
  last_mounted_version = uint_at 4 8 buf;
  journal_info_block = uint_at 4 12 buf;
  create_date = uint_at 4 16 buf;
  modify_date = uint_at 4 20 buf;
  backup_date = uint_at 4 24 buf;
  checked_date = uint_at 4 28 buf;
  file_count = uint_at 4 32 buf;
  folder_count = uint_at 4 36 buf;
  block_size = uint_at 4 40 buf;
  total_blocks = uint_at 4 44 buf;
  free_blocks = uint_at 4 48 buf;
  next_allocation = uint_at 4 52 buf;
  rsrc_clump_size = uint_at 4 56 buf;
  data_clump_size = uint_at 4 60 buf;
  next_catalog_id = uint_at 4 64 buf;
  write_count = uint_at 4 68 buf;
  encodings_bitmap = uint_at 8 72 buf;
  finder_info = read_words 8 80 buf;
  allocation_file = read_fork 112 buf;
  extents_file = read_fork 192 buf;
  catalog_file = read_fork 272 buf;
  attributes_file = read_fork 352 buf;
  startup_file = read_fork 432 buf;
}

extents_of-extent_words : (es : ExtentRecord) → extents_of (extent_words es) ≡ es
unfolding extents_of extent_words
extents_of-extent_words [] = refl
extents_of-extent_words (e ∷ es) = ap (◌∷◌ e) (extents_of-extent_words es)

pub read_fork_lem :
    (at : ℕ) (f : ForkData) (buf : Bytes)
    → uint_at 8 at buf ≡ f.logical_size
    → uint_at 4 (at + 8) buf ≡ f.clump_size
    → uint_at 4 (at + 12) buf ≡ f.total_blocks
    → read_words 16 (at + 16) buf ≡ extent_words f.extents
    → read_fork at buf ≡ f
read_fork_lem at f buf size clump blocks words = λ i. record {
  logical_size = size i;
  clump_size = clump i;
  total_blocks = blocks i;
  extents = (ap extents_of words ∙ extents_of-extent_words f.extents) i;
}

-- A volume header whose fields fit their types is encoded in exactly 512 bytes, and reading each field
-- at its place gives the header back, with its five forks.
pub read_header-encode_header :
    (v : VolumeHeader)
    → All Fits (header_fields v)
    → (length (encode_header v) ≡ 512) × (read_header (encode_header v) ≡ v)
unfolding encode_header read_header
read_header-encode_header v fits =
    let (len, found) = encode-Found volume_header_size (header_fields v) refl fits in
    let (
      h0,
      (
        h1,
        (
          h2,
          (
            h3,
            (
              h4,
              (
                h5,
                (
                  h6,
                  (
                    h7,
                    (
                      h8,
                      (
                        h9,
                        (
                          h10,
                          (
                            h11,
                            (
                              h12,
                              (
                                h13,
                                (
                                  h14,
                                  (
                                    h15,
                                    (
                                      h16,
                                      (
                                        h17,
                                        (
                                          h18,
                                          (
                                            h19,
                                            (
                                              h20,
                                              (
                                                a0,
                                                (
                                                  a1,
                                                  (
                                                    a2,
                                                    (
                                                      a3,
                                                      (
                                                        b0,
                                                        (
                                                          b1,
                                                          (
                                                            b2,
                                                            (
                                                            b3,
                                                            (
                                                            c0,
                                                            (
                                                            c1,
                                                            (
                                                            c2,
                                                            (
                                                            c3,
                                                            (
                                                            d0,
                                                            (
                                                            d1,
                                                            (d2, (d3, (e0, (e1, (e2, (e3, _)))))),
                                                            ),
                                                            ),
                                                            ),
                                                            ),
                                                            ),
                                                            ),
                                                            ),
                                                          ),
                                                        ),
                                                      ),
                                                    ),
                                                  ),
                                                ),
                                              ),
                                            ),
                                          ),
                                        ),
                                      ),
                                    ),
                                  ),
                                ),
                              ),
                            ),
                          ),
                        ),
                      ),
                    ),
                  ),
                ),
              ),
            ),
          ),
        ),
      ),
    ) =
      found in
    let buf = encode volume_header_size (header_fields v) in
    let a = read_fork_lem 112 v.allocation_file buf a0 a1 a2 a3 in
    let b = read_fork_lem 192 v.extents_file buf b0 b1 b2 b3 in
    let c = read_fork_lem 272 v.catalog_file buf c0 c1 c2 c3 in
    let d = read_fork_lem 352 v.attributes_file buf d0 d1 d2 d3 in
    let e = read_fork_lem 432 v.startup_file buf e0 e1 e2 e3 in
    (
      len,
      λ i. record {
        signature = h0 i;
        version = h1 i;
        attributes = h2 i;
        last_mounted_version = h3 i;
        journal_info_block = h4 i;
        create_date = h5 i;
        modify_date = h6 i;
        backup_date = h7 i;
        checked_date = h8 i;
        file_count = h9 i;
        folder_count = h10 i;
        block_size = h11 i;
        total_blocks = h12 i;
        free_blocks = h13 i;
        next_allocation = h14 i;
        rsrc_clump_size = h15 i;
        data_clump_size = h16 i;
        next_catalog_id = h17 i;
        write_count = h18 i;
        encodings_bitmap = h19 i;
        finder_info = h20 i;
        allocation_file = a i;
        extents_file = b i;
        catalog_file = c i;
        attributes_file = d i;
        startup_file = e i;
      },
    )
