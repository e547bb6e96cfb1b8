-- ===== src/Lib.antt =====
-- go-dmg-writer writes a macOS disk image (.dmg) from a directory. The repository root walks the
-- directory, internal/hfsplus lays out an HFS+ volume, internal/gpt frames it as a partitioned disk,
-- and internal/udif streams the disk into the UDIF container in compressed chunks.
--
-- Modelled here:
--   * Hfsplus.Allocation: the allocation bitmap of internal/hfsplus/allocation.go. `mark_used` is
--     MarkUsed, in which `none` is a run-time panic; `free_blocks` is FreeBlocks.
--   * Hfsplus.Plan, Hfsplus.Layout: BuildPlan of internal/hfsplus/layout.go in stages:
--     `fork_blocks`, `size_files`, `alloc_loop` (the fixed point between the allocation file and
--     the volume that it describes), `place_files`, `mark_plan`, `count_entries`, composed by
--     `build_plan` and `finish_plan`. An entry that a file points to is a position in the list of entries.
--   * Hfsplus.Btree: internal/hfsplus/btree.go: the packing of leaves (`pack_leaves`) and of index
--     levels (`index_levels`), the loop over map nodes (`map_loop`), the nodes on disk
--     (Hfsplus.Btree.Nodes: `write_records_node`, `emit_header_node`, `emit_map_node`), the numbers,
--     links and places of the nodes and BuildTree (Hfsplus.Btree.Emit: `emit_tree`, `build_tree`), and
--     PadToBlocks (Hfsplus.Btree.Pad: `pad_to_blocks`).
--   * Wire: structures on disk. The Encode methods are lists of fields, each with its offset, which
--     `encode` writes one after the other into a zeroed buffer, as the Put calls of the code do.
--   * Hfsplus.Header: VolumeHeader.Encode of internal/hfsplus/types.go (`encode_header`) and
--     BuildVolumeHeader of internal/hfsplus/volumeheader.go (`build_volume_header`).
--   * Hfsplus.Structs, Hfsplus.Records: the other structures of internal/hfsplus/types.go, and
--     buildCatalogRecords of internal/hfsplus/catalog.go with its encoders (`build_catalog_records`).
--   * Hfsplus.Attr: of internal/hfsplus/attributes.go the keys and their order (`compare_attr_keys`)
--     and buildAttrRecords (`build_attr_records`).
--   * Source: `walk` of dmg.go. Source.Walk is walkSorted over a directory tree (`walk_sorted`),
--     Source.Scan the first pass (`visit_path`), Source.Collect the second (`collect_one`), the
--     counters (`backfill`) and `walk`.
--   * Xattrs: ReadXattrs of internal/xattrs/xattrs_unix.go (`read_xattrs`). `retry` is the loop that both
--     listXattrNames and getXattrValue have; the two system calls of each are a record of functions on
--     the state of the world (`Calls`), and `isNoXattrErr` has the errnos of a platform as a list.
--   * Udif.Koly, Udif.Blkx: the trailer of internal/udif/koly.go (`encode_koly`, `decode_koly`) and the
--     chunk table of internal/udif/blkx.go (`encode_blkx`).
--   * Hfsplus.Utf16: encodeUTF16 of internal/hfsplus/unicode.go (`encode_utf16`).
--   * Hfsplus.Keys: the order of names of internal/hfsplus/unicode.go (`hfs_compare`), and the
--     encoding and the order of catalog keys of internal/hfsplus/catalog.go (`encode_catalog_key`,
--     `compare_catalog_keys`).
--   * Udif.Chunks: of internal/udif/writer.go what the parts of encodeChunks compute: the producer
--     (`read_chunks`), a worker on one chunk (`encode_chunk`), the drain (`receive`, `flush`, `emit`)
--     and isAllZero (`is_all_zero`).
--   * Udif.Pipeline: the goroutines of encodeChunks as a step relation (`Step`) on the producer's
--     chunks, the two channels with their capacities, the workers and the drain; what encodeChunks
--     then returns is `outcome`. That the source or the destination fails is part of the steps, and
--     `EncodeError` tells the two errors apart.
--   * Udif.Regions: blkxSpecs of internal/udif/writer.go (`blkx_specs`).
--   * Gpt: the geometry and the regions of internal/gpt/gpt.go (`new`, `regions`), and the loop of
--     dmg.go that passes the regions on (`udif_regions`).
--   * Hfsplus.Types, Hfsplus.Entry: the types that these use. Base: shared names, lists over native
--     numbers, results, and big-endian words.
--
-- Words of Go are native numbers; where the code computes in uint32 or uint64, `u32` and `u64` wrap.
-- Of the library code, the zlib writer is a function `deflate`, a reader's inverse a function
-- `inflate` with `inflate (deflate p) ≡ p`, and the destination a function `write` that returns
-- `none` on an error; fmt.Sprintf and the SHA-256 of a GUID are functions. Of the operating system,
-- a directory tree stands for what os.Lstat and os.ReadDir report, os.Readlink is a function, and so
-- is the reading of the extended attributes in `walk`. A name's runes after normalization are a
-- function of its bytes.
--
-- Fuel: `alloc_loop` has one round for each block that the allocation file could need, `index_levels`
-- one for each key and one more, `map_loop` one for each node and one more, `read_chunks` one for each
-- byte, `flush` one for each waiting result and one more.
--
-- Not modelled: the sorting of the catalog's and the attributes' records, the volume builder, the
-- bytes of the property list and of the partition map, the checksums, the timestamps, and the
-- assembly of the parts in dmg.go. The producer's errors of the CRC writer and of zlib are left out:
-- a hash and a bytes.Buffer return none.
pub mod Base
pub mod Gpt
pub mod Hfsplus
pub mod Source
pub mod Udif
pub mod Wire
pub mod Xattrs
