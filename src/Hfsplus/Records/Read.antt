-- ===== src/Hfsplus/Records/Read.antt =====
-- What a reader finds in the records that the encoders of internal/hfsplus/catalog.go write.
use go_dmg_writer.Base.{
  ℕ, zero, suc, ◌+◌, ◌*◌, ◌<◌, ◌≡◌, refl, sym, ap, ap₂, ◌∙◌, List, [], ◌∷◌, All, le→leb,
  if◌then◌else◌, length, drop, arith,
}
use go_dmg_writer.Base.Bytes.{Bytes, be16, of_be, of_be-be16}
use go_dmg_writer.Wire.{Field, Found, Fits, slice, uint_at, encode}
use go_dmg_writer.Wire.Laws.{encode-Found, slice-front, slice-back}
use go_dmg_writer.Hfsplus.Entry.{Entry, EntryKind, folder, file, symlink, unknown}
use go_dmg_writer.Hfsplus.Types.{no_extents}
use go_dmg_writer.Hfsplus.Header.{no_fork}
use go_dmg_writer.Hfsplus.Header.RoundTrip.{read_fork, read_fork_lem}
use go_dmg_writer.Hfsplus.Keys.{unit_bytes}
use go_dmg_writer.Hfsplus.Structs.{folder_fields, file_fields}
use go_dmg_writer.Hfsplus.Records.{
  is_symlink, folder_of, file_of, encode_folder_record, encode_file_record, thread_type,
  thread_fields, encode_thread_record,
}

-- `n` code units in a row.
unfoldable pub read_units : ℕ → ℕ → Bytes → List ℕ
read_units zero at buf = []
read_units (suc n) at buf = uint_at 2 at buf ∷ read_units n (at + 2) buf

pub length-unit_bytes : (us : List ℕ) → length (unit_bytes us) ≡ length us * 2
unfolding unit_bytes be16
length-unit_bytes [] = refl
length-unit_bytes (u ∷ us) = omega (arith, length-unit_bytes us)

length-be16 : (v : ℕ) → length (be16 v) ≡ 2
unfolding be16
length-be16 v = refl

pub read_units_lem :
    (at : ℕ) (us : List ℕ) (buf : Bytes)
    → All (λ (u : ℕ). u < 65536) us
    → slice at (length us * 2) buf ≡ unit_bytes us
    → read_units (length us) at buf ≡ us
unfolding read_units unit_bytes
read_units_lem at [] buf small e = refl
read_units_lem at (u ∷ us) buf (h, small) e =
    let first =
      slice-front at 2 (length (u ∷ us) * 2) buf (be16 u) (unit_bytes us) (omega arith)
        (length-be16 u) e in
    ap₂ ◌∷◌ (ap of_be first ∙ of_be-be16 u h) (
      read_units_lem (at + 2) us buf small (
        slice-back at 2 (length us * 2) (length (u ∷ us) * 2) buf (be16 u) (unit_bytes us)
          (omega arith) (length-be16 u) e))

-- The fields of the entry are values of their types.
pub record EntryFits (e : Entry) : Type 0 where
  pub in_thread : All Fits (thread_fields e)
  pub in_folder : All Fits (folder_fields (folder_of e))
  pub in_file : All Fits (file_fields (file_of e))
  pub units_fit : All (λ (u : ℕ). u < 65536) e.name.units
  pub name_fits : length e.name.units < 65536

-- The forks of a file's record: the data fork has the entry's size, blocks and extents, the
-- resource fork is empty.
abbrev pub HoldsFork : Entry → Bytes → Type 0
HoldsFork e buf =
    (read_fork 88 buf ≡ record {
      logical_size = e.data_logical_size;
      clump_size = 0;
      total_blocks = e.data_total_blocks;
      extents = e.data_extents;
    })
    × (read_fork 168 buf
        ≡ record { logical_size = 0; clump_size = 0; total_blocks = 0; extents = no_extents })

-- What a reader finds in the forward record of an entry.
abbrev pub ReadsForward : Entry → EntryKind → Bytes → Type 0
ReadsForward e folder buf =
    (uint_at 2 0 buf ≡ 1)
    × (uint_at 4 8 buf ≡ e.cnid)
    × (uint_at 2 42 buf ≡ e.mode)
    × (uint_at 4 4 buf ≡ e.valence)
    × (uint_at 4 84 buf ≡ e.sub_folder_count)
ReadsForward e file buf =
    (uint_at 2 0 buf ≡ 2)
    × (uint_at 4 8 buf ≡ e.cnid)
    × (uint_at 2 42 buf ≡ e.mode)
    × HoldsFork e buf
ReadsForward e symlink buf =
    (uint_at 2 0 buf ≡ 2)
    × (uint_at 4 8 buf ≡ e.cnid)
    × (uint_at 2 42 buf ≡ e.mode)
    × HoldsFork e buf
    × (uint_at 4 48 buf ≡ 0x736c6e6b)
    × (uint_at 4 52 buf ≡ 0x72686170)
ReadsForward e (unknown k) buf = ⊥

-- What a reader finds in the thread record of an entry.
abbrev pub ReadsThread : Entry → Bytes → Type 0
ReadsThread e buf =
    (uint_at 2 0 buf ≡ thread_type e.kind)
    × (uint_at 4 4 buf ≡ e.parent_cnid)
    × (read_units (uint_at 2 8 buf) 10 buf ≡ e.name.units)

pub reads_thread : (e : Entry) → EntryFits e → ReadsThread e (encode_thread_record e)
unfolding encode_thread_record
reads_thread e ok_ =
    let n = length (unit_bytes e.name.units) in
    let (_, (kind, (_, (parent, (count, (name, _)))))) =
      encode-Found (10 + n) (thread_fields e) (le→leb _ _ (omega arith)) ok_.in_thread in
    let buf = encode (10 + n) (thread_fields e) in
    let counted : uint_at 2 8 buf ≡ length e.name.units = count ∙ omega (arith, ok_.name_fits) in
    (
      kind,
      parent,
      ap (λ (k : ℕ). read_units k 10 buf) counted
          ∙ read_units_lem 10 e.name.units buf ok_.units_fit
              (ap (λ (k : ℕ). slice 10 k buf) (sym (length-unit_bytes e.name.units)) ∙ name),
    )

-- What is found behind the first `n` fields.
after : (n : ℕ) (buf : Bytes) (fs : List Field) → All (Found buf) fs → All (Found buf) (drop n fs)
after zero buf fs h = h
after (suc n) buf [] h = h
after (suc n) buf (f ∷ fs) h = after n buf fs h.1

pub reads_folder : (e : Entry) → EntryFits e → ReadsForward e folder (encode_folder_record e)
unfolding encode_folder_record
reads_folder e ok_ =
    let buf = encode_folder_record e in
    let found = (encode-Found 88 (folder_fields (folder_of e)) refl ok_.in_folder).1 in
    let rest = after 13 buf (folder_fields (folder_of e)) found in
    (
      found.0,
      found.1.1.1.0,
      rest.0,
      found.1.1.0,
      (after 25 buf (folder_fields (folder_of e)) found).0,
    )

pub reads_file : (e : Entry) → EntryFits e → ReadsForward e file (encode_file_record e)
unfolding encode_file_record
reads_file e ok_ =
    let buf = encode_file_record e in
    let found = (encode-Found 248 (file_fields (file_of e)) refl ok_.in_file).1 in
    let forks = after 26 buf (file_fields (file_of e)) found in
    (
      found.0,
      found.1.1.1.0,
      (after 13 buf (file_fields (file_of e)) found).0,
      (
        read_fork_lem 88 (file_of e).data_fork buf forks.0 forks.1.0 forks.1.1.0 forks.1.1.1.0,
        read_fork_lem 168 no_fork buf forks.1.1.1.1.0 forks.1.1.1.1.1.0 forks.1.1.1.1.1.1.0
            forks.1.1.1.1.1.1.1.0,
      ),
    )

pub reads_symlink :
    (e : Entry) → e.kind ≡ symlink → EntryFits e → ReadsForward e symlink (encode_file_record e)
unfolding encode_file_record
reads_symlink e sym_ ok_ =
    let buf = encode_file_record e in
    let found = (encode-Found 248 (file_fields (file_of e)) refl ok_.in_file).1 in
    let info = after 15 buf (file_fields (file_of e)) found in
    let (kind, id, mode, fork) = reads_file e ok_ in
    (
      kind,
      id,
      mode,
      fork,
      info.0 ∙ ap (λ (k : EntryKind). if is_symlink k then 0x736c6e6b else 0) sym_,
      info.1.0 ∙ ap (λ (k : EntryKind). if is_symlink k then 0x72686170 else 0) sym_,
    )
