-- ===== src/Hfsplus/Records/Resolve.antt =====
-- The records that `buildCatalogRecords` of internal/hfsplus/catalog.go makes are read back: from an
-- identifier to the parent and the name, and from these to the entry.
use mathlib.Core.Path.{subst}
use go_dmg_writer.Base.{
  Any, Any-append_right, All-map, bind-ok, ok-injective, ◌>>=◌, ◌≡◌, refl, ◌⊎◌, inl, inr,
  Bool-cases, List, [], ◌∷◌, ◌++◌, All, ok, ◌==◌, ==_iff,
}
use go_dmg_writer.Base.Bytes.{Bytes}
use go_dmg_writer.Hfsplus.Btree.{Record}
use go_dmg_writer.Hfsplus.Entry.{Entry, EntryKind, folder, file, symlink, unknown, cnid_root_parent}
use go_dmg_writer.Hfsplus.Keys.{encode_catalog_key}
use go_dmg_writer.Hfsplus.Records.{forward_data, no_name, entry_records, build_catalog_records}
use go_dmg_writer.Hfsplus.Records.Read.{
  EntryFits, ReadsForward, ReadsThread, reads_thread, reads_folder, reads_file, reads_symlink,
}

reads_forward :
    (e : Entry) (k : EntryKind) {fwd : Bytes}
    → e.kind ≡ k
    → EntryFits e
    → forward_data e k ≡ ok fwd
    → ReadsForward e k fwd
unfolding forward_data
reads_forward e folder kind ok_ f =
    subst (ReadsForward e folder) (ok-injective f) (reads_folder e ok_)
reads_forward e file kind ok_ f = subst (ReadsForward e file) (ok-injective f) (reads_file e ok_)
reads_forward e symlink kind ok_ f =
    subst (ReadsForward e symlink) (ok-injective f) (reads_symlink e kind ok_)
reads_forward e (unknown k) kind ok_ f = cc

-- The two records by which an entry is found.
abbrev pub IsThreadOf : Entry → Record → Type 0
IsThreadOf e r = (r.key ≡ encode_catalog_key e.cnid no_name) × ReadsThread e r.content

abbrev pub IsForwardOf : Entry → Record → Type 0
IsForwardOf e r =
    (r.key ≡ encode_catalog_key e.parent_cnid e.name) × ReadsForward e e.kind r.content

abbrev pub Resolves : List Record → Entry → Type 0
Resolves records e =
    (e.cnid ≡ cnid_root_parent) ⊎ (Any (IsThreadOf e) records × Any (IsForwardOf e) records)

Resolves-append :
    (front records : List Record) (e : Entry) → Resolves records e → Resolves (front ++ records) e
Resolves-append front records e (inl root) = inl root
Resolves-append front records e (inr (thread, forward)) = inr (
  Any-append_right (IsThreadOf e) front records thread,
  Any-append_right (IsForwardOf e) front records forward,
)

-- Of the records that `buildCatalogRecords` returns, each entry but the root's parent has a thread
-- record, under the key of its identifier and no name, in which a reader finds its parent and its
-- name, and a forward record, under the key of that parent and that name, in which a reader finds its
-- kind, its identifier, its mode, and its counts, or its data fork (the size, the number of blocks and
-- the extents) and an empty resource fork. A symlink's record also has the type and the creator of a
-- symlink.
pub build_catalog_records-Resolves :
    (es : List Entry) {records : List Record}
    → All EntryFits es
    → build_catalog_records es ≡ ok records
    → All (Resolves records) es
unfolding build_catalog_records
build_catalog_records-Resolves [] fits built = tt
build_catalog_records-Resolves (e ∷ es) {records} (here, fits) built =
    elim (Bool-cases (e.cnid == cnid_root_parent)) [
      | inl root ↦
          let rest : build_catalog_records es ≡ ok records = rw root at built in
          (inl ((==_iff _ _).0 root), build_catalog_records-Resolves es fits rest)
      | inr other ↦
          let both : (forward_data e e.kind >>= λ fwd.
          build_catalog_records es >>= λ more. ok (entry_records e fwd ++ more))
              ≡ ok records =
            rw other at built in
          let (fwd, forwarded, tail) = bind-ok (forward_data e e.kind) _ both in
          let (more, rest, last) = bind-ok (build_catalog_records es) _ tail in
          let resolved =
            All-map (Resolves more) (Resolves (entry_records e fwd ++ more)) es
              (Resolves-append (entry_records e fwd) more)
              (build_catalog_records-Resolves es fits rest) in
          subst (λ (rs : List Record). All (Resolves rs) (e ∷ es)) (ok-injective last)
            (
              inr (
                inr (inl (refl, reads_thread e here)),
                inl (refl, reads_forward e e.kind refl here forwarded),
              ),
              resolved,
            )
    ]
