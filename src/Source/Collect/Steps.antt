-- ===== src/Source/Collect/Steps.antt =====
-- One round of the second pass of `walk` in dmg.go: the entry that it appends, and what it counts.
use Prim.Native.Nat.{bit_or}
use mathlib.Core.Path.{subst}
use go_dmg_writer.Base.{
  ℕ, ◌≡◌, ◌≢◌, refl, inl, inr, List, [], ◌∷◌, ◌++◌, Option-cases, none, some, Result, ok,
  ok-injective, bind-ok, length,
}
use go_dmg_writer.Base.Bytes.{Bytes, u64}
use go_dmg_writer.Hfsplus.Attr.{Attr}
use go_dmg_writer.Hfsplus.Entry.{Entry, EntryKind, folder, file, symlink, unknown, HfsName}
use go_dmg_writer.Hfsplus.Keys.{unit_bytes}
use go_dmg_writer.Source.Walk.{OsError, FileKind, link, directory, regular, special, FilePath}
use go_dmg_writer.Source.Scan.{Pending, mode_bits, new_folder_entry}
use go_dmg_writer.Source.Collect.{
  new_name, base_name, find_claim, leaf_entry, Collected, bump, os_result, collect_kind, claim_name,
  with_name, collect_one,
}

-- The catalog's kind of a file that is not skipped.
abbrev pub kind_of : FileKind → EntryKind
kind_of link = symlink
kind_of directory = folder
kind_of regular = file
kind_of special = unknown 0

-- `m[k]++` for a directory only.
abbrev pub bump_if : FileKind → (ℕ → ℕ) → ℕ → ℕ → ℕ
bump_if link m k = m
bump_if directory m k = bump m k
bump_if regular m k = m
bump_if special m k = m

-- What a round that succeeds does: it appends the entry of the path, under a name that no entry of
-- the directory has, and counts it.
pub record IsRound (c : Collected) (p : Pending) (c' : Collected) : Type 0 where
  pub entry : Entry
  pub appended : c'.out.entries ≡ c.out.entries ++ (entry ∷ [])
  pub same_cnid : entry.cnid ≡ p.cnid
  pub same_parent : entry.parent_cnid ≡ p.parent
  pub same_kind : entry.kind ≡ kind_of p.info.kind
  pub fresh : find_claim entry.parent_cnid (unit_bytes entry.name.units) c.claimed ≡ none
  pub claims :
      c'.claimed
      ≡ record { parent = entry.parent_cnid; name = unit_bytes entry.name.units; path = p.path }
        ∷ c.claimed
  pub counted : c'.valence ≡ bump c.valence p.parent
  pub folders : c'.sub_folders ≡ bump_if p.info.kind c.sub_folders p.parent

-- The same, from the state in which the name is claimed.
record IsAppended (c : Collected) (p : Pending) (name : HfsName) (k : FileKind) (c' : Collected)
    : Type 0 where
  entry : Entry
  appended : c'.out.entries ≡ c.out.entries ++ (entry ∷ [])
  same_cnid : entry.cnid ≡ p.cnid
  same_parent : entry.parent_cnid ≡ p.parent
  same_name : entry.name ≡ name
  same_kind : entry.kind ≡ kind_of k
  claims : c'.claimed ≡ c.claimed
  counted : c'.valence ≡ c.valence
  folders : c'.sub_folders ≡ bump_if k c.sub_folders p.parent

module _ (nfd_runes : Bytes → List ℕ) (readlink : FilePath → Result OsError Bytes)
    (read_xattrs : FilePath → ℕ → Result OsError (List Attr)) (mac_time owner_id group_id : ℕ) where
  collect_kind-IsAppended :
      (c : Collected) (p : Pending) (name : HfsName) (k : FileKind) {c' : Collected}
      → k ≢ special
      → collect_kind nfd_runes readlink read_xattrs mac_time owner_id group_id c p name k ≡ ok c'
      → IsAppended c p name k c'
  unfolding collect_kind new_folder_entry
  collect_kind-IsAppended c p name special ne done = absurd (ne refl)
  collect_kind-IsAppended c p name link ne done =
      let (target, read, made) = bind-ok (os_result (readlink p.path)) _ done in
      subst (IsAppended c p name link) (ok-injective made) (record {
        entry =
            leaf_entry symlink (bit_or (mode_bits p.info) 0xa000) (u64 (length target)) target p
              name mac_time owner_id group_id;
        appended = refl;
        same_cnid = refl;
        same_parent = refl;
        same_name = refl;
        same_kind = refl;
        claims = refl;
        counted = refl;
        folders = refl;
      })
  collect_kind-IsAppended c p name directory ne done =
      let (attrs, read, made) = bind-ok (os_result (read_xattrs p.path p.cnid)) _ done in
      subst (IsAppended c p name directory) (ok-injective made) (record {
        entry = new_folder_entry p.cnid p.parent name mac_time owner_id group_id (mode_bits p.info);
        appended = refl;
        same_cnid = refl;
        same_parent = refl;
        same_name = refl;
        same_kind = refl;
        claims = refl;
        counted = refl;
        folders = refl;
      })
  collect_kind-IsAppended c p name regular ne done =
      let (attrs, read, made) = bind-ok (os_result (read_xattrs p.path p.cnid)) _ done in
      subst (IsAppended c p name regular) (ok-injective made) (record {
        entry =
            leaf_entry file (bit_or (mode_bits p.info) 0x8000) (u64 p.info.size) [] p name mac_time
              owner_id group_id;
        appended = refl;
        same_cnid = refl;
        same_parent = refl;
        same_name = refl;
        same_kind = refl;
        claims = refl;
        counted = refl;
        folders = refl;
      })

  -- Each round that succeeds appends one entry.
  pub collect_one-IsRound :
      (c : Collected) (p : Pending) {c' : Collected}
      → p.info.kind ≢ special
      → collect_one nfd_runes readlink read_xattrs mac_time owner_id group_id c p ≡ ok c'
      → IsRound c p c'
  unfolding collect_one
  collect_one-IsRound c p {c'} ne done =
      elim (Option-cases (new_name nfd_runes (base_name p.path))) [
        | inl none_ ↦ absurd (
            let e : with_name nfd_runes readlink read_xattrs mac_time owner_id group_id c p none
                ≡ ok c' =
              (rw none_ at done) in
            cc)
        | inr (name, some_) ↦
            let claim =
              claim_name nfd_runes readlink read_xattrs mac_time owner_id group_id c p name in
            let named : claim (find_claim p.parent (unit_bytes name.units) c.claimed) ≡ ok c' =
              rw some_ at done in
            elim (Option-cases (find_claim p.parent (unit_bytes name.units) c.claimed)) [
              | inr (first, found) ↦
                  absurd (let e : claim (some first) ≡ ok c' = (rw found at named) in cc)
              | inl free ↦
                  let made : claim none ≡ ok c' = rw free at named in
                  let a = collect_kind-IsAppended _ p name p.info.kind ne made in
                  record {
                    entry = a.entry;
                    appended = a.appended;
                    same_cnid = a.same_cnid;
                    same_parent = a.same_parent;
                    same_kind = a.same_kind;
                    fresh = rw (a.same_parent, a.same_name) free;
                    claims = rw (a.same_parent, a.same_name) a.claims;
                    counted = a.counted;
                    folders = a.folders;
                  }
            ]
      ]
