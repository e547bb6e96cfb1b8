-- ===== src/Xattrs.antt =====
-- internal/xattrs/xattrs_unix.go: the extended attributes of a file through system calls whose answers
-- can change between two calls.
pub mod Names
pub mod Snapshot
pub mod Quiet
mod Tests
use go_dmg_writer.Base.{
  ℕ, zero, suc, ◌*◌, Bool, true, false, ◌&&◌, List, [], ◌∷◌, ◌++◌, leb, ◌==◌, if◌then◌else◌, Result,
  ok, err,
}
use go_dmg_writer.Base.Bytes.{Bytes}
use go_dmg_writer.Hfsplus.Attr.{Attr}
use go_dmg_writer.Hfsplus.Btree.{is_empty}

pub data XattrError : Type 0 where
  errno : ℕ → XattrError
  too_many_retries : XattrError

-- A call with a nil buffer, which reports a size, and a call with a buffer of so many bytes, which
-- reports the bytes that it has filled. Both may change the world, `S`, or find it changed.
pub record Calls (S : Type 0) : Type 0 where
  pub probe : S → S × Result ℕ ℕ
  pub fill : S → ℕ → S × Result ℕ Bytes

-- The retry loops of `listXattrNames` and `getXattrValue`, which are the same; `erange` is the errno
-- ERANGE of the platform, `attempts` how many are left and `len` the length of the buffer.
module _ {S : Type 0} (erange : ℕ) (calls : Calls S) where
  -- Behind the second probe; `again` is the rest of the loop.
  abbrev pub probed :
      (S → ℕ → S × Result XattrError Bytes) → ℕ → S × Result ℕ ℕ → S × Result XattrError Bytes
  probed again len (s, err e) = (s, err (errno e))
  probed again len (s, ok size) = again s (if leb size len then len * 2 else size)

  -- Behind the call with a buffer.
  abbrev pub filled :
      (S → ℕ → S × Result XattrError Bytes) → ℕ → S × Result ℕ Bytes → S × Result XattrError Bytes
  filled again len (s, ok bytes) = (s, ok bytes)
  filled again len (s, err e) =
      if e == erange then probed again len (calls.probe s) else (s, err (errno e))

  unfoldable pub retry : ℕ → S → ℕ → S × Result XattrError Bytes
  retry zero s len = (s, err too_many_retries)
  retry (suc attempts) s len = filled (λ s' len'. retry attempts s' len') len (calls.fill s len)

  -- The first probe: nothing to read, or eight attempts.
  unfoldable pub first_probe : S × Result ℕ ℕ → S × Result XattrError Bytes
  unfolding retry
  first_probe (s, err e) = (s, err (errno e))
  first_probe (s, ok zero) = (s, ok [])
  first_probe (s, ok (suc size)) = retry 8 s (suc size)

  unfoldable pub read_all : S → S × Result XattrError Bytes
  unfolding first_probe
  read_all s = first_probe (calls.probe s)

-- `strings.TrimRight(s, "\x00")`
unfoldable pub trim_right : Bytes → Bytes
trim_right [] = []
trim_right (b ∷ bs) = let rest = trim_right bs in if is_empty rest && (b == 0) then [] else b ∷ rest

abbrev pub cons_head : ℕ → List Bytes → List Bytes
cons_head b [] = (b ∷ []) ∷ []
cons_head b (s ∷ ss) = (b ∷ s) ∷ ss

-- `strings.Split(s, "\x00")`
unfoldable pub split : Bytes → List Bytes
split [] = [] ∷ []
split (b ∷ bs) = let rest = split bs in if b == 0 then [] ∷ rest else cons_head b rest

-- `splitNullDelimited`
unfoldable pub split_null_delimited : Bytes → List Bytes
unfolding trim_right split
split_null_delimited buf = let s = trim_right buf in if is_empty s then [] else split s

-- `isNoXattrErr`, with the errnos of the platform.
unfoldable pub is_no_xattr_err : List ℕ → XattrError → Bool
is_no_xattr_err errnos too_many_retries = false
is_no_xattr_err [] (errno e) = false
is_no_xattr_err (n ∷ errnos) (errno e) =
    let rest = is_no_xattr_err errnos (errno e) in if e == n then true else rest

module _ {S : Type 0} (erange : ℕ) (errnos : List ℕ) (list_calls : Calls S)
    (get_calls : Bytes → Calls S) where
  -- Behind the read of a value; `next` is the rest of the loop.
  abbrev pub with_value :
      (List Attr → S → S × Result XattrError (List Attr))
      → ℕ
      → List Attr
      → Bytes
      → S × Result XattrError Bytes
      → S × Result XattrError (List Attr)
  with_value next file_id out name (s, ok value) =
      next (out ++ (record { file_id = file_id; name = name; content = value } ∷ [])) s
  with_value next file_id out name (s, err e) =
      if is_no_xattr_err errnos e then next out s else (s, err e)

  -- The loop of `ReadXattrs` over the names.
  unfoldable pub read_names : ℕ → List Attr → S → List Bytes → S × Result XattrError (List Attr)
  read_names file_id out s [] = (s, ok out)
  read_names file_id out s (name ∷ names) =
      let next =
        with_value (λ out' s'. read_names file_id out' s' names) file_id out name
          (read_all erange (get_calls name) s) in
      let skipped = read_names file_id out s names in if is_empty name then skipped else next

  abbrev pub with_names : ℕ → S × Result XattrError Bytes → S × Result XattrError (List Attr)
  with_names file_id (s, ok buf) = read_names file_id [] s (split_null_delimited buf)
  with_names file_id (s, err e) = if is_no_xattr_err errnos e then (s, ok []) else (s, err e)

  -- `ReadXattrs`
  unfoldable pub read_xattrs : ℕ → S → S × Result XattrError (List Attr)
  unfolding read_names read_all split_null_delimited is_no_xattr_err
  read_xattrs file_id s = with_names file_id (read_all erange list_calls s)
