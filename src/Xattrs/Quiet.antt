-- ===== src/Xattrs/Quiet.antt =====
-- `ReadXattrs` of internal/xattrs/xattrs_unix.go on a file whose attributes do not change.
use mathlib.Core.List.{append_assoc, append-nil}
use go_dmg_writer.Base.{
  ℕ, ◌≡◌, sym, ap, ◌∙◌, Bool, List, [], ◌∷◌, ◌++◌, All, map, if◌then◌else◌, ok,
}
use go_dmg_writer.Base.Bytes.{Bytes}
use go_dmg_writer.Hfsplus.Attr.{Attr}
use go_dmg_writer.Xattrs.{Calls, read_all, with_value, read_names, with_names, read_xattrs}
use go_dmg_writer.Xattrs.Names.{
  IsAttrName, delimited, name-is_empty, split_null_delimited-delimited,
}
use go_dmg_writer.Xattrs.Snapshot.{IsKernel, quiet-read_all}

module _ {S : Type 0} (erange : ℕ) (errnos : List ℕ) (list_calls : Calls S)
    (get_calls : Bytes → Calls S) (next : S → S) (names : List Bytes) (value : Bytes → Bytes) where
  abbrev attr_of : ℕ → Bytes → Attr
  attr_of file_id name = record { file_id = file_id; name = name; content = value name }

  read_names-quiet :
      (file_id : ℕ) (out : List Attr) (s : S) (ns : List Bytes)
      → ((name : Bytes) → IsKernel erange (get_calls name) next (λ s. value name))
      → All IsAttrName ns
      → (s' : S) × (read_names erange errnos list_calls get_calls file_id out s ns
          ≡ (s', ok (out ++ map (attr_of file_id) ns)))
  unfolding read_names
  read_names-quiet file_id out s [] kernel h =
      (s, ap (λ (l : List Attr). (s, ok l)) (sym (append-nil out)))
  read_names-quiet file_id out s (n ∷ ns) kernel ((ne, _), h) =
      let (s1, read) = quiet-read_all erange (get_calls n) next (value n) (kernel n) s in
      let (s2, rest) = read_names-quiet file_id (out ++ (attr_of file_id n ∷ [])) s1 ns kernel h in
      let again = λ (out' : List Attr) (s' : S).
        read_names erange errnos list_calls get_calls file_id out' s' ns in
      let skipped = read_names erange errnos list_calls get_calls file_id out s ns in
      let taken = with_value erange errnos list_calls get_calls again file_id out n in
      (
        s2,
        ap (λ (t : Bool). if t then skipped else taken (read_all erange (get_calls n) s))
              (name-is_empty n ne)
            ∙ ap taken read
            ∙ rest
            ∙ ap (λ (l : List Attr). (s2, ok l))
                (append_assoc out (attr_of file_id n ∷ []) (map (attr_of file_id) ns)),
      )

  -- On a file whose attributes do not change while it is read, the system reporting their names with a
  -- NUL behind each, `ReadXattrs` returns all attributes, in the order of their names and with their
  -- values.
  pub read_xattrs-quiet :
      (file_id : ℕ) (s : S)
      → IsKernel erange list_calls next (λ s. delimited names)
      → ((name : Bytes) → IsKernel erange (get_calls name) next (λ s. value name))
      → All IsAttrName names
      → (s' : S) × (read_xattrs erange errnos list_calls get_calls file_id s ≡ (
        s',
        ok (
            map
              (λ (name : Bytes). record { file_id = file_id; name = name; content = value name })
              names),
      ))
  unfolding read_xattrs
  read_xattrs-quiet file_id s lists gets h =
      let (s1, read) = quiet-read_all erange list_calls next (delimited names) lists s in
      let (s2, rest) = read_names-quiet file_id [] s1 names gets h in
      (
        s2,
        ap (with_names erange errnos list_calls get_calls file_id) read
            ∙ ap (read_names erange errnos list_calls get_calls file_id [] s1)
                (split_null_delimited-delimited names h)
            ∙ rest,
      )
