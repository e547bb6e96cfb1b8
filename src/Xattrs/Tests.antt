-- ===== src/Xattrs/Tests.antt =====
-- A system in which a value grows between two calls, and one in which nothing changes.
use go_dmg_writer.Base.{
  ℕ, suc, ◌≡◌, refl, List, [], ◌∷◌, min, leb, if◌then◌else◌, length, replicate, ok, err,
}
use go_dmg_writer.Base.Bytes.{Bytes}
use go_dmg_writer.Xattrs.{Calls, read_all, read_xattrs, retry, first_probe}
use go_dmg_writer.Xattrs.Names.{delimited}
use go_dmg_writer.Xattrs.Snapshot.{IsKernel, IsSnapshot, read_all-IsSnapshot}
use go_dmg_writer.Xattrs.Quiet.{read_xattrs-quiet}

-- The world is the number of calls so far.
abbrev calls_of : (ℕ → Bytes) → Calls ℕ
calls_of content = record {
  probe = λ s. (suc s, ok (length (content s)));
  fill = λ s len. (suc s, if leb (length (content s)) len then ok (content s) else err 34);
}

abbrev growing : ℕ → Bytes
growing s = replicate (min s 3) 7

calls_of-IsKernel : (content : ℕ → Bytes) → IsKernel 34 (calls_of content) suc content
calls_of-IsKernel content = record { probes = λ s. refl; fills = λ s len. refl }

read_all-IsSnapshot_example : IsSnapshot suc growing 1 (read_all 34 (calls_of growing) 1)
read_all-IsSnapshot_example =
    read_all-IsSnapshot 34 (calls_of growing) suc growing (calls_of-IsKernel growing) 1

-- The value grows before the first attempt, and the second one gets it.
grown : read_all 34 (calls_of growing) 1 ≡ (5, ok (7 ∷ 7 ∷ 7 ∷ []))
unfolding read_all first_probe retry
grown = refl

abbrev two_names : List Bytes
two_names = (97 ∷ 98 ∷ []) ∷ (99 ∷ []) ∷ []

read_xattrs-quiet_example :
    (s : ℕ) × (read_xattrs 34
        (61 ∷ [])
        (calls_of (λ s. delimited two_names))
        (λ name. calls_of (λ s. name))
        16
        0
      ≡ (
        s,
        ok (
            record { file_id = 16; name = 97 ∷ 98 ∷ []; content = 97 ∷ 98 ∷ [] }
            ∷ record { file_id = 16; name = 99 ∷ []; content = 99 ∷ [] }
            ∷ []),
      ))
read_xattrs-quiet_example =
    read_xattrs-quiet 34 (61 ∷ []) (calls_of (λ s. delimited two_names))
      (λ name. calls_of (λ s. name)) suc two_names (λ name. name) 16 0
      (calls_of-IsKernel (λ s. delimited two_names)) (λ name. calls_of-IsKernel (λ s. name))
      (((λ e. cc), (λ e. cc, (λ e. cc, tt))), (((λ e. cc), (λ e. cc, tt)), tt))
