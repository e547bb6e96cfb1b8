-- ===== src/Hfsplus/Keys/Tests.antt =====
-- Two names of which one is a first part of the other, and one key compared with itself.
use go_dmg_writer.Base.{ℕ, ◌≡◌, refl, ◌∙◌, [], ◌∷◌, arith}
use go_dmg_writer.Hfsplus.Entry.{HfsName}
use go_dmg_writer.Hfsplus.Keys.{
  same, less, differ, or_then, units_loop, hfs_compare, encode_catalog_key, compare_catalog_keys,
  is_ascii, text_encoding_hint,
}
use go_dmg_writer.Hfsplus.Keys.Agree.{IsName, compare_catalog_keys_lem}
use go_dmg_writer.Hfsplus.Keys.Lexicographic.{lex, hfs_compare_lem, compare_catalog_keys-same}

abbrev app : HfsName
app = record { units = 97 ∷ 112 ∷ 112 ∷ [] }

abbrev apps : HfsName
apps = record { units = 97 ∷ 112 ∷ 112 ∷ 115 ∷ [] }

app-IsName : IsName app
app-IsName = record { short = omega arith; words = (omega arith, (omega arith, (omega arith, tt))) }

apps-IsName : IsName apps
apps-IsName = record {
  short = omega arith;
  words = (omega arith, (omega arith, (omega arith, (omega arith, tt))));
}

compare_catalog_keys_lem_example :
    compare_catalog_keys (encode_catalog_key 16 app) (encode_catalog_key 16 apps)
    ≡ or_then (differ 16 16) (hfs_compare app apps)
compare_catalog_keys_lem_example =
    compare_catalog_keys_lem 16 16 app apps (omega arith) (omega arith) app-IsName apps-IsName

hfs_compare_lem_example : hfs_compare app apps ≡ lex app.units apps.units
hfs_compare_lem_example = hfs_compare_lem app apps

app_first : hfs_compare app apps ≡ less
unfolding hfs_compare units_loop
app_first = refl

app_itself : or_then (differ 16 16) (hfs_compare app app) ≡ same
unfolding hfs_compare units_loop
app_itself = refl

compare_catalog_keys-same_example : (◌≡◌ {A = ℕ} 16 16) × (app.units ≡ app.units)
compare_catalog_keys-same_example =
    compare_catalog_keys-same 16 16 app app (omega arith) (omega arith) app-IsName app-IsName (
      compare_catalog_keys_lem 16 16 app app (omega arith) (omega arith) app-IsName app-IsName
      ∙ app_itself)

hint : text_encoding_hint app ≡ 0
unfolding text_encoding_hint is_ascii
hint = refl
