-- ===== src/Policyd/Process/Flat.antt =====
-- The names that charmhelpers/contrib/openstack/policyd.py gives to the files of an archive whose
-- folders it passes over.
use charm_helpers.Prelude.{
  String, ◌≡◌, refl, List, [], ◌∷◌, Bool, true, false, not, ◌&&◌, inr, if◌then◌else◌, PathName,
  subst, splitext, lower, codes_elem, All,
}
use mathlib.Core.Sum.{inr-injective, inl-ne-inr}
use charm_helpers.Policyd.{
  Resource, absent, not_a_zip, archive, ZipInfo, YamlFile, valid_exts, yaml_name, yamlfiles,
  duplicates, check_names, open_and_filter_yaml_files,
}

-- The name is a single component.
unfoldable pub IsFlat : YamlFile → Type 0
IsFlat file = (x : String) × (file.name ≡ x ∷ [])

yaml_name-flat :
    (directory : PathName) (root : String)
    → (x : String) × (yaml_name false directory root ≡ x ∷ [])
unfolding yaml_name
yaml_name-flat [] root = (root, refl)
yaml_name-flat (top ∷ directory) root = (root, refl)

yamlfiles-IsFlat : (infolist : List ZipInfo) → All IsFlat (yamlfiles false infolist)
unfolding yamlfiles IsFlat
yamlfiles-IsFlat [] = tt
yamlfiles-IsFlat (item ∷ infolist) =
    either (yamlfiles false infolist)
      (not item.is_dir && codes_elem (lower (splitext item.name_ext).1) valid_exts)
      (yamlfiles-IsFlat infolist)
  where
    this : YamlFile
    this = record {
      name = yaml_name false item.directory (splitext item.name_ext).0;
      ext = lower (splitext item.name_ext).1;
      filename = item.name_ext;
      info = item;
    }

    either :
        (rest : List YamlFile) (b : Bool)
        → All IsFlat rest
        → All IsFlat (if b then this ∷ rest else rest)
    either rest true h = (yaml_name-flat item.directory (splitext item.name_ext).0, h)
    either rest false h = h

check_names-IsFlat :
    (files found : List YamlFile) (ds : List PathName)
    → All IsFlat files
    → check_names files ds ≡ inr found
    → All IsFlat found
unfolding check_names
check_names-IsFlat [] found ds h e = absurd (inl-ne-inr e)
check_names-IsFlat (f ∷ files) found [] h e = subst (All IsFlat) (inr-injective _ _ e) h
check_names-IsFlat (f ∷ files) found (d ∷ ds) h e = absurd (inl-ne-inr e)

pub open_and_filter_yaml_files-IsFlat :
    (resource : Resource) (found : List YamlFile)
    → open_and_filter_yaml_files resource false ≡ inr found
    → All IsFlat found
unfolding open_and_filter_yaml_files
open_and_filter_yaml_files-IsFlat absent found e = absurd (inl-ne-inr e)
open_and_filter_yaml_files-IsFlat not_a_zip found e = absurd (inl-ne-inr e)
open_and_filter_yaml_files-IsFlat (archive infolist) found e =
    check_names-IsFlat (yamlfiles false infolist) found (duplicates (yamlfiles false infolist))
      (yamlfiles-IsFlat infolist) e
