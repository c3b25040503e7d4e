-- ===== src/Policyd.antt =====
-- charmhelpers/contrib/openstack/policyd.py: the policy files of a service, which come in a zip
-- archive and are put into the service's directory policy.d.
use charm_helpers.Prelude.{
  ℕ, ◌+◌, String, List, [], ◌∷◌, ◌++◌, map, Bool, true, false, not, ◌&&◌, inl, inr, ◌⊎◌, str_eq,
  ltb, if◌then◌else◌, PathName, same_path, lower, elem_path, codes_elem, splitext, select,
}
pub mod Validate
pub mod Folder
pub mod Process
mod Tests

-- Why the processing of an archive fails. Each is an exception of the source, whose text is only
-- logged.
pub data Failure : Type 0 where
  no_such_file : Failure
  bad_zip_file : Failure
  contains_no_yaml : Failure
  duplicates_of : List PathName → Failure
  name_blacklisted : PathName → Failure
  no_template_function : String → Failure
  template_failed : Failure
  yaml_error : Failure
  not_a_mapping : Failure
  keys_blacklisted : Failure
  keys_not_text : Failure
  values_not_text : Failure

-- `zipfile.ZipInfo`: the components of the directory in the name and the last component, whether it
-- is a directory, and the text of the file
pub record ZipInfo : Type 0 where
  pub directory : PathName
  pub name_ext : String
  pub is_dir : Bool
  pub text : String

-- what stands at the path of the resource: `ZipFile` raises at the first two
pub data Resource : Type 0 where
  absent : Resource
  not_a_zip : Resource
  archive : List ZipInfo → Resource

-- the items of the list that `_yamlfiles` returns
pub record YamlFile : Type 0 where
  pub name : PathName
  pub ext : List ℕ
  pub filename : String
  pub info : ZipInfo

abbrev pub valid_exts : List String
valid_exts = ".yaml" ∷ ".yml" ∷ ".j2" ∷ ".tmpl" ∷ ".tpl" ∷ []

abbrev pub template_exts : List String
template_exts = ".j2" ∷ ".tmpl" ∷ ".tpl" ∷ []

-- `os.path.join(top, name)`: an empty folder adds nothing
abbrev pub join_top : String → String → PathName
join_top top name = if str_eq top "" then name ∷ [] else top ∷ name ∷ []

pub yaml_name : Bool → PathName → String → PathName
yaml_name has_subdirs [] root = root ∷ []
yaml_name has_subdirs (top ∷ directory) root = if has_subdirs then join_top top root else root ∷ []

-- `_yamlfiles`
unfoldable pub yamlfiles : Bool → List ZipInfo → List YamlFile
unfolding yaml_name
yamlfiles has_subdirs [] = []
yamlfiles has_subdirs (item ∷ infolist) =
    let rest = yamlfiles has_subdirs infolist in
    let (root, ext) = splitext item.name_ext in
    if not item.is_dir && codes_elem (lower ext) valid_exts
    then record {
      name = yaml_name has_subdirs item.directory root;
      ext = lower ext;
      filename = item.name_ext;
      info = item;
    }
      ∷ rest
    else rest

-- `names[name]`, which counts how often a name stands among the files
pub count_name : PathName → List YamlFile → ℕ
count_name name [] = 0
count_name name (f ∷ files) =
    let rest = count_name name files in if same_path f.name name then rest + 1 else rest

abbrev pub add_name : PathName → List PathName → List PathName
add_name p ps = if elem_path p ps then ps else ps ++ p ∷ []

-- `names.keys()`, in the order in which the names are met
pub names_of : List PathName → List YamlFile → List PathName
names_of names [] = names
names_of names (f ∷ files) = names_of (add_name f.name names) files

pub duplicates : List YamlFile → List PathName
unfolding count_name names_of
duplicates files = select (λ n. ltb 1 (count_name n files)) (names_of [] files)

-- the checks of `open_and_filter_yaml_files` on what `_yamlfiles` found
pub check_names : List YamlFile → List PathName → Failure ⊎ List YamlFile
check_names [] ds = inl contains_no_yaml
check_names (f ∷ files) [] = inr (f ∷ files)
check_names (f ∷ files) (d ∷ ds) = inl (duplicates_of (d ∷ ds))

-- `open_and_filter_yaml_files`
unfoldable pub open_and_filter_yaml_files : Resource → Bool → Failure ⊎ List YamlFile
unfolding yamlfiles duplicates check_names
open_and_filter_yaml_files absent has_subdirs = inl no_such_file
open_and_filter_yaml_files not_a_zip has_subdirs = inl bad_zip_file
open_and_filter_yaml_files (archive infolist) has_subdirs =
    let files = yamlfiles has_subdirs infolist in check_names files (duplicates files)
