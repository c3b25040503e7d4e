-- ===== src/Policyd/Folder.antt =====
-- charmhelpers/contrib/openstack/policyd.py: the directory policy.d of a service and the file that
-- marks a success. Paths within the directory are taken from the directory on.
use charm_helpers.Prelude.{
  String, List, [], ◌∷◌, ◌++◌, Bool, true, false, str_eq, if◌then◌else◌, PathName, same_path,
  elem_path, add_once, not, select,
}
use Prim.Native.String.{◌++◌ as str_append}
pub mod Cleaned

-- The files and their texts, the folders (of which the empty path is policy.d itself), and whether
-- the file of `_policy_success_file` is there.
pub record Disk : Type 0 where
  pub files : List (PathName × String)
  pub folders : List PathName
  pub success : Bool

-- `policyd_dir_for`
unfoldable pub policyd_dir_for : String → PathName
policyd_dir_for service = "etc" ∷ service ∷ "policy.d" ∷ []

-- `name + ".yaml"`
unfoldable pub add_yaml : PathName → PathName
add_yaml [] = ".yaml" ∷ []
add_yaml (x ∷ []) = str_append x ".yaml" ∷ []
add_yaml (x ∷ y ∷ p) = x ∷ add_yaml (y ∷ p)

-- `path_for_policy_file`, from the root on
unfoldable pub path_for_policy_file : String → PathName → PathName
unfolding policyd_dir_for add_yaml
path_for_policy_file service name = policyd_dir_for service ++ add_yaml name

-- the path lies in the entry of policy.d, or is the entry
abbrev pub lies_in : String → PathName → Bool
lies_in entry [] = false
lies_in entry (x ∷ p) = str_eq x entry

abbrev pub add_head : PathName → List String → List String
add_head [] entries = entries
add_head (x ∷ p) entries = add_once x entries

pub file_entries : List (PathName × String) → List String → List String
file_entries [] entries = entries
file_entries (f ∷ files) entries = file_entries files (add_head f.0 entries)

pub folder_entries : List PathName → List String → List String
folder_entries [] entries = entries
folder_entries (p ∷ folders) entries = folder_entries folders (add_head p entries)

-- `os.scandir`: the names of the entries of policy.d
unfoldable pub scandir : Disk → List String
unfolding file_entries folder_entries
scandir d = folder_entries d.folders (file_entries d.files [])

-- `ch_host.mkdir`, if the folder is not there yet
unfoldable pub make_folder : PathName → Disk → Disk
make_folder p d = record {
  files = d.files;
  folders = if elem_path p d.folders then d.folders else d.folders ++ p ∷ [];
  success = d.success;
}

-- `os.remove` of a file and `shutil.rmtree` of a directory
unfoldable pub remove_entry : String → Disk → Disk
remove_entry entry d = record {
  files = select (λ f. not (lies_in entry f.0)) d.files;
  folders = select (λ p. not (lies_in entry p)) d.folders;
  success = d.success;
}

-- `direntry.path in keep_paths`
unfoldable pub is_kept : String → List PathName → String → Bool
unfolding policyd_dir_for
is_kept service keep_paths entry = elem_path (policyd_dir_for service ++ entry ∷ []) keep_paths

-- the loop of `clean_policyd_dir_for`
unfoldable pub clean_entries : String → List PathName → List String → Disk → Disk
unfolding remove_entry is_kept
clean_entries service keep_paths [] d = d
clean_entries service keep_paths (entry ∷ entries) d =
    clean_entries service keep_paths entries
      (if is_kept service keep_paths entry then d else remove_entry entry d)

-- `clean_policyd_dir_for`
unfoldable pub clean_policyd_dir_for : String → List PathName → Disk → Disk
unfolding make_folder scandir clean_entries
clean_policyd_dir_for service keep_paths d =
    let d1 : Disk = make_folder [] d in clean_entries service keep_paths (scandir d1) d1

-- `os.path.split(path)[0]`, within policy.d
unfoldable pub parent : PathName → PathName
parent [] = []
parent (x ∷ []) = []
parent (x ∷ y ∷ p) = x ∷ parent (y ∷ p)

-- `maybe_create_directory_for`
unfoldable pub maybe_create_directory_for : PathName → Disk → Disk
unfolding make_folder parent
maybe_create_directory_for path d = make_folder (parent path) d

unfoldable pub put : PathName → String → List (PathName × String) → List (PathName × String)
put path text [] = (path, text) ∷ []
put path text (f ∷ files) =
    let rest = put path text files in if same_path f.0 path then (path, text) ∷ files else f ∷ rest

-- `ch_host.write_file`
unfoldable pub write_file : PathName → String → Disk → Disk
unfolding put
write_file path text d = record {
  files = put path text d.files;
  folders = d.folders;
  success = d.success;
}

-- `remove_policy_success_file`, `set_policy_success_file` and `is_policy_success_file_set`
unfoldable pub remove_policy_success_file : Disk → Disk
remove_policy_success_file d = record d { success = false }

unfoldable pub set_policy_success_file : Disk → Disk
set_policy_success_file d = record d { success = true }

unfoldable pub is_policy_success_file_set : Disk → Bool
is_policy_success_file_set d = d.success

-- `policyd_status_message_prefix`
unfoldable pub policyd_status_message_prefix : Disk → String
unfolding is_policy_success_file_set
policyd_status_message_prefix d = if is_policy_success_file_set d then "PO:" else "PO (broken):"
