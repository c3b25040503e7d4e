-- ===== src/Policyd/Folder/Cleaned.antt =====
-- What `clean_policyd_dir_for` of charmhelpers/contrib/openstack/policyd.py leaves of a directory.
use charm_helpers.Prelude.{
  String, ◌≡◌, refl, sym, ap, ◌∙◌, List, [], ◌∷◌, Bool, true, false, not, ◌&&◌, ◌||◌, PathName,
  elem_path, elem, select, All, All-of, select-select, select_same, select-All, elem-append, arith,
  eq_iff, Bool-cases, inl, inr,
}
use charm_helpers.Policyd.Folder.{
  Disk, lies_in, add_head, file_entries, folder_entries, scandir, make_folder, remove_entry,
  is_kept, policyd_dir_for, clean_entries, clean_policyd_dir_for,
}

-- An independent description of the files that are to stay: the path of the entry of policy.d that
-- the file is, or lies in, is listed.
unfoldable pub stays : String → List PathName → PathName → Bool
stays service keep [] = true
stays service keep (x ∷ p) = elem_path ("etc" ∷ service ∷ "policy.d" ∷ x ∷ []) keep

-- Among the entries is the one in which the file lies.
abbrev covers : List String → PathName → Bool
covers entries [] = true
covers entries (x ∷ p) = elem x entries

abbrev spared : String → List PathName → List String → PathName → Bool
spared service keep entries [] = true
spared service keep entries (x ∷ p) = not (elem x entries) || is_kept service keep x

is_kept-same :
    (service : String) (keep : List PathName) (x y : String)
    → x ≡ y
    → is_kept service keep x ≡ is_kept service keep y
is_kept-same service keep x y h = ap (is_kept service keep) h

spared_kept :
    (service : String) (keep : List PathName) (e : String) (es : List String) (p : PathName)
    → is_kept service keep e ≡ true
    → spared service keep es p ≡ spared service keep (e ∷ es) p
spared_kept service keep e es [] h = refl
spared_kept service keep e es (x ∷ p) h = ground (arith, eq_iff x e, is_kept-same service keep x e)

spared_removed :
    (service : String) (keep : List PathName) (e : String) (es : List String) (p : PathName)
    → is_kept service keep e ≡ false
    → (not (lies_in e p) && spared service keep es p) ≡ spared service keep (e ∷ es) p
spared_removed service keep e es [] h = refl
spared_removed service keep e es (x ∷ p) h =
    ground (arith, eq_iff x e, is_kept-same service keep x e)

spared_none :
    (service : String) (keep : List PathName) (p : PathName) → spared service keep [] p ≡ true
spared_none service keep [] = refl
spared_none service keep (x ∷ p) = refl

clean_entries-files :
    (service : String) (keep : List PathName) (es : List String) (d : Disk)
    → (clean_entries service keep es d).files ≡ select (λ f. spared service keep es f.0) d.files
unfolding clean_entries
clean_entries-files service keep [] d = sym (
    select-All (λ f. spared service keep [] f.0) d.files
      (All-of _ (λ f. spared_none service keep f.0) d.files))
clean_entries-files service keep (e ∷ es) d = elim (Bool-cases (is_kept service keep e)) [
  | inl h ↦
      rw (h, clean_entries)
        (clean_entries-files service keep es d
          ∙ select_same (λ f. spared service keep es f.0) (λ f. spared service keep (e ∷ es) f.0)
              d.files (All-of _ (λ f. spared_kept service keep e es f.0 h) d.files))
  | inr h ↦
      rw (h, clean_entries)
        (clean_entries-files service keep es (remove_entry e d)
          ∙ (select-select (λ f. spared service keep es f.0) (λ f. not (lies_in e f.0)) d.files
              ∙ select_same (λ f. not (lies_in e f.0) && spared service keep es f.0)
                  (λ f. spared service keep (e ∷ es) f.0) d.files
                  (All-of _ (λ f. spared_removed service keep e es f.0 h) d.files)))
]

covers-add_head :
    (p q : PathName) (es : List String) → covers es p ≡ true → covers (add_head q es) p ≡ true
covers-add_head [] q es h = refl
covers-add_head (x ∷ p) [] es h = h
covers-add_head (x ∷ p) (y ∷ q) es h = ground (arith, elem-append x es (y ∷ []))

add_head-covers : (p : PathName) (es : List String) → covers (add_head p es) p ≡ true
add_head-covers [] es = refl
add_head-covers (x ∷ p) es = ground (arith, elem-append x es (x ∷ []), eq_iff x x)

file_entries-keeps :
    (p : PathName) (files : List (PathName × String)) (es : List String)
    → covers es p ≡ true
    → covers (file_entries files es) p ≡ true
unfolding file_entries
file_entries-keeps p [] es h = h
file_entries-keeps p (f ∷ files) es h =
    file_entries-keeps p files (add_head f.0 es) (covers-add_head p f.0 es h)

folder_entries-keeps :
    (p : PathName) (folders : List PathName) (es : List String)
    → covers es p ≡ true
    → covers (folder_entries folders es) p ≡ true
unfolding folder_entries
folder_entries-keeps p [] es h = h
folder_entries-keeps p (q ∷ folders) es h =
    folder_entries-keeps p folders (add_head q es) (covers-add_head p q es h)

file_entries-covers :
    (files : List (PathName × String)) (folders : List PathName) (es : List String)
    → All (λ f. covers (folder_entries folders (file_entries files es)) f.0 ≡ true) files
unfolding file_entries
file_entries-covers [] folders es = tt
file_entries-covers (f ∷ files) folders es = (
  folder_entries-keeps f.0 folders (file_entries files (add_head f.0 es))
      (file_entries-keeps f.0 files (add_head f.0 es) (add_head-covers f.0 es)),
  file_entries-covers files folders (add_head f.0 es),
)

stays_of_covers :
    (service : String) (keep : List PathName) (es : List String)
    → (files : List (PathName × String)) → All (λ f. covers es f.0 ≡ true) files
    → select (λ f. spared service keep es f.0) files ≡ select (λ f. stays service keep f.0) files
unfolding stays is_kept policyd_dir_for
stays_of_covers service keep es [] h = refl
stays_of_covers service keep es (([], t) ∷ files) h =
    ap (λ fs. ([], t) ∷ fs) (stays_of_covers service keep es files h.1)
stays_of_covers service keep es ((x ∷ p, t) ∷ files) h =
    ground (arith, h.0, stays_of_covers service keep es files h.1)

-- The cleaning removes the files of policy.d, but for those in an entry whose path is to be kept.
pub clean_policyd_dir_for-files :
    (service : String) (keep : List PathName) (d : Disk)
    → (clean_policyd_dir_for service keep d).files ≡ select (λ f. stays service keep f.0) d.files
unfolding clean_policyd_dir_for scandir make_folder
clean_policyd_dir_for-files service keep d =
    clean_entries-files service keep (scandir (make_folder [] d)) (make_folder [] d)
    ∙ stays_of_covers service keep (scandir (make_folder [] d)) d.files
        (file_entries-covers d.files (make_folder [] d).folders [])
