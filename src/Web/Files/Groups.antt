-- ===== src/Web/Files/Groups.antt =====
-- The group of a folder holds the files of that folder, in the order of the list, and their size.
use sol_arch.Prelude.{
  ℕ, ◌+◌, String, ◌≡◌, ◌≢◌, refl, sym, ap, ◌∙◌, Bool, true, false, Option, none, some, List, [],
  ◌∷◌, ◌++◌, arith, eq_iff, ◌==◌, inl, inr, Bool-cases, if◌then◌else◌,
}
use native.Mathlib.Nat.{add-zero, zero-add, add_assoc}
use sol_arch.Table.{Table, find}
use sol_arch.Table.Laws.{find-put, IsKeyed}
use sol_arch.Web.Files.Order.{folders, root_first, appearing, groups_in_order}
use sol_arch.Web.Files.{
  PublicFileEntry, FileGroup, folder_of, group_or_new, push_file, add_file, add_files, remove_first,
  unshift_root, group_files_by_folder,
}

-- The files of a folder, in the order of the list, and the sum of their sizes.
unfoldable pub of_folder : String → List PublicFileEntry → List PublicFileEntry
unfolding folder_of
of_folder folder [] = []
of_folder folder (f ∷ fs) =
    let rest = of_folder folder fs in if folder_of f.display_path == folder then f ∷ rest else rest

unfoldable pub total_size : List PublicFileEntry → ℕ
total_size [] = 0
total_size (f ∷ fs) = f.size_bytes + total_size fs

-- A group with more files; no group where there is no file.
unfoldable pub extended : Option FileGroup → List PublicFileEntry → Option FileGroup
unfolding total_size
extended none [] = none
extended none (f ∷ fs) = some (record { files = f ∷ fs; size_bytes = total_size (f ∷ fs) })
extended (some g) fs =
    some (record { files = g.files ++ fs; size_bytes = g.size_bytes + total_size fs })

append_assoc :
    {A : Type 0} (xs : List A) (y : A) (zs : List A) → (xs ++ y ∷ []) ++ zs ≡ xs ++ y ∷ zs
append_assoc [] y zs = refl
append_assoc (x ∷ xs) y zs = ap (◌∷◌ x) (append_assoc xs y zs)

append_nil : {A : Type 0} (xs : List A) → xs ++ [] ≡ xs
append_nil [] = refl
append_nil (x ∷ xs) = ap (◌∷◌ x) (append_nil xs)

-- A file pushed first, then the others.
extended-push_file :
    (o : Option FileGroup) (f : PublicFileEntry) (fs : List PublicFileEntry)
    → extended (some (push_file f (group_or_new o))) fs ≡ extended o (f ∷ fs)
unfolding extended total_size
extended-push_file none f fs = rw (zero-add f.size_bytes) refl
extended-push_file (some g) f fs =
    rw (append_assoc g.files f fs, add_assoc g.size_bytes f.size_bytes (total_size fs)) refl

extended_nil : (o : Option FileGroup) → extended o [] ≡ o
unfolding extended total_size
extended_nil none = refl
extended_nil (some g) = rw (append_nil g.files, add-zero g.size_bytes) refl

find-add_file :
    (folder : String) (groups : Table FileGroup) (f : PublicFileEntry)
    → find folder (add_file groups f) ≡ (
        if folder_of f.display_path == folder
        then some (push_file f (group_or_new (find folder groups)))
        else find folder groups)
unfolding add_file
find-add_file folder groups f =
    let own = folder_of f.display_path in
    ground (
      arith,
      find-put own folder (push_file f (group_or_new (find own groups))) groups,
      eq_iff own folder,
    )

pushed_in :
    (folder : String) (groups : Table FileGroup) (f : PublicFileEntry) (fs : List PublicFileEntry)
    (own : Bool)
    → extended
        (if own then some (push_file f (group_or_new (find folder groups))) else find folder groups)
        (of_folder folder fs)
      ≡ extended (find folder groups) (if own then f ∷ of_folder folder fs else of_folder folder fs)
pushed_in folder groups f fs true = extended-push_file (find folder groups) f (of_folder folder fs)
pushed_in folder groups f fs false = refl

find-add_files :
    (folder : String) (groups : Table FileGroup) (fs : List PublicFileEntry)
    → find folder (add_files groups fs) ≡ extended (find folder groups) (of_folder folder fs)
unfolding add_files of_folder
find-add_files folder groups [] = sym (extended_nil (find folder groups))
find-add_files folder groups (f ∷ fs) =
    find-add_files folder (add_file groups f) fs
    ∙ rw (find-add_file folder groups f)
        (pushed_in folder groups f fs (folder_of f.display_path == folder))

find-remove_first :
    (k folder : String) (groups : Table FileGroup)
    → k ≢ folder
    → find folder (remove_first k groups) ≡ find folder groups
unfolding find remove_first
find-remove_first k folder [] ne = refl
find-remove_first k folder ((j, g) ∷ groups) ne =
    ground (arith, find-remove_first k folder groups ne, eq_iff j k, eq_iff j folder)

unshifted :
    (folder : String) (groups : Table FileGroup) (root : Option FileGroup)
    → find "" groups ≡ root
    → find folder (unshift_root root groups) ≡ find folder groups
unfolding find
unshifted folder groups none e = refl
unshifted folder groups (some root) e = elim (Bool-cases ("" == folder)) [
  | inl own ↦ rw (own) (sym (ap (λ k. find k groups) (sym ((eq_iff "" folder).0 own)) ∙ e))
  | inr other ↦
      rw (other) (find-remove_first "" folder groups (ground (arith, eq_iff "" folder, other)))
]

find-unshift_root :
    (folder : String) (groups : Table FileGroup)
    → find folder (unshift_root (find "" groups) groups) ≡ find folder groups
find-unshift_root folder groups = unshifted folder groups (find "" groups) refl

-- groupFilesByFolder lists one group for each folder that has files, in the order in which the folders
-- appear first, but the root in front; and the group of a folder holds its files in the order of the
-- list, with the sum of their sizes.
pub group_files_by_folder_lem :
    (folder : String) (files : List PublicFileEntry)
    → IsKeyed (group_files_by_folder files)
      × (folders (group_files_by_folder files) ≡ root_first (appearing [] files))
      × (find folder (group_files_by_folder files) ≡ extended none (of_folder folder files))
unfolding group_files_by_folder find
group_files_by_folder_lem folder files =
    let (keyed, order) = groups_in_order files in
    (keyed, order, find-unshift_root folder (add_files [] files) ∙ find-add_files folder [] files)
