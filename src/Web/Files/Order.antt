-- ===== src/Web/Files/Order.antt =====
-- The groups stand in the order in which their folders appear first, the root in front.
use sol_arch.Prelude.{
  String, ◌≡◌, refl, sym, ap, ◌∙◌, Bool, true, false, Option, none, some, List, [], ◌∷◌, ◌++◌, any,
  arith, eq_iff, inl, inr, Bool-cases, ◌==◌, if◌then◌else◌,
}
use sol_arch.Table.{Table, find, put}
use sol_arch.Table.Laws.{IsKeyed, put-IsKeyed}
use sol_arch.Web.Files.{
  PublicFileEntry, FileGroup, folder_of, add_file, add_files, remove_first, unshift_root,
  group_files_by_folder,
}

-- The folders of the groups.
unfoldable pub folders : Table FileGroup → List String
folders [] = []
folders ((k, g) ∷ t) = k ∷ folders t

abbrev pub appear : List String → String → List String
appear known k = if any (λ j. j == k) known then known else known ++ k ∷ []

-- The folders of the files, each where it appears first, behind those that are known.
unfoldable pub appearing : List String → List PublicFileEntry → List String
unfolding folder_of
appearing known [] = known
appearing known (f ∷ fs) = appearing (appear known (folder_of f.display_path)) fs

unfoldable pub without : String → List String → List String
without k [] = []
without k (j ∷ js) = let rest = without k js in if j == k then rest else j ∷ rest

-- The root goes to the front, if it is there.
abbrev pub root_first : List String → List String
root_first js = if any (λ j. j == "") js then "" ∷ without "" js else js

folders-put :
    (k : String) (g : FileGroup) (t : Table FileGroup) → folders (put k g t) ≡ appear (folders t) k
unfolding folders put
folders-put k g [] = refl
folders-put k g ((j, h) ∷ t) = elim (Bool-cases (j == k)) [
  | inl same ↦ rw (same) (ap (λ n. n ∷ folders t) (sym ((eq_iff j k).0 same)))
  | inr other ↦ rw (other, folders-put k g t) (kept_head (any (λ n. n == k) (folders t)))
]
  where
    kept_head :
        (b : Bool)
        → j ∷ (if b then folders t else folders t ++ k ∷ [])
          ≡ (if b then j ∷ folders t else j ∷ folders t ++ k ∷ [])
    kept_head true = refl
    kept_head false = refl

folders-add_files :
    (t : Table FileGroup) (fs : List PublicFileEntry)
    → folders (add_files t fs) ≡ appearing (folders t) fs
unfolding add_files appearing add_file
folders-add_files t [] = refl
folders-add_files t (f ∷ fs) =
    folders-add_files (add_file t f) fs
    ∙ ap (λ js. appearing js fs) (folders-put (folder_of f.display_path) _ t)

add_files-IsKeyed :
    (t : Table FileGroup) (fs : List PublicFileEntry) → IsKeyed t → IsKeyed (add_files t fs)
unfolding add_files add_file
add_files-IsKeyed t [] h = h
add_files-IsKeyed t (f ∷ fs) h =
    add_files-IsKeyed (add_file t f) fs (put-IsKeyed (folder_of f.display_path) _ t h)

missing_folder :
    (k : String) (t : Table FileGroup) → find k t ≡ none → any (λ j. j == k) (folders t) ≡ false
unfolding find folders
missing_folder k [] e = refl
missing_folder k ((j, g) ∷ t) e = ground (arith, e, missing_folder k t)

known_folder :
    (k : String) (t : Table FileGroup) (g : FileGroup)
    → find k t ≡ some g
    → any (λ j. j == k) (folders t) ≡ true
unfolding find folders
known_folder k [] g e = absurd (cc e)
known_folder k ((j, h) ∷ t) g e = ground (arith, e, known_folder k t g)

without_missing :
    (k : String) (t : Table FileGroup) → find k t ≡ none → without k (folders t) ≡ folders t
unfolding find folders without
without_missing k [] e = refl
without_missing k ((j, g) ∷ t) e = ground (arith, e, without_missing k t)

folders-remove_first :
    (k : String) (t : Table FileGroup)
    → IsKeyed t
    → folders (remove_first k t) ≡ without k (folders t)
unfolding folders remove_first without
folders-remove_first k [] h = refl
folders-remove_first k ((j, g) ∷ t) h = elim (Bool-cases (j == k)) [
  | inl same ↦
      rw (same) (sym (without_missing k t (ap (λ n. find n t) (sym ((eq_iff j k).0 same)) ∙ h.0)))
  | inr other ↦ rw (other) (ap (◌∷◌ j) (folders-remove_first k t h.1))
]

missing-remove_first :
    (k j : String) (t : Table FileGroup) → find j t ≡ none → find j (remove_first k t) ≡ none
unfolding find remove_first
missing-remove_first k j [] e = refl
missing-remove_first k j ((i, g) ∷ t) e = ground (arith, e, missing-remove_first k j t)

remove_first-IsKeyed : (k : String) (t : Table FileGroup) → IsKeyed t → IsKeyed (remove_first k t)
unfolding remove_first
remove_first-IsKeyed k [] h = tt
remove_first-IsKeyed k ((j, g) ∷ t) h =
    ground (arith, h.0, h.1, remove_first-IsKeyed k t h.1, missing-remove_first k j t h.0)

removed_first : (k : String) (t : Table FileGroup) → IsKeyed t → find k (remove_first k t) ≡ none
unfolding find remove_first
removed_first k [] h = refl
removed_first k ((j, g) ∷ t) h = ground (arith, h.0, eq_iff j k, removed_first k t h.1)

unshifted_order :
    (t : Table FileGroup) (root : Option FileGroup)
    → find "" t ≡ root
    → IsKeyed t
    → IsKeyed (unshift_root root t) × (folders (unshift_root root t) ≡ root_first (folders t))
unfolding folders
unshifted_order t none e h = (h, rw (missing_folder "" t e) refl)
unshifted_order t (some g) e h = (
  (removed_first "" t h, remove_first-IsKeyed "" t h),
  rw (known_folder "" t g e) (ap (◌∷◌ "") (folders-remove_first "" t h)),
)

pub groups_in_order :
    (files : List PublicFileEntry)
    → IsKeyed (group_files_by_folder files)
      × (folders (group_files_by_folder files) ≡ root_first (appearing [] files))
unfolding group_files_by_folder folders
groups_in_order files =
    let groups = add_files [] files in
    let (keyed, order) =
      unshifted_order groups (find "" groups) refl (add_files-IsKeyed [] files tt) in
    (keyed, order ∙ ap root_first (folders-add_files [] files))
