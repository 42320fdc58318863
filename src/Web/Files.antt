-- ===== src/Web/Files.antt =====
-- apps/web/src/lib/files.ts: the public file list, grouped by folder in the order of first appearance.
pub mod Order
pub mod Groups
use Prim.Native.Char.{Char, code}
use Prim.Native.String.{[] as empty, ◌∷◌ as prepend}
use sol_arch.Prelude.{
  ℕ, ◌+◌, String, Option, none, some, List, [], ◌∷◌, ◌++◌, ◌==◌, eqb, if◌then◌else◌,
}
use sol_arch.Table.{Table, find, put}

pub record PublicFileEntry : Type 0 where
  pub display_path : String
  pub size_bytes : ℕ

-- `FileGroup`, less its folder, which is its key
pub record FileGroup : Type 0 where
  pub files : List PublicFileEntry
  pub size_bytes : ℕ

-- What stands before the last slash.
unfoldable pub before_slash : String → Option String
before_slash empty = none
before_slash (prepend c s) = elim (before_slash s) [
  | none ↦ if eqb (code c) b'/' then some "" else none
  | some t ↦ some (prepend c t)
]

abbrev pub text_or_empty : Option String → String
text_or_empty none = ""
text_or_empty (some s) = s

-- `folderOf`
unfoldable pub folder_of : String → String
unfolding before_slash
folder_of path = text_or_empty (before_slash path)

-- `groups.get(folder) ?? { folder, files: [], sizeBytes: 0 }`
abbrev pub group_or_new : Option FileGroup → FileGroup
group_or_new none = record { files = []; size_bytes = 0 }
group_or_new (some g) = g

abbrev pub push_file : PublicFileEntry → FileGroup → FileGroup
push_file f g = record { files = g.files ++ f ∷ []; size_bytes = g.size_bytes + f.size_bytes }

-- One turn of the loop; a `Map` keeps the order in which its keys were set first.
unfoldable pub add_file : Table FileGroup → PublicFileEntry → Table FileGroup
unfolding folder_of
add_file groups f =
    let folder = folder_of f.display_path in
    put folder (push_file f (group_or_new (find folder groups))) groups

unfoldable pub add_files : Table FileGroup → List PublicFileEntry → Table FileGroup
unfolding add_file
add_files groups [] = groups
add_files groups (f ∷ fs) = add_files (add_file groups f) fs

-- `splice(rootAt, 1)`
unfoldable pub remove_first {ℓ} : {V : Type ℓ} → String → Table V → Table V
remove_first k [] = []
remove_first k ((j, v) ∷ t) = let rest = remove_first k t in if j == k then t else (j, v) ∷ rest

abbrev pub unshift_root : Option FileGroup → Table FileGroup → Table FileGroup
unshift_root none groups = groups
unshift_root (some root) groups = ("", root) ∷ remove_first "" groups

-- `groupFilesByFolder`
unfoldable pub group_files_by_folder : List PublicFileEntry → Table FileGroup
unfolding add_files remove_first
group_files_by_folder files =
    let groups = add_files [] files in unshift_root (find "" groups) groups
