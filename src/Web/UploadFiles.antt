-- ===== src/Web/UploadFiles.antt =====
-- apps/web/src/lib/upload-files.ts: the files of a selection that may be uploaded together.
pub mod Accepted
pub mod Partition
use Prim.Native.Char.{Char, code}
use Prim.Native.String.{[] as empty, ◌∷◌ as prepend}
use sol_arch.Prelude.{
  ℕ, suc, ◌+◌, String, Bool, true, false, not, ◌&&◌, ◌||◌, Option, none, some, List, [], ◌∷◌, ◌++◌,
  any, ◌==◌, eqb, ltb, length, lower, is_some, if◌then◌else◌,
}

-- A `File` of the browser, by its name and size.
pub record File : Type 0 where
  pub name : String
  pub size : ℕ

pub data UploadFileProblem : Type 0 where
  unsupported_type empty_file zip_not_alone : UploadFileProblem

pub record RejectedFile : Type 0 where
  pub name : String
  pub problem : UploadFileProblem

abbrev pub supported_extensions : List String
supported_extensions = "pdf" ∷ "png" ∷ "jpg" ∷ "jpeg" ∷ "webp" ∷ "docx" ∷ "xlsx" ∷ []

abbrev pub archive_extension : String
archive_extension = "zip"

-- What follows the last full stop.
unfoldable pub after_dot : String → Option String
after_dot empty = none
after_dot (prepend c s) = elim (after_dot s) [
  | none ↦ if eqb (code c) b'.' then some s else none
  | some t ↦ some t
]

abbrev pub text_or_empty : Option String → String
text_or_empty none = ""
text_or_empty (some s) = s

-- `extensionOf`: a full stop in the first place does not count
unfoldable pub extension_of : String → String
unfolding after_dot
extension_of empty = ""
extension_of (prepend c s) = lower (text_or_empty (after_dot s))

-- `isZip`
unfoldable pub is_zip : File → Bool
unfolding extension_of
is_zip f = extension_of f.name == archive_extension

-- `checkUploadFile`
unfoldable pub check_upload_file : File → Option UploadFileProblem
unfolding extension_of
check_upload_file f =
    let extension = extension_of f.name in
    if not (extension == archive_extension) && not (any (λ e. e == extension) supported_extensions)
    then some UploadFileProblem.unsupported_type
    else if eqb f.size 0
    then some UploadFileProblem.empty_file
    else none

abbrev pub reject : UploadFileProblem → File → RejectedFile
reject problem f = record { name = f.name; problem = problem }

unfoldable pub filter {ℓ} : {A : Type ℓ} → (A → Bool) → List A → List A
filter p [] = []
filter p (x ∷ xs) = let rest = filter p xs in if p x then x ∷ rest else rest

abbrev pub map_reject : UploadFileProblem → List File → List RejectedFile
map_reject problem [] = []
map_reject problem (f ∷ fs) = reject problem f ∷ map_reject problem fs

abbrev pub sorted_in :
    Option UploadFileProblem → File → List File × List RejectedFile → List File × List RejectedFile
sorted_in none f (accepted, rejected) = (f ∷ accepted, rejected)
sorted_in (some problem) f (accepted, rejected) = (accepted, reject problem f ∷ rejected)

-- The loop of `splitUploadFiles`.
unfoldable pub check_each : List File → List File × List RejectedFile
unfolding check_upload_file
check_each [] = ([], [])
check_each (f ∷ fs) = sorted_in (check_upload_file f) f (check_each fs)

-- `zips.length > 1 || (zips.length === 1 && accepted.length > 1)`
unfoldable pub zips_not_alone : List File → Bool
unfolding is_zip filter
zips_not_alone accepted =
    let zips = length (filter is_zip accepted) in
    ltb 1 zips || (eqb zips 1 && ltb 1 (length accepted))

-- `splitUploadFiles`
unfoldable pub split_upload_files : List File → List File × List RejectedFile
unfolding check_each zips_not_alone
split_upload_files files =
    let checked = check_each files in
    if zips_not_alone checked.0
    then (
      filter (λ f. not (is_zip f)) checked.0,
      checked.1 ++ map_reject UploadFileProblem.zip_not_alone (filter is_zip checked.0),
    )
    else checked
