-- ===== src/Uploads/Scan.antt =====
-- The inspection of the ZIP in `complete`, and the files that it stages for the builder.
use sol_arch.Prelude.{
  ℕ, suc, ◌+◌, ◌*◌, String, Bool, true, false, not, ◌&&◌, ◌||◌, Option, none, some, List, [], ◌∷◌,
  any, length, ◌==◌, ltb, starts_with, ends_with, slashed, lower, without_dot, if◌then◌else◌,
}
use sol_arch.Failure.{bad_request, internal, plain}
use sol_arch.Db.{PublicFile}
use sol_arch.Action.{Result, ok, err, throw_if, ◌&&=◌}

-- An entry as adm-zip returns it. `content` is `none` where `getData` throws.
pub record ZipEntry : Type 0 where
  pub entry_name : String
  pub is_directory : Bool
  pub size : ℕ
  pub content : Option (List ℕ)

-- Node's `path`, adm-zip, and the archive builder.
pub record Paths : Type 0 where
  pub normalize : String → String
  pub is_absolute : String → Bool
  -- `path.extname` and `path.basename`
  pub extname : String → String
  pub basename : String → String
  -- `new AdmZip(file)` and, inside, `getEntries()`; `none` is a throw
  pub open_zip : List ℕ → Option (Option (List ZipEntry))

-- `set.has(text)`
abbrev pub has : List String → String → Bool
has texts t = any (λ s. s == t) texts

abbrev pub forbidden_extensions : List String
forbidden_extensions =
    ".exe" ∷ ".bat" ∷ ".cmd" ∷ ".sh" ∷ ".bin" ∷ ".msi" ∷ ".dll" ∷ ".so" ∷ ".dylib" ∷ ".vbs" ∷ ".js"
    ∷ ".ts" ∷ ".com" ∷ ".scr" ∷ []

abbrev pub supported_extensions : List String
supported_extensions = "pdf" ∷ "png" ∷ "jpg" ∷ "jpeg" ∷ "webp" ∷ "docx" ∷ "xlsx" ∷ []

-- `MIME_MAP`
unfoldable pub mime_of : String → String
mime_of ext =
    if ext == "pdf"
    then "application/pdf"
    else if ext == "png"
    then "image/png"
    else if ext == "jpg"
    then "image/jpeg"
    else if ext == "jpeg"
    then "image/jpeg"
    else if ext == "webp"
    then "image/webp"
    else if ext == "docx"
    then "application/vnd.openxmlformats-officedocument.wordprocessingml.document"
    else if ext == "xlsx"
    then "application/vnd.openxmlformats-officedocument.spreadsheetml.sheet"
    else ""

abbrev pub max_files_limit : ℕ
max_files_limit = 10000

abbrev pub max_uncompressed_total : ℕ
max_uncompressed_total = 512 * 1024 * 1024

abbrev pub is_metadata : String → Bool
is_metadata name = starts_with "__MACOSX/" name || ends_with ".DS_Store" name

abbrev pub push : {A : Type 0} → A → Result (List A) → Result (List A)
push f (ok fs) = ok (f ∷ fs)
push f (err e) = err e

abbrev pub some_files : List PublicFile → Result (List PublicFile)
some_files [] = err (bad_request plain)
some_files (f ∷ fs) = ok (f ∷ fs)

abbrev pub push_data :
    {A : Type 0} → String → Option A → Result (List (String × A)) → Result (List (String × A))
push_data name none rest = err internal
push_data name (some d) rest = push (name, d) rest

module _ (paths : Paths) where
  -- `path.normalize(entry.entryName).replace(/\\/g, '/')`
  unfoldable pub normalized : ZipEntry → String
  normalized e = slashed (paths.normalize e.entry_name)

  -- `path.extname(normalized).toLowerCase()`
  abbrev pub extension : String → String
  extension name = lower (paths.extname name)

  -- The loop's body passes on to the next entry.
  unfoldable pub is_skipped : ZipEntry → Bool
  unfolding normalized
  is_skipped e = e.is_directory || is_metadata (normalized e)

  unfoldable pub is_traversal : ZipEntry → Bool
  unfolding normalized
  is_traversal e = starts_with ".." (normalized e) || paths.is_absolute (normalized e)

  unfoldable pub is_refused_type : ZipEntry → Bool
  unfolding normalized
  is_refused_type e =
      has forbidden_extensions (extension (normalized e))
      || not (has supported_extensions (without_dot (extension (normalized e))))

  -- The loop's body throws before it counts the size: the traversal is looked for before the metadata
  -- files are skipped.
  unfoldable pub is_refused : ZipEntry → Bool
  unfolding is_traversal is_refused_type
  is_refused e =
      not e.is_directory
      && (is_traversal e || (not (is_metadata (normalized e)) && is_refused_type e))

  -- The row that the loop pushes.
  unfoldable pub file_row : String → ZipEntry → ℕ → PublicFile
  unfolding normalized mime_of
  file_row archive_id e sort_order =
      let name = normalized e in
      let ext = without_dot (extension name) in
      record {
        archive_id = archive_id;
        display_path = name;
        display_name = paths.basename name;
        file_extension = ext;
        mime_type = mime_of ext;
        size_bytes = e.size;
        sort_order = sort_order;
      }

  -- The loop over the entries, by the next `sortOrder` and the bytes so far.
  unfoldable pub scan : String → List ZipEntry → ℕ → ℕ → Result (List PublicFile)
  unfolding is_refused is_skipped file_row
  scan archive_id [] sort_order total = ok []
  scan archive_id (e ∷ es) sort_order total = elim (is_refused e) [
    | true ↦ err (bad_request plain)
    | false ↦ elim (is_skipped e) [
      | true ↦ scan archive_id es sort_order total
      | false ↦ elim (ltb max_uncompressed_total (total + e.size)) [
        | true ↦ err (bad_request plain)
        | false ↦
            push (file_row archive_id e sort_order)
              (scan archive_id es (suc sort_order) (total + e.size))
      ]
    ]
  ]

  -- Every check of the entries that marks the archive as failed.
  unfoldable pub inspect : String → List ZipEntry → Result (List PublicFile)
  unfolding scan
  inspect archive_id es = throw_if (ltb max_files_limit (length es)) (bad_request plain) &&= λ _.
      scan archive_id es 0 0 &&= λ fs. some_files fs

  -- The second loop of `complete` writes the entry.
  unfoldable pub is_staged : ZipEntry → Bool
  unfolding is_skipped normalized
  is_staged e =
      not (is_skipped e) && has supported_extensions (without_dot (extension (normalized e)))

  -- The files that it writes below the staging directory, in order.
  unfoldable pub stage : List ZipEntry → Result (List (String × List ℕ))
  unfolding is_staged normalized
  stage [] = ok []
  stage (e ∷ es) =
      let rest = stage es in if is_staged e then push_data (normalized e) e.content rest else rest
