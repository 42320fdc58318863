-- ===== src/Uploads/Scanned.antt =====
-- The inspection loop against the list that it means: every file that is not skipped, in order, if
-- none is refused and their sizes stay within the limit.
use sol_arch.Prelude.{
  ℕ, suc, ◌+◌, ◌≤◌, String, ◌≡◌, refl, Bool, true, false, not, ◌&&◌, ◌||◌, List, [], ◌∷◌, arith,
  leb, ltb, length, map, sym, ◌∙◌, without_dot, Option, none, some, Bool-cases, inl, inr,
  if◌then◌else◌,
}
use mathlib.Core.Bool.{and-eq-true_iff}
use sol_arch.Failure.{bad_request, plain}
use sol_arch.Db.{PublicFile}
use sol_arch.Action.{Result, ok, err, throw_if, ◌&&=◌}
use sol_arch.Uploads.Scan.{
  Paths, ZipEntry, max_uncompressed_total, is_refused, is_skipped, file_row, push, push_data,
  some_files, scan, inspect, stage, is_staged, is_refused_type, max_files_limit, normalized,
  extension, is_traversal, is_metadata, has, forbidden_extensions, supported_extensions,
}

result_ok : {A : Type 0} {a b : A} → Result.ok a ≡ Result.ok b → a ≡ b
result_ok h = cc h

negated : (b : Bool) → not b ≡ true → b ≡ false
negated b h = ground arith

inspected_ok :
    (many : Bool) (scanned : Result (List PublicFile)) (files : List PublicFile)
    → (throw_if many (bad_request plain) &&= λ _. scanned &&= λ fs. some_files fs) ≡ ok files
    → (scanned ≡ ok files) × (many ≡ false) × (ltb 0 (length files) ≡ true)
inspected_ok true scanned files h = absurd (cc h)
inspected_ok false (err e) files h = absurd (cc h)
inspected_ok false (ok []) files h = absurd (cc h)
inspected_ok false (ok (f ∷ fs)) files h = ground arith

module _ (paths : Paths) where
  unfoldable pub all_accepted : List ZipEntry → Bool
  all_accepted [] = true
  all_accepted (e ∷ es) = not (is_refused paths e) && all_accepted es

  unfoldable pub kept_bytes : List ZipEntry → ℕ
  kept_bytes [] = 0
  kept_bytes (e ∷ es) =
      let rest = kept_bytes es in if is_skipped paths e then rest else e.size + rest

  unfoldable pub kept : List ZipEntry → List ZipEntry
  kept [] = []
  kept (e ∷ es) = let rest = kept es in if is_skipped paths e then rest else e ∷ rest

  -- The rows of the files, numbered from `n`.
  unfoldable pub numbered : String → List ZipEntry → ℕ → List PublicFile
  numbered id [] n = []
  numbered id (e ∷ es) n = file_row paths id e n ∷ numbered id es (suc n)

  abbrev pub listed : String → List ZipEntry → ℕ → ℕ → Result (List PublicFile)
  listed id es n total =
      if all_accepted es && leb (total + kept_bytes es) max_uncompressed_total
      then ok (numbered id (kept es) n)
      else err (bad_request plain)

  pushed :
      (f : PublicFile) (rest : Result (List PublicFile)) (accepted : Bool) (more : ℕ)
      (fs : List PublicFile) (total size : ℕ)
      → (total + size ≤ max_uncompressed_total
          → rest ≡ (
              if accepted && leb (total + size + more) max_uncompressed_total
              then ok fs
              else err (bad_request plain)))
      → (elim (ltb max_uncompressed_total (total + size)) [
        | true ↦ err (bad_request plain)
        | false ↦ push f rest
      ])
        ≡ (if accepted && leb (total + (size + more)) max_uncompressed_total
            then ok (f ∷ fs)
            else err (bad_request plain))
  pushed f rest accepted more fs total size h = ground arith

  pub scan_is_listed :
      (id : String) (es : List ZipEntry) (n total : ℕ)
      → total ≤ max_uncompressed_total
      → scan paths id es n total ≡ listed id es n total
  unfolding scan all_accepted kept_bytes kept numbered
  scan_is_listed id [] n total fits = ground arith
  scan_is_listed id (e ∷ es) n total fits = elim (Bool-cases (is_refused paths e)) [
    | inl r ↦ rw (scan, r) refl
    | inr r ↦ elim (Bool-cases (is_skipped paths e)) [
      | inl k ↦ rw (scan, r, k) (scan_is_listed id es n total fits)
      | inr k ↦
          rw (scan, r, k)
            (pushed (file_row paths id e n) (scan paths id es (suc n) (total + e.size))
              (all_accepted es) (kept_bytes es) (numbered id (kept es) (suc n)) total e.size
              (λ more. scan_is_listed id es (suc n) (total + e.size) more))
    ]
  ]

  inspect_ok :
      (id : String) (es : List ZipEntry) (files : List PublicFile)
      → inspect paths id es ≡ ok files
      → (scan paths id es 0 0 ≡ ok files)
        × (ltb max_files_limit (length es) ≡ false)
        × (ltb 0 (length files) ≡ true)
  unfolding inspect
  inspect_ok id es files h =
      inspected_ok (ltb max_files_limit (length es)) (scan paths id es 0 0) files h

  accepted_ok :
      (id : String) (es : List ZipEntry) (files : List PublicFile)
      → listed id es 0 0 ≡ ok files
      → (all_accepted es ≡ true)
        × (0 + kept_bytes es ≤ max_uncompressed_total)
        × (files ≡ numbered id (kept es) 0)
  accepted_ok id es files h = ground arith

  -- An inspection that passes has at most 10000 entries, none of them refused, at most 512 MiB in the
  -- entries that are not skipped, and at least one of those; and its rows are those entries, in the
  -- order of the ZIP and numbered from 0.
  pub inspected :
      (id : String) (es : List ZipEntry) (files : List PublicFile)
      → inspect paths id es ≡ ok files
      → (length es ≤ max_files_limit)
        × (all_accepted es ≡ true)
        × (0 + kept_bytes es ≤ max_uncompressed_total)
        × (files ≡ numbered id (kept es) 0)
        × (1 ≤ length files)
  inspected id es files h =
      let facts = inspect_ok id es files h in
      let shape =
        accepted_ok id es files (sym (scan_is_listed id es 0 0 (ground arith)) ∙ facts.0) in
      (ground arith, shape.0, shape.1, shape.2, ground arith)

  kept_type :
      (directory traversal metadata forbidden supported : Bool)
      → (not directory && (traversal || (not metadata && (forbidden || not supported)))) ≡ false
      → (not (directory || metadata) && supported) ≡ not (directory || metadata)
  kept_type directory traversal metadata forbidden supported h = ground arith

  accepted_is_staged :
      (e : ZipEntry) → is_refused paths e ≡ false → is_staged paths e ≡ not (is_skipped paths e)
  unfolding is_refused is_staged is_skipped is_refused_type
  accepted_is_staged e h =
      kept_type e.is_directory (is_traversal paths e) (is_metadata (normalized paths e))
        (has forbidden_extensions (extension paths (normalized paths e)))
        (has supported_extensions (without_dot (extension paths (normalized paths e)))) h

  staged_push :
      {A : Type 0} (name : String) (d : Option A) (rest : Result (List (String × A)))
      (staged : List (String × A))
      → push_data name d rest ≡ ok staged
      → (more : List (String × A)) × (rest ≡ ok more)
        × (map (λ f. f.0) staged ≡ name ∷ map (λ f. f.0) more)
  staged_push name none rest staged h = absurd (cc h)
  staged_push name (some d) (err e) staged h = absurd (cc h)
  staged_push name (some d) (ok more) staged h = (more, refl, rw (sym (result_ok h)) refl)

  -- The files that are staged for the builder are those that are listed: the same paths in the same
  -- order, if no entry was refused and every entry could be read.
  pub staged_are_listed :
      (id : String) (es : List ZipEntry) (n : ℕ) (staged : List (String × List ℕ))
      → all_accepted es ≡ true
      → stage paths es ≡ ok staged
      → map (λ f. f.0) staged ≡ map (λ f. f.display_path) (numbered id (kept es) n)
  unfolding stage all_accepted kept numbered file_row
  staged_are_listed id [] n staged fine h = rw (sym (result_ok h)) refl
  staged_are_listed id (e ∷ es) n staged fine h =
      let parts = (and-eq-true_iff (not (is_refused paths e)) (all_accepted es)).0 fine in
      let staged_test = accepted_is_staged e (negated (is_refused paths e) parts.0) in
      elim (Bool-cases (is_skipped paths e)) [
        | inl k ↦
            rw (k) (staged_are_listed id es n staged parts.1 (rw (stage, staged_test, k) at h))
        | inr k ↦
            let pushed =
              staged_push (normalized paths e) e.content (stage paths es) staged
                (rw (stage, staged_test, k) at h) in
            rw (k, pushed.2, staged_are_listed id es (suc n) pushed.0 parts.1 pushed.1) refl
      ]
