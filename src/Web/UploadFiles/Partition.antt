-- ===== src/Web/UploadFiles/Partition.antt =====
-- A selection falls into the files that go together and the files that are named with a problem.
use sol_arch.Prelude.{
  ◌+◌, ◌≤◌, ◌≡◌, refl, ap, ◌∙◌, Bool, false, not, inl, inr, Option, none, some, true, ◌&&◌, ltb,
  is_some, if◌then◌else◌, List, [], ◌∷◌, ◌++◌, any, arith, length, Bool-cases,
}
use sol_arch.Web.UploadFiles.Accepted.{Checked, ZipAlone, filter_lengths, accepted_parts}
use sol_arch.Web.UploadFiles.{
  File, RejectedFile, UploadFileProblem, is_zip, check_upload_file, filter, map_reject, reject,
  sorted_in, check_each, zips_not_alone, split_upload_files,
}

-- The files that pass the check of one file, and those that do not, each with its problem.
abbrev pub passes : File → Bool
passes f = not (is_some (check_upload_file f))

abbrev pub refused_for : Option UploadFileProblem → File → List RejectedFile → List RejectedFile
refused_for none f rest = rest
refused_for (some problem) f rest = reject problem f ∷ rest

unfoldable pub refusals : List File → List RejectedFile
refusals [] = []
refusals (f ∷ fs) = refused_for (check_upload_file f) f (refusals fs)

-- A ZIP beside another file.
abbrev pub clash : List File → Bool
clash fs = any is_zip fs && ltb 1 (length fs)

sorted_parts :
    (o : Option UploadFileProblem) (f : File) (fs : List File) (rs : List RejectedFile)
    → sorted_in o f (fs, rs) ≡ ((if not (is_some o) then f ∷ fs else fs), refused_for o f rs)
sorted_parts none f fs rs = refl
sorted_parts (some problem) f fs rs = refl

check_each_parts : (fs : List File) → check_each fs ≡ (filter passes fs, refusals fs)
unfolding check_each filter refusals
check_each_parts [] = refl
check_each_parts (f ∷ fs) =
    ap (sorted_in (check_upload_file f) f) (check_each_parts fs)
    ∙ sorted_parts (check_upload_file f) f (filter passes fs) (refusals fs)

no_zip_count : (fs : List File) → any is_zip fs ≡ false → length (filter is_zip fs) ≡ 0
unfolding filter
no_zip_count [] h = refl
no_zip_count (f ∷ fs) h = ground (arith, no_zip_count fs, h)

some_zip_count : (fs : List File) → any is_zip fs ≡ true → 1 ≤ length (filter is_zip fs)
unfolding filter
some_zip_count [] h = absurd (cc h)
some_zip_count (f ∷ fs) h = ground (arith, some_zip_count fs, h)

not_alone-clash : (fs : List File) → zips_not_alone fs ≡ clash fs
unfolding zips_not_alone
not_alone-clash fs = elim (Bool-cases (any is_zip fs)) [
  | inl e ↦ ground (arith, e, some_zip_count fs e, filter_lengths is_zip fs)
  | inr e ↦ ground (arith, e, no_zip_count fs e)
]

filter_all : (p : File → Bool) (fs : List File) → ((f : File) → p f ≡ true) → filter p fs ≡ fs
unfolding filter
filter_all p [] h = refl
filter_all p (f ∷ fs) h = rw (h f) (ap (◌∷◌ f) (filter_all p fs h))

filter_none : (p : File → Bool) (fs : List File) → ((f : File) → p f ≡ false) → filter p fs ≡ []
unfolding filter
filter_none p [] h = refl
filter_none p (f ∷ fs) h = rw (h f) (filter_none p fs h)

filter_same :
    (p q : File → Bool) (fs : List File) → ((f : File) → p f ≡ q f) → filter p fs ≡ filter q fs
unfolding filter
filter_same p q [] h = refl
filter_same p q (f ∷ fs) h = rw (h f, filter_same p q fs h) refl

append_nil : {A : Type 0} (xs : List A) → xs ++ [] ≡ xs
append_nil [] = refl
append_nil (x ∷ xs) = ap (◌∷◌ x) (append_nil xs)

-- The files of a selection that are accepted and those that are named, where `c` tells whether a ZIP
-- stands beside another file.
abbrev parted : Bool → List File → List RejectedFile → List File × List RejectedFile
parted c ok rs = (
  filter (λ f. not (is_zip f && c)) ok,
  rs ++ map_reject UploadFileProblem.zip_not_alone (filter (λ f. is_zip f && c) ok),
)

abbrev pub parts_of : List File → List File × List RejectedFile
parts_of files = parted (clash (filter passes files)) (filter passes files) (refusals files)

abbrev last_step : Bool → List File → List RejectedFile → List File × List RejectedFile
last_step c ok rs =
    if c
    then (
      filter (λ f. not (is_zip f)) ok,
      rs ++ map_reject UploadFileProblem.zip_not_alone (filter is_zip ok),
    )
    else (ok, rs)

-- Whatever the test says, the two branches of the last step are one formula.
one_formula :
    (c : Bool) (ok : List File) (rs : List RejectedFile) → last_step c ok rs ≡ parted c ok rs
one_formula true ok rs =
    rw
      (
        filter_same (λ f. not (is_zip f && true)) (λ f. not (is_zip f)) ok (λ f. ground arith),
        filter_same (λ f. is_zip f && true) is_zip ok (λ f. ground arith),
      )
      refl
one_formula false ok rs =
    rw
      (
        filter_all (λ f. not (is_zip f && false)) ok (λ f. ground arith),
        filter_none (λ f. is_zip f && false) ok (λ f. ground arith),
        append_nil rs,
      )
      refl

split_parts : (files : List File) → split_upload_files files ≡ parts_of files
unfolding split_upload_files
split_parts files =
    rw (check_each_parts files, not_alone-clash (filter passes files))
      (one_formula (clash (filter passes files)) (filter passes files) (refusals files))

-- splitUploadFiles accepts the files that pass the check of one file, in their order, less the ZIPs
-- where one of these stands beside another file; it names the others by their problem, first those that
-- fail the check and then those ZIPs. So what it accepts holds no ZIP beside another file, and every
-- file of the selection is accepted or named once.
pub split_upload_files_lem :
    (files : List File)
    → (split_upload_files files ≡ parts_of files)
      × Checked (split_upload_files files).0
      × ZipAlone (split_upload_files files).0
      × (length (split_upload_files files).0 + length (split_upload_files files).1 ≡ length files)
split_upload_files_lem files =
    let held = accepted_parts files in (split_parts files, held.0, held.1, held.2)
