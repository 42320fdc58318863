-- ===== src/Web/UploadFiles/Accepted.antt =====
-- What a selection accepts may be uploaded together, and no file is lost.
use sol_arch.Prelude.{
  ℕ, zero, suc, ◌+◌, ◌≤◌, ◌≡◌, refl, ap, ◌∙◌, Bool, false, not, ◌⊎◌, inl, inr, Option, none, some,
  List, [], ◌∷◌, ◌++◌, any, arith, length, Bool-cases,
}
use sol_arch.Web.UploadFiles.{
  File, RejectedFile, UploadFileProblem, is_zip, check_upload_file, filter, map_reject, sorted_in,
  check_each, zips_not_alone, split_upload_files,
}

-- Every file passes the check of one file.
abbrev pub Checked : List File → Type 0
Checked [] = Unit
Checked (f ∷ fs) = (check_upload_file f ≡ none) × Checked fs

filter-Checked : (p : File → Bool) (fs : List File) → Checked fs → Checked (filter p fs)
unfolding filter
filter-Checked p [] h = tt
filter-Checked p (f ∷ fs) h = ground (arith, filter-Checked p fs h.1, h.0)

pub filter_lengths :
    (p : File → Bool) (fs : List File)
    → length (filter p fs) + length (filter (λ f. not (p f)) fs) ≡ length fs
unfolding filter
filter_lengths p [] = refl
filter_lengths p (f ∷ fs) = ground (arith, filter_lengths p fs)

no_zips : (fs : List File) → any is_zip (filter (λ f. not (is_zip f)) fs) ≡ false
unfolding filter
no_zips [] = refl
no_zips (f ∷ fs) = ground (arith, no_zips fs)

any-filter : (fs : List File) → length (filter is_zip fs) ≡ 0 → any is_zip fs ≡ false
unfolding filter
any-filter [] h = refl
any-filter (f ∷ fs) h = ground (arith, any-filter fs)

length-append : {A : Type 0} (xs ys : List A) → length (xs ++ ys) ≡ length xs + length ys
length-append [] ys = omega arith
length-append (x ∷ xs) ys = ground (arith, length-append xs ys)

length-map_reject :
    (problem : UploadFileProblem) (fs : List File) → length (map_reject problem fs) ≡ length fs
length-map_reject problem [] = refl
length-map_reject problem (f ∷ fs) = ap suc (length-map_reject problem fs)

sorted-Checked :
    (o : Option UploadFileProblem) (f : File) (r : List File × List RejectedFile)
    → check_upload_file f ≡ o
    → Checked r.0
    → Checked (sorted_in o f r).0
sorted-Checked none f r e h = (e, h)
sorted-Checked (some problem) f r e h = h

sorted_lengths :
    (o : Option UploadFileProblem) (f : File) (r : List File × List RejectedFile)
    → length (sorted_in o f r).0 + length (sorted_in o f r).1 ≡ suc (length r.0 + length r.1)
sorted_lengths none f r = omega arith
sorted_lengths (some problem) f r = omega arith

check_each-Checked : (fs : List File) → Checked (check_each fs).0
unfolding check_each
check_each-Checked [] = tt
check_each-Checked (f ∷ fs) =
    sorted-Checked (check_upload_file f) f (check_each fs) refl (check_each-Checked fs)

check_each_lengths :
    (fs : List File) → length (check_each fs).0 + length (check_each fs).1 ≡ length fs
unfolding check_each
check_each_lengths [] = refl
check_each_lengths (f ∷ fs) =
    sorted_lengths (check_upload_file f) f (check_each fs) ∙ ap suc (check_each_lengths fs)

-- No accepted file is a ZIP, or a ZIP is the only one.
abbrev pub ZipAlone : List File → Type 0
ZipAlone fs = (any is_zip fs ≡ false) ⊎ (length fs ≡ 1)

zero_or_more : (n : ℕ) → (n ≡ 0) ⊎ (1 ≤ n)
zero_or_more zero = inl refl
zero_or_more (suc n) = inr (omega arith)

alone : (fs : List File) → zips_not_alone fs ≡ false → ZipAlone fs
unfolding zips_not_alone
alone fs h = elim (zero_or_more (length (filter is_zip fs))) [
  | inl none_left ↦ inl (any-filter fs none_left)
  | inr more ↦ inr (ground (arith, filter_lengths is_zip fs, more, h))
]

rejoined :
    (files : List File)
    → length (filter (λ f. not (is_zip f)) (check_each files).0)
        + length (
            (check_each files).1
            ++ map_reject UploadFileProblem.zip_not_alone (filter is_zip (check_each files).0))
      ≡ length files
rejoined files =
    let c = check_each files in
    let named =
      length-append c.1 (map_reject UploadFileProblem.zip_not_alone (filter is_zip c.0)) in
    let zips = length-map_reject UploadFileProblem.zip_not_alone (filter is_zip c.0) in
    let parts = filter_lengths is_zip c.0 in
    let all = check_each_lengths files in rw (named, zips) (omega arith)

pub accepted_parts :
    (files : List File)
    → Checked (split_upload_files files).0
      × ZipAlone (split_upload_files files).0
      × (length (split_upload_files files).0 + length (split_upload_files files).1 ≡ length files)
unfolding split_upload_files
accepted_parts files =
    let c = check_each files in
    elim (Bool-cases (zips_not_alone c.0)) [
      | inl e ↦ rw (e) (
        filter-Checked (λ f. not (is_zip f)) c.0 (check_each-Checked files),
        inl (no_zips c.0),
        rejoined files,
      )
      | inr e ↦ rw (e) (check_each-Checked files, alone c.0 e, check_each_lengths files)
    ]
