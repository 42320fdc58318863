-- ===== src/Web/Tests.antt =====
-- The web theorems at concrete inputs.
use sol_arch.Prelude.{ltb, true, ◌+◌, ◌≡◌, refl, some, none, List, [], ◌∷◌, length}
use sol_arch.Table.{find}
use sol_arch.Web.Base58.{decode_base58}
use sol_arch.Web.Base58.Value.{spelled, big_endian, Bytes, decode_base58_lem}
use sol_arch.Web.Redirect.{safe_redirect}
use sol_arch.Web.Money.{
  platform_fee_bps, parse_usdc, format_usdc, validate_price_input, preview_economics, cut_at_dot,
  pad_end,
}
use sol_arch.Web.Money.Paid.{preview_of, accepted_preview}
use sol_arch.Web.UploadFiles.{File, split_upload_files}
use sol_arch.Web.UploadFiles.Accepted.{Checked, ZipAlone}
use sol_arch.Web.UploadFiles.Partition.{parts_of, split_upload_files_lem}
use sol_arch.Web.Files.{PublicFileEntry, group_files_by_folder}
use sol_arch.Table.Laws.{IsKeyed}
use sol_arch.Web.Files.Order.{folders, root_first, appearing}
use sol_arch.Web.Files.Groups.{of_folder, extended, group_files_by_folder_lem}

-- "15Q" is 256, behind one zero byte
decode_base58_example :
    (spelled 0 "15R" ≡ some (big_endian 0 (0 ∷ 1 ∷ 0 ∷ []))) × Bytes (0 ∷ 1 ∷ 0 ∷ [])
unfolding decode_base58
decode_base58_example = decode_base58_lem "15R" (0 ∷ 1 ∷ 0 ∷ []) refl

safe_redirect_run : safe_redirect (some "//evil.example") ≡ "/dashboard"
unfolding safe_redirect
safe_redirect_run = refl

abbrev selection : List File
selection =
    record { name = "a.pdf"; size = 3 }
    ∷ record { name = "b.zip"; size = 3 }
    ∷ record { name = "c.mp4"; size = 3 }
    ∷ []

split_upload_files_example :
    (split_upload_files selection ≡ parts_of selection)
    × Checked (split_upload_files selection).0
    × ZipAlone (split_upload_files selection).0
    × (length (split_upload_files selection).0 + length (split_upload_files selection).1 ≡ 3)
split_upload_files_example = split_upload_files_lem selection

abbrev listing : List PublicFileEntry
listing =
    record { display_path = "docs/a.pdf"; size_bytes = 3 }
    ∷ record { display_path = "b.pdf"; size_bytes = 4 }
    ∷ record { display_path = "docs/c.pdf"; size_bytes = 5 }
    ∷ []

group_files_by_folder_example :
    IsKeyed (group_files_by_folder listing)
    × (folders (group_files_by_folder listing) ≡ root_first (appearing [] listing))
    × (find "docs" (group_files_by_folder listing) ≡ extended none (of_folder "docs" listing))
group_files_by_folder_example = group_files_by_folder_lem "docs" listing

accepted_preview_example :
    (ltb 0 1250 ≡ true) × (preview_economics " 12.5 " platform_fee_bps ≡ some (preview_of 1250))
unfolding validate_price_input cut_at_dot pad_end
accepted_preview_example = accepted_preview " 12.5 " refl

parse_usdc_run : parse_usdc " 12.5 " ≡ some 12500000
unfolding parse_usdc
parse_usdc_run = refl

format_usdc_run : format_usdc 12050000 2 ≡ "12.05"
unfolding format_usdc
format_usdc_run = refl
