-- ===== src/Marketplace/Pages/Cover.antt =====
-- The pages of a listing, one after another, are the whole listing.
use sol_arch.Prelude.{ℕ, zero, suc, List, [], ◌++◌}
use sol_arch.Marketplace.Pages.{Sort, Item, Asked, whole, list_archives}

-- The items of the first `k` pages.
unfoldable pub first_pages : Sort → Asked → List Item → ℕ → List Item
first_pages sort limit rows zero = []
first_pages sort limit rows (suc k) =
    first_pages sort limit rows k ++ (list_archives sort (whole (suc k)) limit rows).items
