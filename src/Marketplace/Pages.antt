-- ===== src/Marketplace/Pages.antt =====
-- `listArchives`: filtered, sorted and cut into pages.
pub mod Sorted
pub mod Cover
use sol_arch.Prelude.{
  ℕ, zero, suc, ◌+◌, ◌*◌, ◌-◌, ◌/◌, String, Bool, true, false, not, ◌&&◌, ◌||◌, List, [], ◌∷◌, ltb,
  leb, eqb, length, if◌then◌else◌,
}
use sol_arch.Db.{Archive, is_ready, is_published}

pub data Sort : Type 0 where
  newest price_asc price_desc popular_week popular_month most_downloaded : Sort

-- An item with what it is sorted by.
pub record Item : Type 0 where
  pub archive_id : String
  pub price_amount : ℕ
  pub downloads : ℕ
  pub paid_unlocks : ℕ
  pub window_paid : ℕ
  pub window_downloads : ℕ

pub record Page : Type 0 where
  pub items : List Item
  pub page : ℕ
  pub per_page : ℕ
  pub total : ℕ
  pub has_more : Bool

-- `where: { marketplaceStatus: 'published', technicalStatus: 'ready' }`
unfoldable pub is_on_market : Archive → Bool
is_on_market a = is_published a.marketplace_status && is_ready a.technical_status

-- What `Number` makes of `page` or `limit`: nothing that counts (a missing value or no number), a number
-- below zero, or a whole number; a page or a limit with a fraction is not represented.
pub data Asked : Type 0 where
  missing negative : Asked
  whole : ℕ → Asked

-- `Math.max(Number(page) || 1, 1)`
unfoldable pub page_number : Asked → ℕ
page_number missing = 1
page_number negative = 1
page_number (whole n) = if eqb n 0 then 1 else n

-- `Math.min(Math.max(Number(limit) || 20, 1), 100)`
unfoldable pub page_limit : Asked → ℕ
page_limit missing = 20
page_limit negative = 1
page_limit (whole n) = if eqb n 0 then 20 else if ltb 100 n then 100 else n

-- `Math.ceil(total / limit)`
unfoldable pub total_pages : ℕ → ℕ → ℕ
total_pages total limit = (total + (limit - 1)) / limit

-- The comparator puts `a` behind `b`.
unfoldable pub goes_behind : Sort → Item → Item → Bool
goes_behind Sort.most_downloaded a b = ltb a.downloads b.downloads
goes_behind Sort.popular_week a b =
    if eqb a.window_paid b.window_paid
    then ltb a.window_downloads b.window_downloads
    else ltb a.window_paid b.window_paid
goes_behind Sort.popular_month a b =
    if eqb a.window_paid b.window_paid
    then ltb a.window_downloads b.window_downloads
    else ltb a.window_paid b.window_paid
goes_behind _ a b = false

unfoldable pub insert_item : Sort → Item → List Item → List Item
unfolding goes_behind
insert_item sort a [] = a ∷ []
insert_item sort a (b ∷ bs) =
    let rest = insert_item sort a bs in if goes_behind sort a b then b ∷ rest else a ∷ b ∷ bs

-- `items.sort(…)`, which is stable; for the other sorts the rows come ordered from the database
unfoldable pub sort_items : Sort → List Item → List Item
unfolding insert_item
sort_items sort [] = []
sort_items sort (a ∷ rest) = insert_item sort a (sort_items sort rest)

unfoldable pub drop {ℓ} : {A : Type ℓ} → ℕ → List A → List A
drop zero xs = xs
drop (suc n) [] = []
drop (suc n) (x ∷ xs) = drop n xs

unfoldable pub take {ℓ} : {A : Type ℓ} → ℕ → List A → List A
take zero xs = []
take (suc n) [] = []
take (suc n) (x ∷ xs) = x ∷ take n xs

-- `items.slice(skip, skip + limit)`, and `{ skip, take: limit }` of the query
unfoldable pub slice : ℕ → ℕ → List Item → List Item
unfolding drop take
slice skip limit items = take limit (drop skip items)

-- `listArchives`, on the rows that match the query, in the order of the query
unfoldable pub list_archives : Sort → Asked → Asked → List Item → Page
unfolding page_number page_limit total_pages sort_items slice
list_archives sort page limit rows =
    let number = page_number page in
    let size = page_limit limit in
    record {
      items = slice ((number - 1) * size) size (sort_items sort rows);
      page = number;
      per_page = size;
      total = length rows;
      has_more = ltb number (total_pages (length rows) size);
    }
