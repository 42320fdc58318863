-- ===== src/Marketplace/Pages/Sorted.antt =====
-- The sort of a listing loses no item and puts none behind one that should follow it.
use mathlib.Core.List.{Perm}
use mathlib.Core.List.Perm
use sol_arch.Prelude.{◌≡◌, refl, true, false, List, [], ◌∷◌, inl, inr, arith, Bool-cases}
use sol_arch.Marketplace.Pages.{Sort, Item, goes_behind, insert_item, sort_items}

-- The item does not go behind the first of the others.
abbrev pub Leads : Sort → Item → List Item → Type 0
Leads sort a [] = Unit
Leads sort a (b ∷ bs) = goes_behind sort a b ≡ false

-- No item stands right before one that it should follow.
abbrev pub Ordered : Sort → List Item → Type 0
Ordered sort [] = Unit
Ordered sort (a ∷ bs) = Leads sort a bs × Ordered sort bs

insert_item-perm : (sort : Sort) (a : Item) (bs : List Item) → Perm (insert_item sort a bs) (a ∷ bs)
unfolding insert_item
insert_item-perm sort a [] = Perm.refl (a ∷ [])
insert_item-perm sort a (b ∷ bs) = elim (Bool-cases (goes_behind sort a b)) [
  | inl e ↦ rw (e) (Perm.trans (Perm.cons b (insert_item-perm sort a bs)) (Perm.swap a b bs))
  | inr e ↦ rw (e) (Perm.refl (a ∷ b ∷ bs))
]

pub sort_items-perm : (sort : Sort) (rows : List Item) → Perm (sort_items sort rows) rows
unfolding sort_items
sort_items-perm sort [] = Perm.refl []
sort_items-perm sort (a ∷ rest) =
    Perm.trans (insert_item-perm sort a (sort_items sort rest))
      (Perm.cons a (sort_items-perm sort rest))

not_both : (sort : Sort) (a b : Item) → goes_behind sort a b ≡ true → goes_behind sort b a ≡ false
unfolding goes_behind
not_both Sort.newest a b e = refl
not_both Sort.price_asc a b e = refl
not_both Sort.price_desc a b e = refl
not_both Sort.most_downloaded a b e = ground (arith, e)
not_both Sort.popular_week a b e = ground (arith, e)
not_both Sort.popular_month a b e = ground (arith, e)

insert_item-Leads :
    (sort : Sort) (b a : Item) (bs : List Item)
    → goes_behind sort b a ≡ false
    → Leads sort b bs
    → Leads sort b (insert_item sort a bs)
unfolding insert_item
insert_item-Leads sort b a [] e h = e
insert_item-Leads sort b a (c ∷ cs) e h = elim (Bool-cases (goes_behind sort a c)) [
  | inl f ↦ rw (f) h
  | inr f ↦ rw (f) e
]

insert_item-Ordered :
    (sort : Sort) (a : Item) (bs : List Item)
    → Ordered sort bs
    → Ordered sort (insert_item sort a bs)
unfolding insert_item
insert_item-Ordered sort a [] h = (tt, tt)
insert_item-Ordered sort a (b ∷ bs) h = elim (Bool-cases (goes_behind sort a b)) [
  | inl e ↦
      rw (e)
        (insert_item-Leads sort b a bs (not_both sort a b e) h.0, insert_item-Ordered sort a bs h.1)
  | inr e ↦ rw (e) (e, h)
]

pub sort_items-Ordered : (sort : Sort) (rows : List Item) → Ordered sort (sort_items sort rows)
unfolding sort_items
sort_items-Ordered sort [] = tt
sort_items-Ordered sort (a ∷ rest) =
    insert_item-Ordered sort a (sort_items sort rest) (sort_items-Ordered sort rest)
