-- ===== src/Queue/Members.antt =====
-- The members of the queue's lists, and what `discard` leaves of them.
use merge_mate.Base.{
  suc, String, ◌≡◌, refl, true, false, ◌&&◌, ◌||◌, not, List, [], ◌∷◌, ◌++◌, elem, str_eq, eq_iff,
  length, Bool-cases, inl, inr, arith,
}
use merge_mate.Queue.{discard}

abbrev pub IsDistinct : List String → Type 0
IsDistinct [] = Unit
IsDistinct (x ∷ xs) = (elem x xs ≡ false) × IsDistinct xs

pub elem-append : (a : String) (xs ys : List String) → elem a (xs ++ ys) ≡ elem a xs || elem a ys
unfolding elem
elem-append a [] ys = refl
elem-append a (x ∷ xs) ys = ground (arith, elem-append a xs ys)

pub IsDistinct-snoc :
    (a : String) (xs : List String) → elem a xs ≡ false → IsDistinct xs → IsDistinct (xs ++ a ∷ [])
unfolding elem
IsDistinct-snoc a [] h d = (refl, tt)
IsDistinct-snoc a (x ∷ xs) h d = (
  rw (elem-append x xs (a ∷ [])) (ground (arith, eq_iff a x, eq_iff x a)),
  IsDistinct-snoc a xs (ground arith) d.1,
)

pub elem-discard :
    (a b : String) (xs : List String) → elem b (discard a xs) ≡ elem b xs && not (str_eq a b)
unfolding elem discard
elem-discard a b [] = refl
elem-discard a b (x ∷ xs) =
    ground (arith, elem-discard a b xs, eq_iff x a, eq_iff a x, eq_iff x b, eq_iff a b)

pub IsDistinct-discard : (a : String) (xs : List String) → IsDistinct xs → IsDistinct (discard a xs)
unfolding discard
IsDistinct-discard a [] d = tt
IsDistinct-discard a (x ∷ xs) d = elim (Bool-cases (str_eq x a)) [
  | inl y ↦ rw y (IsDistinct-discard a xs d.1)
  | inr n ↦ rw n (rw (elem-discard a x xs) (ground arith), IsDistinct-discard a xs d.1)
]

pub discard-absent : (a : String) (xs : List String) → elem a xs ≡ false → discard a xs ≡ xs
unfolding elem discard
discard-absent a [] h = refl
discard-absent a (x ∷ xs) h = ground (arith, discard-absent a xs)

pub length-discard :
    (a : String) (xs : List String)
    → IsDistinct xs
    → elem a xs ≡ true
    → length xs ≡ suc (length (discard a xs))
unfolding elem discard
length-discard a [] d h = ground arith
length-discard a (x ∷ xs) d h =
    ground (arith, length-discard a xs d.1, eq_iff x a, discard-absent a xs)

pub length-snoc : (xs : List String) (a : String) → length (xs ++ a ∷ []) ≡ suc (length xs)
length-snoc [] a = refl
length-snoc (x ∷ xs) a = ground (arith, length-snoc xs a)
