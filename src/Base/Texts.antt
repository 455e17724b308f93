-- ===== src/Base/Texts.antt =====
-- Lists of texts: the first occurrences, the join, and the sorting that Python has.
use Prim.Native.String.{String, compare, ◌++◌ as text_append}
use Prim.Native.Nat.{Ordering}
use mathlib.Core.Bool.{not}
use mathlib.Core.List.{List, [], ◌∷◌}
use text.Mathlib.Text.{◌==◌ as str_eq}
use merge_mate.Base.Lists.{select}

-- `dict.fromkeys`: the first occurrence of each name.
unfoldable pub unique : List String → List String
unique [] = []
unique (x ∷ xs) = x ∷ select (λ y. not (str_eq x y)) (unique xs)

-- `separator.join`
unfoldable pub join : String → List String → String
join separator [] = ""
join separator (x ∷ []) = x
join separator (x ∷ y ∷ rest) = text_append x (text_append separator (join separator (y ∷ rest)))

-- `sorted` on texts.
unfoldable pub insert_text : String → List String → List String
insert_text t [] = t ∷ []
insert_text t (x ∷ xs) = elim (compare t x) [ Ordering.gt ↦ x ∷ insert_text t xs | _ ↦ t ∷ x ∷ xs ]

unfoldable pub sorted : List String → List String
unfolding insert_text
sorted [] = []
sorted (t ∷ ts) = insert_text t (sorted ts)
