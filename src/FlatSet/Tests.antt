-- ===== src/FlatSet/Tests.antt =====
-- A concrete set, over the order of the natural numbers.
use egl_utils_cpp.Prelude.{ℕ, ◌≡◌, [], ◌∷◌, ltb, refl}
use egl_utils_cpp.SortedVector.{stable_sort}
use egl_utils_cpp.SortedVector.Order.{ltb-IsOrder}
use egl_utils_cpp.SortedVector.Lookup.{IsSorted}
use egl_utils_cpp.SortedVector.Members.{has}
use egl_utils_cpp.SortedVector.Sort.{stable_sort-Perm, stable_sort-IsOrdered}
use egl_utils_cpp.FlatSet.{FlatSet, itself, contains, sort_unique}
use egl_utils_cpp.FlatSet.Laws.{contains-sort_unique}

abbrev three : FlatSet ℕ
three = 1 ∷ 4 ∷ 6 ∷ []

three-IsSorted : IsSorted itself ltb three
three-IsSorted = ((refl, (refl, tt)), ((refl, tt), (tt, tt)))

abbrev sort : FlatSet ℕ → FlatSet ℕ
sort = stable_sort itself ltb []

abbrev elements : FlatSet ℕ
elements = 6 ∷ 1 ∷ 6 ∷ 4 ∷ []

contains-sort_unique_example :
    IsSorted itself ltb (sort_unique ltb sort elements)
    × ((value : ℕ)
        → contains ltb (sort_unique ltb sort elements) value ≡ has itself ltb value elements)
contains-sort_unique_example =
    contains-sort_unique ltb-IsOrder sort
      (λ xs. stable_sort-IsOrdered itself ltb ltb-IsOrder [] xs tt) (stable_sort-Perm itself ltb)
      elements
