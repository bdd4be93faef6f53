-- ===== src/FlatMap/Tests.antt =====
-- A concrete map, over the order of the natural numbers.
use egl_utils_cpp.Prelude.{ℕ, ◌≡◌, true, false, not, List, [], ◌∷◌, ltb, if◌then◌else◌, refl}
use egl_utils_cpp.SortedVector.{equivalent}
use egl_utils_cpp.SortedVector.Order.{ltb-IsOrder}
use egl_utils_cpp.SortedVector.Lookup.{IsSorted, lookup}
use egl_utils_cpp.SortedVector.Change.{or_else}
use egl_utils_cpp.FlatMap.{FlatMap, key_of, second, contains, at, insert_impl, build_from}
use egl_utils_cpp.FlatMap.Laws.{at-insert_impl, at-build_from}

abbrev three : FlatMap ℕ ℕ
three = (1, 10) ∷ (4, 40) ∷ (6, 60) ∷ []

three-IsSorted : IsSorted key_of ltb three
three-IsSorted = ((refl, (refl, tt)), ((refl, tt), (tt, tt)))

at-insert_impl_example :
    let ((pos, is_new), m') = insert_impl ltb three (5, 50) in
    IsSorted key_of ltb m'
    × ((key : ℕ)
        → at ltb m' key
          ≡ (if equivalent ltb key 5 then or_else (at ltb three key) 50 else at ltb three key))
    × (is_new ≡ not (contains ltb three 5))
at-insert_impl_example = at-insert_impl ltb-IsOrder three (5, 50) three-IsSorted

abbrev entries : List (ℕ × ℕ)
entries = (6, 60) ∷ (1, 10) ∷ (6, 66) ∷ (4, 40) ∷ []

at-build_from_example :
    (build_from ltb true entries ≡ build_from ltb false entries)
    × IsSorted key_of ltb (build_from ltb false entries)
    × ((key : ℕ)
        → at ltb (build_from ltb false entries) key ≡ second (lookup key_of ltb key entries))
at-build_from_example = at-build_from ltb-IsOrder entries false
