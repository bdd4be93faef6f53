-- ===== src/FlatMap/Laws.antt =====
-- Lookup after insertion, `operator[]`, removal and construction.
use egl_utils_cpp.Prelude.{
  ◌≡◌, refl, sym, ◌∙◌, ap, Bool, true, false, not, Option, none, some, List, [], ◌∷◌, get_elem?,
  if◌then◌else◌,
}
use egl_utils_cpp.SortedVector.{equivalent}
use egl_utils_cpp.SortedVector.Order.{IsOrder}
use egl_utils_cpp.SortedVector.Lookup.{IsSorted, lookup, found-lookup}
use egl_utils_cpp.SortedVector.Change.{
  or_else, inserted, erased, IsSorted-inserted, IsSorted-erased, lookup-inserted, lookup-erased,
}
use egl_utils_cpp.SortedVector.Build.{
  inserted_all, unique-stable_sort_empty, IsSorted-inserted_all, lookup-inserted_all_empty,
}
use egl_utils_cpp.FlatMap.{
  FlatMap, key_of, second, contains, count, at, insert_impl, subscript, erase, insert_each,
  build_from,
}
use egl_utils_cpp.FlatMap.Steps.{
  at-by-hit, insert-inserted, insert-new, subscript-inserted, subscript-refers, erase-erased,
  erase-count,
}

module _ {ℓ ℓ'} {Key : Type ℓ} {Value : Type ℓ'} where
  second_of_or_else :
      (b : Bool) (e : Option (Key × Value)) (kv : Key × Value)
      → second (if b then or_else e kv else e) ≡ (if b then or_else (second e) kv.1 else second e)
  unfolding second or_else
  second_of_or_else false e kv = refl
  second_of_or_else true none kv = refl
  second_of_or_else true (some x) kv = refl

  second_of_none :
      (b : Bool) (e : Option (Key × Value))
      → second (if b then none else e) ≡ (if b then none else second e)
  unfolding second
  second_of_none false e = refl
  second_of_none true e = refl

module _ {ℓ ℓ'} {Key : Type ℓ} {Value : Type ℓ'} {comp : Key → Key → Bool} (o : IsOrder comp) where
  at-lookup :
      (m : FlatMap Key Value) (key : Key)
      → IsSorted key_of comp m
      → at comp m key ≡ second (lookup key_of comp key m)
  at-lookup m key v = at-by-hit comp m key ∙ ap second (found-lookup key_of comp o key m v)

  at-inserted :
      (m : FlatMap Key Value) (kv : Key × Value) (key : Key)
      → IsSorted key_of comp m
      → at comp (inserted key_of comp kv m) key
        ≡ (if equivalent comp key kv.0 then or_else (at comp m key) kv.1 else at comp m key)
  at-inserted m kv key v =
      at-lookup (inserted key_of comp kv m) key (IsSorted-inserted key_of comp o kv m v)
      ∙ ap second (lookup-inserted key_of comp o key kv m v)
      ∙ second_of_or_else (equivalent comp key kv.0) (lookup key_of comp key m) kv
      ∙ ap (λ e. if equivalent comp key kv.0 then or_else e kv.1 else e) (sym (at-lookup m key v))

  -- Insertion into a sorted map leaves it sorted, gives its key the new value only where the key had
  -- none, leaves every other key as it was, and reports whether the key was new.
  pub at-insert_impl :
      (m : FlatMap Key Value) (kv : Key × Value)
      → IsSorted key_of comp m
      → let ((pos, is_new), m') = insert_impl comp m kv in
        IsSorted key_of comp m'
        × ((key : Key)
            → at comp m' key
              ≡ (if equivalent comp key kv.0 then or_else (at comp m key) kv.1 else at comp m key))
        × (is_new ≡ not (contains comp m kv.0))
  at-insert_impl m kv v =
      rw (insert-inserted comp m kv) (
        IsSorted-inserted key_of comp o kv m v,
        λ key. at-inserted m kv key v,
        insert-new comp m kv,
      )

  -- Removal from a sorted map leaves it sorted, takes away its key and no other, and returns the
  -- number of entries that the key had.
  pub at-erase :
      (m : FlatMap Key Value) (key : Key)
      → IsSorted key_of comp m
      → let (removed, m') = erase comp m key in
        IsSorted key_of comp m'
        × ((other : Key)
            → at comp m' other ≡ (if equivalent comp other key then none else at comp m other))
        × (removed ≡ count comp m key)
  at-erase m key v = rw (erase-erased comp m key) (
    IsSorted-erased key_of comp o key m v,
    λ other.
        at-lookup (erased key_of comp key m) other (IsSorted-erased key_of comp o key m v)
        ∙ ap second (lookup-erased key_of comp o other key m v)
        ∙ second_of_none (equivalent comp other key) (lookup key_of comp other m)
        ∙ ap (λ e. if equivalent comp other key then none else e) (sym (at-lookup m other v)),
    erase-count comp m key,
  )

  -- `operator[]` on a sorted map leaves it sorted, gives the key the default value if it had none,
  -- leaves every other key as it was, and refers to the value of the key.
  pub at-subscript :
      (default : Value) (m : FlatMap Key Value) (key : Key)
      → IsSorted key_of comp m
      → let (pos, m') = subscript comp default m key in
        IsSorted key_of comp m'
        × ((other : Key)
            → at comp m' other ≡ (
                if equivalent comp other key
                then or_else (at comp m other) default
                else at comp m other))
        × (second (get_elem? m' pos) ≡ or_else (at comp m key) default)
  at-subscript default m key v = (
    rw (subscript-inserted comp default m key) (IsSorted-inserted key_of comp o (key, default) m v),
    λ other. rw (subscript-inserted comp default m key) (at-inserted m (key, default) other v),
    subscript-refers comp default m key,
  )

  insert_each-inserted :
      (m : FlatMap Key Value) (es : List (Key × Value))
      → insert_each comp m es ≡ inserted_all key_of comp m es
  unfolding insert_each inserted_all
  insert_each-inserted m [] = refl
  insert_each-inserted m (e ∷ es) =
      insert_each-inserted (insert_impl comp m e).1 es
      ∙ ap (λ k. inserted_all key_of comp k es) (insert-inserted comp m e)

  build_from-inserted :
      (constant : Bool) (es : List (Key × Value))
      → build_from comp constant es ≡ inserted_all key_of comp [] es
  unfolding build_from
  build_from-inserted true es = insert_each-inserted [] es
  build_from-inserted false es = unique-stable_sort_empty key_of comp o es

  -- Construction in a constant evaluation and at run time gives the same vector, which is sorted and
  -- has for each key the value of its first entry in the range.
  pub at-build_from :
      (es : List (Key × Value)) (constant : Bool)
      → (build_from comp true es ≡ build_from comp false es)
        × IsSorted key_of comp (build_from comp constant es)
        × ((key : Key)
            → at comp (build_from comp constant es) key ≡ second (lookup key_of comp key es))
  at-build_from es constant =
      let built = build_from-inserted constant es in
      let sorted = IsSorted-inserted_all key_of comp o [] es tt in
      (
        build_from-inserted true es ∙ sym (build_from-inserted false es),
        rw built sorted,
        λ key.
            ap (λ m. at comp m key) built
            ∙ at-lookup (inserted_all key_of comp [] es) key sorted
            ∙ ap second (lookup-inserted_all_empty key_of comp o key es),
      )
