-- ===== src/FlatMap/Steps.antt =====
-- What each member does to the vector, by the insertion and the removal of a sorted vector.
use egl_utils_cpp.Prelude.{
  get_elem?-eq-some, ℕ, ◌≡◌, refl, sym, ◌∙◌, ap, Bool, true, false, not, none, length, get_elem?,
  ◌==◌, if◌then◌else◌, Bool-cases, inl, inr, arith,
}
use egl_utils_cpp.SortedVector.{matches, insert_at, erase_at}
use egl_utils_cpp.SortedVector.Lookup.{lower_bound-in_range, get_elem?-insert_at, matches-in_range}
use egl_utils_cpp.SortedVector.Change.{or_else, or_else, inserted, inserted-eq, erased, erased-eq}
use egl_utils_cpp.FlatMap.{
  FlatMap, key_of, second, lower, find, contains, count, at, insert_impl, subscript, erase,
  erase_position,
}

same_size : (n : ℕ) → (n == n) ≡ true
same_size n = ground arith

module _ {ℓ ℓ'} {Key : Type ℓ} {Value : Type ℓ'} (comp : Key → Key → Bool) where
  not_end :
      (key : Key) (m : FlatMap Key Value) (i : ℕ)
      → matches key_of comp key (get_elem? m i) ≡ true
      → (i == length m) ≡ false
  not_end key m i h = let r = matches-in_range key_of comp key m i h in ground arith

  -- Whether the search ends at an entry of the key.
  abbrev pub hit : FlatMap Key Value → Key → Bool
  hit m key = matches key_of comp key (get_elem? m (lower comp m key))

  pub at-by-hit :
      (m : FlatMap Key Value) (key : Key)
      → at comp m key ≡ second (if hit m key then get_elem? m (lower comp m key) else none)
  unfolding at find second
  at-by-hit m key = elim (Bool-cases (hit m key)) [
    | inl t ↦ rw (t, not_end key m (lower comp m key) t) refl
    | inr f ↦ rw (f, same_size (length m)) refl
  ]

  pub contains-by-hit : (m : FlatMap Key Value) (key : Key) → contains comp m key ≡ hit m key
  unfolding contains find
  contains-by-hit m key = elim (Bool-cases (hit m key)) [
    | inl t ↦ rw (t, not_end key m (lower comp m key) t) refl
    | inr f ↦ rw (f, same_size (length m)) refl
  ]

  insert-by-hit :
      (m : FlatMap Key Value) (kv : Key × Value)
      → (insert_impl comp m kv).1 ≡ (if hit m kv.0 then m else insert_at m (lower comp m kv.0) kv)
  unfolding insert_impl
  insert-by-hit m kv = elim (Bool-cases (hit m kv.0)) [ inl t ↦ rw t refl | inr f ↦ rw f refl ]

  pub insert-inserted :
      (m : FlatMap Key Value) (kv : Key × Value)
      → (insert_impl comp m kv).1 ≡ inserted key_of comp kv m
  insert-inserted m kv = insert-by-hit m kv ∙ inserted-eq key_of comp kv m

  pub subscript-inserted :
      (default : Value) (m : FlatMap Key Value) (key : Key)
      → (subscript comp default m key).1 ≡ inserted key_of comp (key, default) m
  unfolding subscript
  subscript-inserted default m key =
      let split : (subscript comp default m key).1
          ≡ (if hit m key then m else insert_at m (lower comp m key) (key, default)) =
        elim (Bool-cases (hit m key)) [ inl t ↦ rw t refl | inr f ↦ rw f refl ] in
      split ∙ inserted-eq key_of comp (key, default) m

  -- The position that `operator[]` returns holds the value of the key, or the default.
  pub subscript-refers :
      (default : Value) (m : FlatMap Key Value) (key : Key)
      → (let (pos, m') = subscript comp default m key in second (get_elem? m' pos))
        ≡ or_else (at comp m key) default
  unfolding subscript second or_else
  subscript-refers default m key = elim (Bool-cases (hit m key)) [
    | inl t ↦
        let (e, found) =
          get_elem?-eq-some m (lower comp m key) (matches-in_range key_of comp key m _ t) in
        rw (at-by-hit m key, t, found) refl
    | inr f ↦
        let placed =
          get_elem?-insert_at m (lower comp m key) (key, default)
            (lower_bound-in_range key_of comp key m) in
        rw (at-by-hit m key, f, placed) refl
  ]

  pub erase-erased :
      (m : FlatMap Key Value) (key : Key) → (erase comp m key).1 ≡ erased key_of comp key m
  unfolding erase find erase_position
  erase-erased m key =
      let split : (erase comp m key).1 ≡ (if hit m key then erase_at m (lower comp m key) else m) =
        elim (Bool-cases (hit m key)) [
          | inl t ↦ rw (t, not_end key m (lower comp m key) t) refl
          | inr f ↦ rw (f, same_size (length m)) refl
        ] in
      split ∙ erased-eq key_of comp key m

  pub erase-count : (m : FlatMap Key Value) (key : Key) → (erase comp m key).0 ≡ count comp m key
  unfolding erase erase_position count contains find
  erase-count m key = elim (Bool-cases (hit m key)) [
    | inl t ↦ rw (t, not_end key m (lower comp m key) t) refl
    | inr f ↦ rw (f, same_size (length m)) refl
  ]

  pub insert-new :
      (m : FlatMap Key Value) (kv : Key × Value)
      → (insert_impl comp m kv).0.1 ≡ not (contains comp m kv.0)
  unfolding insert_impl
  insert-new m kv =
      elim (Bool-cases (hit m kv.0)) [ inl t ↦ rw t refl | inr f ↦ rw f refl ]
      ∙ sym (ap not (contains-by-hit m kv.0))
