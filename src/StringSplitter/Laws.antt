-- ===== src/StringSplitter/Laws.antt =====
-- What the tokens of a text are: joined by the delimiter they are the text, and none contains it.
use egl_utils_cpp.Prelude.{
  ℕ, zero, suc, ◌+◌, ◌-◌, ◌≤◌, ◌<◌, ◌≡◌, refl, sym, ◌∙◌, ap, ap₂, true, none, some, List, [], ◌∷◌,
  ◌++◌, length, take, drop, length-drop, drop-drop, add_size, max_size, Option-cases, inl, inr,
  arith,
}
use egl_utils_cpp.StringSplitter.{
  shifted, offset_of, find, Iterator, advance_to, advance, at_cursor, begin, tokens,
}
use egl_utils_cpp.StringSplitter.Search.{offset_of-append, offset_of-take, offset_of-in_range}

pub join_after : List ℕ → List ℕ → List (List ℕ) → List ℕ
join_after d x [] = x
join_after d x (y ∷ ys) = x ++ (d ++ join_after d y ys)

pub join : List ℕ → List (List ℕ) → List ℕ
unfolding join_after
join d [] = []
join d (x ∷ xs) = join_after d x xs

-- No token contains the delimiter.
abbrev pub AreFree : List ℕ → List (List ℕ) → Type 0
AreFree d [] = Unit {0}
AreFree d (x ∷ xs) = (offset_of d x ≡ none) × AreFree d xs

-- The delimiter is `a ∷ d`: the source wants one that is not empty.
module _ (a : ℕ) (d : List ℕ) where
  tokens-done : (fuel : ℕ) (it : Iterator) → it.done ≡ true → tokens fuel it ≡ []
  unfolding tokens
  tokens-done zero it h = refl
  tokens-done (suc fuel) it h = rw h refl

  module _ (text : List ℕ) (small : length text ≤ max_size) where
    -- The iterator from which the rest of the text is still to be split.
    abbrev ahead : List ℕ → ℕ → Iterator
    ahead current cursor = advance (at_cursor text (a ∷ d) current cursor)

    abbrev rest : ℕ → List ℕ
    rest cursor = drop cursor text

    last_token :
        (fuel : ℕ) (current : List ℕ) (cursor : ℕ)
        → offset_of (a ∷ d) (rest cursor) ≡ none
        → tokens (suc fuel) (ahead current cursor) ≡ rest cursor ∷ []
    unfolding tokens advance advance_to find shifted
    last_token fuel current cursor e = rw e (ap (λ ts. rest cursor ∷ ts) (tokens-done fuel _ refl))

    next_token :
        (fuel : ℕ) (current : List ℕ) (cursor k : ℕ)
        → offset_of (a ∷ d) (rest cursor) ≡ some k
        → tokens (suc fuel) (ahead current cursor)
          ≡ take k (rest cursor)
            ∷ tokens fuel (ahead (take k (rest cursor)) (cursor + (k + length (a ∷ d))))
    unfolding tokens advance advance_to find shifted
    next_token fuel current cursor k e =
        let inside = offset_of-in_range a d (rest cursor) k e in
        let size = length-drop cursor text in
        let back : cursor + k - cursor ≡ k = omega arith in
        let behind : add_size (cursor + k) (length (a ∷ d)) ≡ cursor + (k + length (a ∷ d)) =
          omega arith in
        rw e (
          ap₂ (λ j n. take j (rest cursor) ∷ tokens fuel (ahead (take j (rest cursor)) n)) back
            behind)

    first_token :
        (fuel : ℕ) (current : List ℕ) (cursor : ℕ)
        → 0 < fuel
        → (x : List ℕ) × (xs : List (List ℕ)) × (tokens fuel (ahead current cursor) ≡ x ∷ xs)
    first_token zero current cursor h = absurd (omega arith)
    first_token (suc fuel) current cursor h =
        elim (Option-cases (offset_of (a ∷ d) (rest cursor))) [
          | inl absent ↦ (_, _, last_token fuel current cursor absent)
          | inr (k, found) ↦ (_, _, next_token fuel current cursor k found)
        ]

    join-next_token :
        (fuel : ℕ) (x current : List ℕ) (cursor : ℕ)
        → 0 < fuel
        → join (a ∷ d) (x ∷ tokens fuel (ahead current cursor))
          ≡ x ++ ((a ∷ d) ++ join (a ∷ d) (tokens fuel (ahead current cursor)))
    unfolding join join_after
    join-next_token fuel x current cursor h =
        let (y, ys, e) = first_token fuel current cursor h in rw e refl

    tokens-split :
        (fuel : ℕ) (current : List ℕ) (cursor : ℕ)
        → length (rest cursor) < fuel
        → (join (a ∷ d) (tokens fuel (ahead current cursor)) ≡ rest cursor)
          × AreFree (a ∷ d) (tokens fuel (ahead current cursor))
    unfolding join join_after
    tokens-split zero current cursor h = absurd (omega arith)
    tokens-split (suc fuel) current cursor h =
        elim (Option-cases (offset_of (a ∷ d) (rest cursor))) [
          | inl absent ↦ rw (last_token fuel current cursor absent) (refl, (absent, tt))
          | inr (k, found) ↦
              let inside = offset_of-in_range a d (rest cursor) k found in
              let behind = drop-drop cursor (k + length (a ∷ d)) text in
              let shorter = ap length behind in
              let size = length-drop (k + length (a ∷ d)) (rest cursor) in
              let left : length (rest (cursor + (k + length (a ∷ d)))) < fuel = omega arith in
              let x = take k (rest cursor) in
              let (joined, free) = tokens-split fuel x (cursor + (k + length (a ∷ d))) left in
              rw (next_token fuel current cursor k found) (
                join-next_token fuel x x (cursor + (k + length (a ∷ d))) (omega arith)
                    ∙ ap (λ ts. x ++ ((a ∷ d) ++ ts)) (joined ∙ sym behind)
                    ∙ sym (offset_of-append a d (rest cursor) k found),
                (offset_of-take a d (rest cursor) k found, free),
              )
        ]

    -- Over a text of at most `max_size` bytes and with a delimiter that is not empty, a loop with more
    -- rounds than the text has bytes sees tokens that are the text when the delimiter joins them, and
    -- of which none contains the delimiter.
    pub tokens-begin :
        (fuel : ℕ)
        → length text < fuel
        → (join (a ∷ d) (tokens fuel (begin text (a ∷ d))) ≡ text)
          × AreFree (a ∷ d) (tokens fuel (begin text (a ∷ d)))
    unfolding begin
    tokens-begin fuel h = tokens-split fuel [] 0 h
