-- ===== src/CircularBuffer/Window.antt =====
-- The elements of a ring from one slot on, and how writes and moves change them.
use egl_utils_cpp.Prelude.{
  ℕ, zero, suc, ◌+◌, ◌-◌, ◌≤◌, ◌<◌, ◌≡◌, ◌≢◌, refl, ap, ap₂, Option, none, some, List, [], ◌∷◌,
  ◌++◌, length, get_elem?, set, get_elem?-set_self, get_elem?-set_ne, get_elem?-eq-some, arith,
}
use egl_utils_cpp.CircularBuffer.Inv.{wrap}

module _ {ℓ} {T : Type ℓ} where
  abbrev pub cons? : Option T → List T → List T
  cons? none q = q
  cons? (some x) q = x ∷ q

  -- The `n` elements from slot `h` on, going round after slot `cap - 1`.
  abbrev pub window : List T → ℕ → ℕ → ℕ → List T
  window buf cap h zero = []
  window buf cap h (suc n) = cons? (get_elem? buf h) (window buf cap (wrap cap (h + 1)) n)

  pub length-window :
      (buf : List T) (cap h n : ℕ) → cap ≤ length buf → h < cap → length (window buf cap h n) ≡ n
  length-window buf cap h zero l k = refl
  length-window buf cap h (suc n) l k =
      let (x, e) = get_elem?-eq-some buf h (omega arith) in
      rw e (ap suc (length-window buf cap (wrap cap (h + 1)) n l (ground arith)))

  pub window_of_ne_zero :
      (buf : List T) (cap h n : ℕ)
      → n ≢ 0
      → window buf cap h n ≡ cons? (get_elem? buf h) (window buf cap (wrap cap (h + 1)) (n - 1))
  window_of_ne_zero buf cap h zero p = absurd (p refl)
  window_of_ne_zero buf cap h (suc n) p = ap (λ k. window buf cap h (suc k)) (omega arith)

  -- A write outside a window leaves it.
  pub window-set_outside :
      (buf : List T) (v : T) (cap n m h i : ℕ)
      → h < cap
      → n ≤ m
      → m < cap
      → i ≡ wrap cap (h + m)
      → window (set buf i v) cap h n ≡ window buf cap h n
  window-set_outside buf v cap zero m h i hh hn hm e = refl
  window-set_outside buf v cap (suc n) zero h i hh hn hm e = absurd (omega arith)
  window-set_outside buf v cap (suc n) (suc m) h i hh hn hm e =
      ap₂ cons? (get_elem?-set_ne buf v (ground arith)) (
        window-set_outside buf v cap n m (wrap cap (h + 1)) i (ground arith) (omega arith)
          (omega arith) (ground arith))

  -- A write just past a window extends it by that element.
  pub window-set :
      (buf : List T) (v : T) (cap n h i : ℕ)
      → cap ≤ length buf
      → h < cap
      → n < cap
      → i ≡ wrap cap (h + n)
      → window (set buf i v) cap h (suc n) ≡ window buf cap h n ++ (v ∷ [])
  window-set buf v cap zero h i l hh hn e =
      let e' : i ≡ h = ground arith in rw (e', get_elem?-set_self buf h v (omega arith))
  window-set buf v cap (suc n) h i l hh hn e =
      let (x, p) = get_elem?-eq-some buf h (omega arith) in
      let ne : i ≢ h = ground arith in
      rw (get_elem?-set_ne buf v ne, p)
        (ap (λ q. x ∷ q)
          (window-set buf v cap n (wrap cap (h + 1)) i l (ground arith) (omega arith)
            (ground arith)))
