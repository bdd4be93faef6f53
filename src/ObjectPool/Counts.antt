-- ===== src/ObjectPool/Counts.antt =====
-- How often a slot is on the free list, and how often a handle owns it.
use egl_utils_cpp.Prelude.{
  ℕ, zero, suc, ◌+◌, ◌≡◌, refl, ap, Bool, ◌&&◌, some, List, [], ◌∷◌, ◌++◌, take, get_elem?, set,
  arith, ◌==◌, if◌then◌else◌, ltb, leb,
}
use egl_utils_cpp.ObjectPool.{Handle, slots_from}

abbrev pub one_if : Bool → ℕ
one_if b = if b then 1 else 0

abbrev pub occurrences : ℕ → List ℕ → ℕ
occurrences i [] = 0
occurrences i (j ∷ l) = one_if (i == j) + occurrences i l

abbrev pub owned : ℕ → Handle → ℕ
owned i h = one_if (h.engaged && h.index == i)

abbrev pub lent : ℕ → List Handle → ℕ
lent i [] = 0
lent i (h ∷ l) = owned i h + lent i l

-- The number of engaged handles.
abbrev pub engaged_count : List Handle → ℕ
engaged_count [] = 0
engaged_count (h ∷ l) = one_if h.engaged + engaged_count l

pub lent-append :
    (i : ℕ) (l : List Handle) (h : Handle) → lent i (l ++ (h ∷ [])) ≡ lent i l + owned i h
lent-append i [] h = omega arith
lent-append i (g ∷ l) h = omega (arith, lent-append i l h)

pub engaged_count-append :
    (l : List Handle) (h : Handle)
    → engaged_count (l ++ (h ∷ [])) ≡ engaged_count l + one_if h.engaged
engaged_count-append [] h = omega arith
engaged_count-append (g ∷ l) h = omega (arith, engaged_count-append l h)

pub lent-set :
    (i : ℕ) (l : List Handle) (k : ℕ) (old new : Handle)
    → get_elem? l k ≡ some old
    → lent i (set l k new) + owned i old ≡ lent i l + owned i new
lent-set i [] k old new e = cc
lent-set i (h ∷ l) zero old new e = ground arith
lent-set i (h ∷ l) (suc k) old new e = omega (arith, lent-set i l k old new e)

pub engaged_count-set :
    (l : List Handle) (k : ℕ) (old new : Handle)
    → get_elem? l k ≡ some old
    → engaged_count (set l k new) + one_if old.engaged ≡ engaged_count l + one_if new.engaged
engaged_count-set [] k old new e = cc
engaged_count-set (h ∷ l) zero old new e = ground arith
engaged_count-set (h ∷ l) (suc k) old new e = omega (arith, engaged_count-set l k old new e)

pub occurrences-take-suc :
    (i : ℕ) (l : List ℕ) (n j : ℕ)
    → get_elem? l n ≡ some j
    → occurrences i (take (suc n) l) ≡ occurrences i (take n l) + one_if (i == j)
occurrences-take-suc i [] n j e = cc
occurrences-take-suc i (x ∷ l) zero j e = ground arith
occurrences-take-suc i (x ∷ l) (suc n) j e = omega (arith, occurrences-take-suc i l n j e)

pub take-set : (l : List ℕ) (n v : ℕ) → take n (set l n v) ≡ take n l
take-set [] n v = refl
take-set (x ∷ l) zero v = refl
take-set (x ∷ l) (suc n) v = ap (λ t. x ∷ t) (take-set l n v)

pub occurrences-slots_from :
    (i from n : ℕ) → occurrences i (slots_from from n) ≡ one_if (leb from i && ltb i (from + n))
unfolding slots_from
occurrences-slots_from i from zero = ground arith
occurrences-slots_from i from (suc n) = ground (arith, occurrences-slots_from i (from + 1) n)
