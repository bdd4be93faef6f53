-- ===== src/ThreadPool/Order.antt =====
-- The task that a worker takes.
use egl_utils_cpp.Prelude.{
  ℕ, ◌+◌, ◌<◌, ◌≤◌, ◌⊎◌, ◌≡◌, refl, sym, ap, subst, Bool, true, false, not, List, [], ◌∷◌, ltb,
  if◌then◌else◌, Bool-cases, inl, inr, arith,
}
use egl_utils_cpp.Prelude.Int.{ℤ, pos, negsuc}
use egl_utils_cpp.ThreadPool.{
  QueuedTask, lt_int, eq_int, ThreadPool, Found, start, next_task, runs_later, pop_from,
}
use egl_utils_cpp.ThreadPool.Counts.{count_of, one_of, count_of-cons, count_of-pop_from}

-- The order of the integers.
abbrev LtInt : ℤ → ℤ → Type 0
LtInt (pos m) (pos n) = m < n
LtInt (pos m) (negsuc n) = ⊥
LtInt (negsuc m) (pos n) = Unit {0}
LtInt (negsuc m) (negsuc n) = n < m

-- The first place belongs to the higher priority and, among equals, to the lower sequence number.
abbrev pub IsAhead : ℤ → ℕ → ℤ → ℕ → Type 0
IsAhead a l b m = LtInt b a ⊎ ((a ≡ b) × (l ≤ m))

-- The task is ahead of every task of the list.
abbrev pub IsFirst : QueuedTask → List QueuedTask → Type 0
IsFirst t [] = Unit {0}
IsFirst t (x ∷ xs) = IsAhead t.priority t.sequence x.priority x.sequence × IsFirst t xs

-- No task of the list runs before the task, by the comparator of the heap.
abbrev IsSoonest : QueuedTask → List QueuedTask → Type 0
IsSoonest t [] = Unit {0}
IsSoonest t (x ∷ xs) = (runs_later t x ≡ false) × IsSoonest t xs

abbrev later : ℤ → ℕ → ℤ → ℕ → Bool
later a l b m = if not (eq_int a b) then lt_int a b else ltb m l

later_trans :
    (a b c : ℤ) (l m n : ℕ) → later a l b m ≡ false → later b m c n ≡ false → later a l c n ≡ false
later_trans (pos a) (pos b) (pos c) l m n h k = ground arith
later_trans (pos a) (pos b) (negsuc c) l m n h k = ground arith
later_trans (pos a) (negsuc b) (pos c) l m n h k = ground arith
later_trans (pos a) (negsuc b) (negsuc c) l m n h k = ground arith
later_trans (negsuc a) (pos b) (pos c) l m n h k = ground arith
later_trans (negsuc a) (pos b) (negsuc c) l m n h k = ground arith
later_trans (negsuc a) (negsuc b) (pos c) l m n h k = ground arith
later_trans (negsuc a) (negsuc b) (negsuc c) l m n h k = ground arith

later-IsAhead : (a b : ℤ) (l m : ℕ) → later a l b m ≡ false → IsAhead a l b m
later-IsAhead (pos a) (pos b) l m h = ground arith
later-IsAhead (pos a) (negsuc b) l m h = ground arith
later-IsAhead (negsuc a) (pos b) l m h = ground arith
later-IsAhead (negsuc a) (negsuc b) l m h = ground arith

later_asym : (a b : ℤ) (l m : ℕ) → later a l b m ≡ true → later b m a l ≡ false
later_asym (pos a) (pos b) l m h = ground arith
later_asym (pos a) (negsuc b) l m h = ground arith
later_asym (negsuc a) (pos b) l m h = ground arith
later_asym (negsuc a) (negsuc b) l m h = ground arith

runs_later_trans :
    (a b c : QueuedTask) → runs_later a b ≡ false → runs_later b c ≡ false → runs_later a c ≡ false
unfolding runs_later
runs_later_trans a b c h k =
    later_trans a.priority b.priority c.priority a.sequence b.sequence c.sequence h k

runs_later_asym : (a b : QueuedTask) → runs_later a b ≡ true → runs_later b a ≡ false
unfolding runs_later
runs_later_asym a b h = later_asym a.priority b.priority a.sequence b.sequence h

runs_later_irrefl : (a : QueuedTask) → runs_later a a ≡ false
runs_later_irrefl a = elim (Bool-cases (runs_later a a)) [
  | inl e ↦ runs_later_asym a a e
  | inr e ↦ e
]

pop_from-later :
    (best x : QueuedTask) (xs : List QueuedTask)
    → runs_later best x ≡ true
    → pop_from best (x ∷ xs) ≡ ((pop_from x xs).0, best ∷ (pop_from x xs).1)
unfolding pop_from
pop_from-later best x xs e =
    ap
      (λ b. (
        (pop_from (if b then x else best) xs).0,
        (if b then best else x) ∷ (pop_from (if b then x else best) xs).1,
      ))
      e

pop_from-sooner :
    (best x : QueuedTask) (xs : List QueuedTask)
    → runs_later best x ≡ false
    → pop_from best (x ∷ xs) ≡ ((pop_from best xs).0, x ∷ (pop_from best xs).1)
unfolding pop_from
pop_from-sooner best x xs e =
    ap
      (λ b. (
        (pop_from (if b then x else best) xs).0,
        (if b then best else x) ∷ (pop_from (if b then x else best) xs).1,
      ))
      e

-- The task that is popped, and the others: none of these runs before it, nor does `best`.
abbrev pub IsTop : QueuedTask → QueuedTask × List QueuedTask → Type 0
IsTop best (top, rest) = (runs_later top best ≡ false) × IsSoonest top rest

pub pop_from-IsTop : (best : QueuedTask) (xs : List QueuedTask) → IsTop best (pop_from best xs)
unfolding pop_from
pop_from-IsTop best [] = (runs_later_irrefl best, tt)
pop_from-IsTop best (x ∷ xs) = elim (Bool-cases (runs_later best x)) [
  | inl e ↦
      let (ahead, first) = pop_from-IsTop x xs in
      let old = runs_later_trans (pop_from x xs).0 x best ahead (runs_later_asym best x e) in
      subst (IsTop best) (sym (pop_from-later best x xs e)) (old, (old, first))
  | inr e ↦
      let (ahead, first) = pop_from-IsTop best xs in
      let behind = runs_later_trans (pop_from best xs).0 best x ahead e in
      subst (IsTop best) (sym (pop_from-sooner best x xs e)) (ahead, (behind, first))
]

IsSoonest-IsFirst : (t : QueuedTask) (xs : List QueuedTask) → IsSoonest t xs → IsFirst t xs
unfolding runs_later
IsSoonest-IsFirst t [] h = tt
IsSoonest-IsFirst t (x ∷ xs) (h, more) =
    (later-IsAhead t.priority x.priority t.sequence x.sequence h, IsSoonest-IsFirst t xs more)

abbrev StartsFirst : (QueuedTask → Bool) → List QueuedTask → Found → Type 0
StartsFirst test ts (start t p) =
    IsFirst t p.heap × (count_of test ts ≡ one_of test t + count_of test p.heap)
StartsFirst test ts _ = Unit {0}

next_task-StartsFirst :
    (p : ThreadPool) (test : QueuedTask → Bool) (ts : List QueuedTask)
    → p.heap ≡ ts
    → StartsFirst test ts (next_task p)
unfolding next_task
next_task-StartsFirst p test [] e = elim (Bool-cases p.stopping) [
  | inl b ↦ rw (next_task, e, b) tt
  | inr b ↦ rw (next_task, e, b) tt
]
next_task-StartsFirst p test (x ∷ xs) e =
    let (ahead, first) = pop_from-IsTop x xs in
    let (top, rest) = pop_from x xs in
    let counts = count_of-pop_from test x xs in
    rw (next_task, e)
      (IsSoonest-IsFirst top rest first, omega (arith, count_of-cons test x xs, counts))

-- The task that a worker starts has the highest priority of those that are queued, and the lowest
-- sequence number of those of its priority: each task that stays queued has a lower priority, or the
-- same and no lower sequence number. No other task leaves the queue and none enters it: by any test
-- of a task, the queue held as many that pass as it still holds and the started one makes.
pub next_task-IsFirst :
    (p p' : ThreadPool) (t : QueuedTask) (test : QueuedTask → Bool)
    → next_task p ≡ start t p'
    → IsFirst t p'.heap × (count_of test p.heap ≡ one_of test t + count_of test p'.heap)
next_task-IsFirst p p' t test h =
    subst (StartsFirst test p.heap) h (next_task-StartsFirst p test p.heap refl)
