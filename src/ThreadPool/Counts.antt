-- ===== src/ThreadPool/Counts.antt =====
-- Tasks are neither lost nor doubled.
use egl_utils_cpp.Prelude.{
  ℕ, Bool, zero, suc, ◌+◌, ◌≡◌, refl, subst, Option, none, some, List, [], ◌∷◌, length,
  if◌then◌else◌, Bool-cases, Option-cases, inl, inr, arith,
}
use egl_utils_cpp.ThreadPool.{QueuedTask, runs_later, pop_from}
use egl_utils_cpp.ThreadPool.System.{take_at}

-- How many tasks of a list pass a test.
unfoldable pub count_of : (QueuedTask → Bool) → List QueuedTask → ℕ
count_of test [] = 0
count_of test (t ∷ ts) = let rest = count_of test ts in if test t then suc rest else rest

abbrev pub one_of : (QueuedTask → Bool) → QueuedTask → ℕ
one_of test t = if test t then 1 else 0

pub count_of-cons :
    (test : QueuedTask → Bool) (t : QueuedTask) (ts : List QueuedTask)
    → count_of test (t ∷ ts) ≡ one_of test t + count_of test ts
unfolding count_of
count_of-cons test t ts = ground arith

pub count_of-nil :
    (test : QueuedTask → Bool) (ts : List QueuedTask) → length ts ≡ 0 → count_of test ts ≡ 0
unfolding count_of
count_of-nil test [] h = refl
count_of-nil test (t ∷ ts) h = absurd (omega arith)

pub count_of-pop_from :
    (test : QueuedTask → Bool) (best : QueuedTask) (xs : List QueuedTask)
    → one_of test (pop_from best xs).0 + count_of test (pop_from best xs).1
      ≡ one_of test best + count_of test xs
unfolding pop_from
count_of-pop_from test best [] = refl
count_of-pop_from test best (x ∷ xs) = elim (Bool-cases (runs_later best x)) [
  | inl e ↦ rw e (
      omega (
        arith,
        count_of-pop_from test x xs,
        count_of-cons test best (pop_from x xs).1,
        count_of-cons test x xs,
      ))
  | inr e ↦ rw e (
      omega (
        arith,
        count_of-pop_from test best xs,
        count_of-cons test x (pop_from best xs).1,
        count_of-cons test x xs,
      ))
]

-- What taking a task out of a list does to the counts.
abbrev pub IsTaken :
    (QueuedTask → Bool) → List QueuedTask → Option (QueuedTask × List QueuedTask) → Type 0
IsTaken test ts none = Unit {0}
IsTaken test ts (some (t, us)) =
    (count_of test ts ≡ one_of test t + count_of test us) × (length ts ≡ 1 + length us)

pub take_at-IsTaken :
    (test : QueuedTask → Bool) (i : ℕ) (ts : List QueuedTask) → IsTaken test ts (take_at i ts)
unfolding take_at
take_at-IsTaken test i [] = tt
take_at-IsTaken test zero (t ∷ ts) = (count_of-cons test t ts, omega arith)
take_at-IsTaken test (suc i) (t ∷ ts) = elim (Option-cases (take_at i ts)) [
  | inl e ↦ rw e tt
  | inr ((u, us), e) ↦
      let (counts, lengths) = subst (IsTaken test ts) e (take_at-IsTaken test i ts) in
      rw e (omega (arith, count_of-cons test t ts, count_of-cons test t us), omega arith)
]
