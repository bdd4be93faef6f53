-- ===== src/CircularBuffer/Inv.antt =====
-- The representation invariant of `CircularBuffer`: no index arithmetic wraps, and every access
-- is inside the vector.
use egl_utils_cpp.Prelude.{
  ℕ, ◌+◌, ◌-◌, ◌≤◌, ◌<◌, ◌≡◌, Option, none, some, List, length, get_elem?, length-set,
  length-replicate, arith, ltb, if◌then◌else◌, max_size,
}
use egl_utils_cpp.CircularBuffer.{
  CircularBuffer, create, capacity, clear, advance, tail_index, back_index, try_push, push_impl,
  push_overwrite, push_overwrite_impl, move_out, pop,
}

pub record IsValid {ℓ} {T : Type ℓ} (c : CircularBuffer T) : Type 0 where
  pub small : length c.buffer ≤ max_size
  pub head_in : c.head < length c.buffer
  pub count_in : c.count ≤ length c.buffer

-- The index `k` steps round a ring of `cap` slots past `head`.
abbrev pub wrap : ℕ → ℕ → ℕ
wrap cap k = if ltb k cap then k else k - cap

pub advance-eq-wrap :
    (cap head : ℕ) → cap ≤ max_size → head < cap → advance cap head ≡ wrap cap (head + 1)
unfolding advance
advance-eq-wrap cap head h k = ground arith

pub tail_index-eq-wrap :
    (cap head count : ℕ)
    → cap ≤ max_size
    → head < cap
    → count ≤ cap
    → tail_index cap head count ≡ wrap cap (head + count)
unfolding tail_index
tail_index-eq-wrap cap head count h k l = ground arith

pub back_index-eq-wrap :
    (cap head count : ℕ)
    → cap ≤ max_size
    → head < cap
    → 0 < count
    → count ≤ cap
    → back_index cap head count ≡ wrap cap (head + (count - 1))
unfolding back_index
back_index-eq-wrap cap head count h k l m = ground arith

module _ {ℓ} {T : Type ℓ} where
  pub create-IsValid :
      (default : T) (cap : ℕ) → 0 < cap → cap ≤ max_size → IsValid (create default cap)
  unfolding create
  create-IsValid default cap h k = omega (arith, length-replicate cap default)

  pub clear-IsValid : {c : CircularBuffer T} → IsValid c → IsValid (clear c)
  unfolding clear
  clear-IsValid v = omega arith

  pub try_push-IsValid : {c : CircularBuffer T} (x : T) → IsValid c → IsValid (try_push c x).1
  unfolding push_impl tail_index
  try_push-IsValid {c} x v =
      ground (arith, length-set c.buffer (tail_index (capacity c) c.head c.count) x)

  pub push_overwrite-IsValid :
      {c : CircularBuffer T} (x : T) → IsValid c → IsValid (push_overwrite c x)
  unfolding push_overwrite_impl
  push_overwrite-IsValid {c} x v = ground (
    arith,
    length-set c.buffer (tail_index (capacity c) c.head c.count) x,
    length-set c.buffer c.head x,
    advance-eq-wrap (capacity c) c.head,
  )

  length-move_out :
      (moved : T → T) (o : Option T) (xs : List T) (i : ℕ)
      → length (move_out moved o xs i) ≡ length xs
  unfolding move_out
  length-move_out moved none xs i = ground arith
  length-move_out moved (some x) xs i = length-set xs i (moved x)

  pub pop-IsValid : (moved : T → T) {c : CircularBuffer T} → IsValid c → IsValid (pop moved c).1
  unfolding pop
  pop-IsValid moved {c} v = ground (
    arith,
    length-move_out moved (get_elem? c.buffer c.head) c.buffer c.head,
    advance-eq-wrap (capacity c) c.head,
  )

  -- No operation changes the capacity.
  pub capacity-try_push : (c : CircularBuffer T) (x : T) → capacity (try_push c x).1 ≡ capacity c
  unfolding push_impl
  capacity-try_push c x =
      ground (arith, length-set c.buffer (tail_index (capacity c) c.head c.count) x)

  pub capacity-push_overwrite :
      (c : CircularBuffer T) (x : T) → capacity (push_overwrite c x) ≡ capacity c
  unfolding push_overwrite_impl
  capacity-push_overwrite c x = ground (
    arith,
    length-set c.buffer (tail_index (capacity c) c.head c.count) x,
    length-set c.buffer c.head x,
  )

  pub capacity-pop : (moved : T → T) (c : CircularBuffer T) → capacity (pop moved c).1 ≡ capacity c
  unfolding pop
  capacity-pop moved c =
      ground (arith, length-move_out moved (get_elem? c.buffer c.head) c.buffer c.head)
