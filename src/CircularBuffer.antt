-- ===== src/CircularBuffer.antt =====
-- src/main/cpp/it/d4np/util/circular_buffer.hpp: `CircularBuffer<T>`, a ring buffer of fixed
-- capacity over one vector. A member that changes the buffer returns the new buffer.
pub mod Queue
pub mod Inv
pub mod Window
pub mod Refine
pub mod Runs
mod Tests
use egl_utils_cpp.Prelude.{
  ℕ, zero, suc, ◌+◌, ◌-◌, Bool, true, false, Option, none, some, List, [], ◌∷◌, length, get_elem?,
  set, replicate, leb, ◌==◌, if◌then◌else◌, add_size, sub_size,
}
use Queue.{Op, push, overwrite, take_oldest, reset, Reply}

pub record CircularBuffer {ℓ} (T : Type ℓ) : Type ℓ where
  pub buffer : List T
  pub head : ℕ
  pub count : ℕ

module _ {ℓ} {T : Type ℓ} where
  -- `default` is the value-initialized `T{}` of the backing slots.
  pub create : T → ℕ → CircularBuffer T
  create default capacity = record { buffer = replicate capacity default; head = 0; count = 0 }

  abbrev pub capacity : CircularBuffer T → ℕ
  capacity c = length c.buffer

  abbrev pub size : CircularBuffer T → ℕ
  size c = c.count

  abbrev pub is_empty : CircularBuffer T → Bool
  is_empty c = c.count == 0

  abbrev pub is_full : CircularBuffer T → Bool
  is_full c = c.count == capacity c

  pub clear : CircularBuffer T → CircularBuffer T
  clear c = record c { head = 0; count = 0 }

-- `advance`, `tail_index` and `back_index` read only the capacity, the head and the count.
pub advance : ℕ → ℕ → ℕ
advance cap index = let next = add_size index 1 in if next == cap then 0 else next

pub tail_index : ℕ → ℕ → ℕ → ℕ
tail_index cap head count =
    let tail = add_size head count in if leb cap tail then sub_size tail cap else tail

pub back_index : ℕ → ℕ → ℕ → ℕ
back_index cap head count =
    let back = sub_size (add_size head count) 1 in if leb cap back then sub_size back cap else back

module _ {ℓ} {T : Type ℓ} where
  -- `T &front()` and `T &back()`: `none` stands for a read outside the vector.
  pub front : CircularBuffer T → Option T
  front c = get_elem? c.buffer c.head

  pub back : CircularBuffer T → Option T
  back c = get_elem? c.buffer (back_index (capacity c) c.head c.count)

  -- A `set` outside the vector changes nothing; the invariant rules it out.
  pub push_impl : CircularBuffer T → T → Bool × CircularBuffer T
  push_impl c value = if is_full c then (false, c) else (
    true,
    record c {
      buffer = set c.buffer (tail_index (capacity c) c.head c.count) value;
      count = add_size c.count 1;
    },
  )

  -- Both overloads of `try_push` forward to `push_impl`.
  abbrev pub try_push : CircularBuffer T → T → Bool × CircularBuffer T
  try_push c value = push_impl c value

  pub push_overwrite_impl : CircularBuffer T → T → CircularBuffer T
  push_overwrite_impl c value =
      if is_full c
      then record c { buffer = set c.buffer c.head value; head = advance (capacity c) c.head }
      else record c {
        buffer = set c.buffer (tail_index (capacity c) c.head c.count) value;
        count = add_size c.count 1;
      }

  abbrev pub push_overwrite : CircularBuffer T → T → CircularBuffer T
  push_overwrite c value = push_overwrite_impl c value

  -- `moved x` is what `std::move` leaves behind of `x` in the slot: the type `T` decides it.
  module _ (moved : T → T) where
    move_out : Option T → List T → ℕ → List T
    move_out none buffer index = buffer
    move_out (some x) buffer index = set buffer index (moved x)

    pub pop : CircularBuffer T → Option T × CircularBuffer T
    unfolding move_out
    pop c = if is_empty c then (none, c) else (
      get_elem? c.buffer c.head,
      record c {
        buffer = move_out (get_elem? c.buffer c.head) c.buffer c.head;
        head = advance (capacity c) c.head;
        count = sub_size c.count 1;
      },
    )

    -- A client's calls in order, with what each returns.
    pub run : CircularBuffer T → List (Op T) → List (Reply T)
    run c [] = []
    run c (push x ∷ ops) = let (done, c') = try_push c x in Reply.pushed done ∷ run c' ops
    run c (overwrite x ∷ ops) = Reply.nothing ∷ run (push_overwrite c x) ops
    run c (take_oldest ∷ ops) = let (x, c') = pop c in Reply.popped x ∷ run c' ops
    run c (reset ∷ ops) = Reply.nothing ∷ run (clear c) ops
