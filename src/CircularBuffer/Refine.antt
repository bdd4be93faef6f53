-- ===== src/CircularBuffer/Refine.antt =====
-- A valid circular buffer behaves as the bounded queue of the elements that it holds.
use egl_utils_cpp.Prelude.{
  ◌+◌, ◌-◌, ◌≡◌, ◌≢◌, some, List, [], ◌∷◌, ◌++◌, length, get_elem?, set, get_elem?-eq-some,
  length-set, arith, suc, true, ap, add_size, Bool-cases, sub_size, ==_iff, inl, inr, ◌==◌,
}
use egl_utils_cpp.CircularBuffer.{
  CircularBuffer, capacity, advance, tail_index, try_push, push_impl, push_overwrite,
  push_overwrite_impl, move_out, pop,
}
use egl_utils_cpp.CircularBuffer.Inv.{IsValid, wrap, advance-eq-wrap, tail_index-eq-wrap}
use egl_utils_cpp.CircularBuffer.Window.{
  window, length-window, window_of_ne_zero, window-set_outside, window-set,
}
use egl_utils_cpp.CircularBuffer.Queue
use egl_utils_cpp.CircularBuffer.Queue.{Op, push, overwrite, take_oldest, reset}

module _ {ℓ} {T : Type ℓ} where
  -- The elements that the buffer holds, oldest first.
  abbrev pub contents : CircularBuffer T → List T
  contents c = window c.buffer (capacity c) c.head c.count

  pub length-contents : {c : CircularBuffer T} → IsValid c → length (contents c) ≡ c.count
  length-contents {c} v =
      length-window c.buffer (capacity c) c.head c.count (omega arith) (omega arith)

  -- The write that both push policies make while the buffer has room.
  write_tail :
      {c : CircularBuffer T} (x : T)
      → IsValid c
      → c.count ≢ capacity c
      → let buffer = set c.buffer (tail_index (capacity c) c.head c.count) x in
        window buffer (length buffer) c.head (add_size c.count 1) ≡ contents c ++ (x ∷ [])
  write_tail {c} x v ne =
      let next : add_size c.count 1 ≡ suc c.count = omega arith in
      rw (length-set c.buffer (tail_index (capacity c) c.head c.count) x, next)
        (window-set c.buffer x (capacity c) c.count c.head _ (omega arith) (omega arith)
          (omega arith)
          (tail_index-eq-wrap (capacity c) c.head c.count (omega arith) (omega arith)
            (omega arith)))

  -- The write into the oldest slot of a full buffer, which then becomes the newest.
  write_oldest :
      {c : CircularBuffer T} (x : T)
      → IsValid c
      → c.count ≡ capacity c
      → let buffer = set c.buffer c.head x in
        window buffer (length buffer) (advance (capacity c) c.head) c.count
        ≡ (Queue.dequeue (contents c)).1 ++ (x ∷ [])
  unfolding Queue.dequeue
  write_oldest {c} x v full =
      let positive : c.count ≢ 0 = omega arith in
      let (y, e) = get_elem?-eq-some c.buffer c.head (omega arith) in
      let next : c.count ≡ suc (c.count - 1) = omega arith in
      let same : suc (c.count - 1) - 1 ≡ c.count - 1 = omega arith in
      rw (window_of_ne_zero c.buffer (capacity c) c.head c.count positive, e)
        (rw
          (
            length-set c.buffer c.head x,
            advance-eq-wrap (capacity c) c.head v.small v.head_in,
            next,
          )
          (rw same (
            window-set c.buffer x (capacity c) (c.count - 1) (wrap (capacity c) (c.head + 1)) c.head
              (omega arith) (ground arith) (omega arith) (ground arith))))

  -- `try_push` answers as the bounded queue does, and leaves the buffer holding that queue.
  pub try_push_refines :
      {c : CircularBuffer T} (x : T)
      → IsValid c
      → let (done, c') = try_push c x in
        (done, contents c') ≡ Queue.enqueue (capacity c) (contents c) x
  unfolding push_impl Queue.enqueue
  try_push_refines {c} x v = elim (Bool-cases (c.count == capacity c)) [
    | inl full ↦ rw (length-contents v, full)
    | inr free ↦ rw (length-contents v, free) (ap (λ q. (true, q)) (write_tail x v (ground arith)))
  ]

  pub push_overwrite_refines :
      {c : CircularBuffer T} (x : T)
      → IsValid c
      → contents (push_overwrite c x) ≡ Queue.enqueue_dropping (capacity c) (contents c) x
  unfolding push_overwrite_impl Queue.enqueue_dropping
  push_overwrite_refines {c} x v = elim (Bool-cases (c.count == capacity c)) [
    | inl full ↦ rw (length-contents v, full) (write_oldest x v (ground arith))
    | inr free ↦ rw (length-contents v, free) (write_tail x v (ground arith))
  ]

  pop_some :
      (moved : T → T) {c : CircularBuffer T}
      → IsValid c
      → c.count ≢ 0
      → let oldest = get_elem? c.buffer c.head in
        let buffer = move_out moved oldest c.buffer c.head in
        (oldest, window buffer (length buffer) (advance (capacity c) c.head) (sub_size c.count 1))
        ≡ Queue.dequeue (contents c)
  unfolding move_out Queue.dequeue
  pop_some moved {c} v positive =
      let (y, e) = get_elem?-eq-some c.buffer c.head (omega arith) in
      let fewer : sub_size c.count 1 ≡ c.count - 1 = omega arith in
      rw (window_of_ne_zero c.buffer (capacity c) c.head c.count positive, e)
        (rw
          (
            length-set c.buffer c.head (moved y),
            advance-eq-wrap (capacity c) c.head v.small v.head_in,
            fewer,
          )
          (ap (λ q. (some y, q))
            (window-set_outside c.buffer (moved y) (capacity c) (c.count - 1) (capacity c - 1)
              (wrap (capacity c) (c.head + 1)) c.head (ground arith) (omega arith) (omega arith)
              (ground arith))))

  -- `pop` returns the oldest element, and leaves the rest, whatever the move leaves in the slot.
  pub pop_refines :
      (moved : T → T) {c : CircularBuffer T}
      → IsValid c
      → let (x, c') = pop moved c in (x, contents c') ≡ Queue.dequeue (contents c)
  unfolding pop move_out Queue.dequeue
  pop_refines moved {c} v = elim (Bool-cases (c.count == 0)) [
    | inl gone ↦ rw (gone, (==_iff c.count 0).0 gone)
    | inr some_left ↦ rw some_left (pop_some moved v (ground arith))
  ]
