-- ===== src/CircularBuffer/Runs.antt =====
-- What a client of `CircularBuffer` sees: the two ends, and any sequence of calls.
use egl_utils_cpp.Prelude.{
  ℕ, zero, suc, ◌+◌, ◌-◌, ◌≤◌, ◌<◌, ◌≡◌, refl, sym, ◌∙◌, some, ap, List, [], ◌∷◌, length, get_elem?,
  get_elem?-eq-some, arith,
}
use egl_utils_cpp.CircularBuffer.{CircularBuffer, capacity, back_index, front, back, run, clear}
use egl_utils_cpp.CircularBuffer.Inv.{
  IsValid, wrap, back_index-eq-wrap, try_push-IsValid, push_overwrite-IsValid, pop-IsValid,
  clear-IsValid, capacity-try_push, capacity-push_overwrite, capacity-pop,
}
use egl_utils_cpp.CircularBuffer.Window.{window}
use egl_utils_cpp.CircularBuffer.Refine.{
  contents, try_push_refines, push_overwrite_refines, pop_refines,
}
use egl_utils_cpp.CircularBuffer.Queue
use egl_utils_cpp.CircularBuffer.Queue.{Op, push, overwrite, take_oldest, reset}

module _ {ℓ} {T : Type ℓ} where
  get_elem?-window :
      (buf : List T) (cap h n k : ℕ)
      → cap ≤ length buf
      → h < cap
      → n ≤ cap
      → k < n
      → get_elem? (window buf cap h n) k ≡ get_elem? buf (wrap cap (h + k))
  get_elem?-window buf cap h zero k l hh hn hk = absurd (omega arith)
  get_elem?-window buf cap h (suc n) zero l hh hn hk =
      let (x, e) = get_elem?-eq-some buf h (omega arith) in
      let same : wrap cap (h + 0) ≡ h = ground arith in rw (e, same) (sym e)
  get_elem?-window buf cap h (suc n) (suc k) l hh hn hk =
      let (x, e) = get_elem?-eq-some buf h (omega arith) in
      let same : wrap cap (wrap cap (h + 1) + k) ≡ wrap cap (h + suc k) = ground arith in
      rw e (
        get_elem?-window buf cap (wrap cap (h + 1)) n k l (ground arith) (omega arith) (omega arith)
        ∙ ap (get_elem? buf) same)

  -- Of a non-empty valid buffer `front` is the oldest element and `back` the newest, and both are
  -- reads inside the vector.
  pub front-back :
      {c : CircularBuffer T}
      → IsValid c
      → 0 < c.count
      → (front c ≡ get_elem? (contents c) 0)
        × (back c ≡ get_elem? (contents c) (c.count - 1))
        × ((x : T) × (front c ≡ some x))
        × ((x : T) × (back c ≡ some x))
  unfolding front back
  front-back {c} v some_left =
      let newest : back_index (capacity c) c.head c.count
          ≡ wrap (capacity c) (c.head + (c.count - 1)) =
        back_index-eq-wrap (capacity c) c.head c.count v.small v.head_in some_left v.count_in in
      let oldest : wrap (capacity c) (c.head + 0) ≡ c.head = ground arith in
      (
        sym (
            get_elem?-window c.buffer (capacity c) c.head c.count 0 (omega arith) (omega arith)
              (omega arith) (omega arith)
            ∙ ap (get_elem? c.buffer) oldest),
        rw newest (
            sym (
              get_elem?-window c.buffer (capacity c) c.head c.count (c.count - 1) (omega arith)
                (omega arith) (omega arith) (omega arith))),
        get_elem?-eq-some c.buffer c.head (omega arith),
        rw newest (get_elem?-eq-some c.buffer _ (ground arith)),
      )

  -- Any sequence of `try_push`, `push_overwrite`, `pop` and `clear` on a valid buffer returns what
  -- a bounded queue of the same capacity returns that starts with the buffer's contents, whatever a
  -- move leaves behind in a slot.
  pub run_refines :
      (moved : T → T) (ops : List (Op T)) {c : CircularBuffer T}
      → IsValid c
      → run moved c ops ≡ Queue.run (capacity c) (contents c) ops
  unfolding run clear Queue.run
  run_refines moved [] v = refl
  run_refines moved (push x ∷ ops) {c} v =
      rw (
        run_refines moved ops (try_push-IsValid x v),
        ← try_push_refines x v,
        capacity-try_push c x,
      )
  run_refines moved (overwrite x ∷ ops) {c} v = rw (
    run_refines moved ops (push_overwrite-IsValid x v),
    ← push_overwrite_refines x v,
    capacity-push_overwrite c x,
  )
  run_refines moved (take_oldest ∷ ops) {c} v =
      rw (run_refines moved ops (pop-IsValid moved v), ← pop_refines moved v, capacity-pop moved c)
  run_refines moved (reset ∷ ops) {c} v =
      ap (λ r. Queue.nothing ∷ r) (run_refines moved ops (clear-IsValid v))
