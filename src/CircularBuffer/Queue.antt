-- ===== src/CircularBuffer/Queue.antt =====
-- The contract of `CircularBuffer`: a FIFO of at most `cap` elements, oldest first.
use egl_utils_cpp.Prelude.{
  ℕ, Bool, true, false, Option, none, some, List, [], ◌∷◌, ◌++◌, length, ◌==◌, if◌then◌else◌,
}

-- What a client can ask of a buffer, and what it sees of each call.
pub data Op {ℓ} (T : Type ℓ) : Type ℓ where
  push : T → Op T
  overwrite : T → Op T
  take_oldest : Op T
  reset : Op T

pub data Reply {ℓ} (T : Type ℓ) : Type ℓ where
  pushed : Bool → Reply T
  popped : Option T → Reply T
  nothing : Reply T

module _ {ℓ} {T : Type ℓ} where
  unfoldable pub dequeue : List T → Option T × List T
  dequeue [] = (none, [])
  dequeue (x ∷ q) = (some x, q)

  module _ (cap : ℕ) where
    unfoldable pub enqueue : List T → T → Bool × List T
    enqueue q x = if length q == cap then (false, q) else (true, q ++ (x ∷ []))

    -- The newest element always fits: a full queue first loses its oldest.
    unfoldable pub enqueue_dropping : List T → T → List T
    unfolding dequeue
    enqueue_dropping q x = if length q == cap then (dequeue q).1 ++ (x ∷ []) else q ++ (x ∷ [])

    unfoldable pub run : List T → List (Op T) → List (Reply T)
    run q [] = []
    run q (push x ∷ ops) = let (done, q') = enqueue q x in pushed done ∷ run q' ops
    run q (overwrite x ∷ ops) = nothing ∷ run (enqueue_dropping q x) ops
    run q (take_oldest ∷ ops) = let (x, q') = dequeue q in popped x ∷ run q' ops
    run q (reset ∷ ops) = nothing ∷ run [] ops
