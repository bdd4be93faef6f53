-- ===== src/CircularBuffer/Tests.antt =====
-- Runs of `CircularBuffer` at concrete buffers.
use egl_utils_cpp.Prelude.{ℕ, ◌≡◌, refl, true, false, some, none, List, [], ◌∷◌, arith}
use egl_utils_cpp.CircularBuffer.{
  CircularBuffer, create, advance, tail_index, push_impl, push_overwrite_impl, pop, run, clear,
}
use egl_utils_cpp.CircularBuffer.Inv.{IsValid, create-IsValid}
use egl_utils_cpp.CircularBuffer.Refine.{contents}
use egl_utils_cpp.CircularBuffer.Runs.{run_refines}
use egl_utils_cpp.CircularBuffer.Queue
use egl_utils_cpp.CircularBuffer.Queue.{
  Op, push, overwrite, take_oldest, reset, pushed, popped, nothing,
}

-- 8, then 9, round the end of the vector.
abbrev wrapped : CircularBuffer ℕ
wrapped = record { buffer = 9 ∷ 7 ∷ 8 ∷ []; head = 2; count = 2 }

wrapped-IsValid : IsValid wrapped
wrapped-IsValid = omega arith

abbrev moved : ℕ → ℕ
moved x = 0

abbrev script : List (Op ℕ)
script =
    push 1
    ∷ push 2
    ∷ overwrite 3
    ∷ take_oldest
    ∷ take_oldest
    ∷ take_oldest
    ∷ take_oldest
    ∷ push 4
    ∷ reset
    ∷ take_oldest
    ∷ []

contents-wrapped : contents wrapped ≡ 8 ∷ 9 ∷ []
contents-wrapped = refl

run-wrapped :
    run moved wrapped script
    ≡ pushed true
      ∷ pushed false
      ∷ nothing
      ∷ popped (some 9)
      ∷ popped (some 1)
      ∷ popped (some 3)
      ∷ popped none
      ∷ pushed true
      ∷ nothing
      ∷ popped none
      ∷ []
unfolding run push_impl push_overwrite_impl pop clear advance tail_index
run-wrapped = refl

create-IsValid_example : IsValid (create {T = ℕ} 0 3)
create-IsValid_example = create-IsValid 0 3 (omega arith) (omega arith)

run_refines_example : run moved wrapped script ≡ Queue.run 3 (8 ∷ 9 ∷ []) script
run_refines_example = run_refines moved script wrapped-IsValid
