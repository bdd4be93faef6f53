-- ===== src/LockFreeQueue/Tests.antt =====
-- lock_free_queue.hpp: runs of small queues, one of a single slot among them, and the theorems at
-- concrete states.
use egl_utils_cpp.Prelude.{
  ℕ, zero, suc, ◌+◌, ◌^◌, ◌<◌, ◌≤◌, ◌≡◌, ◌≢◌, ◌⊎◌, refl, subst, some-injective, false, none, some,
  none-ne-some, arith, ◌++◌, List, [], ◌∷◌, get_elem?,
}
use egl_utils_cpp.LockFreeQueue.{
  Call, push_looks, pushed, refused, pop_loads, pop_looks, popped, found_empty, bit_ceil,
  rounded_capacity, create, advance,
}
use egl_utils_cpp.LockFreeQueue.System.{
  System, start, Move, begin_push, begin_pop, run, Reach, run_all, run_all-Reach,
}
use egl_utils_cpp.LockFreeQueue.Calls.{Holds}
use egl_utils_cpp.LockFreeQueue.Holders.{HasReturned, IsPopping, IsPushing}
use egl_utils_cpp.LockFreeQueue.Fifo.{popped_once, contents_at_rest}
use egl_utils_cpp.LockFreeQueue.Returns.{refused_full, nothing_there}

-- A call that steps until it returns, where no other interferes.
abbrev alone : ℕ → List (Move ℕ)
alone i = run false i ∷ run false i ∷ run false i ∷ run false i ∷ run false i ∷ []

abbrev three_pushes : List (Move ℕ)
three_pushes =
    begin_push 7 ∷ (alone 0 ++ (begin_push 8 ∷ (alone 1 ++ (begin_push 9 ∷ run false 2 ∷ []))))

abbrev full : System ℕ
full = record {
  queue = record {
    slots = record { sequence = 1; value = some 7 } ∷ record { sequence = 2; value = some 8 } ∷ [];
    mask = 1;
    enqueue_pos = 2;
    dequeue_pos = 0;
  };
  calls = pushed 0 ∷ pushed 1 ∷ push_looks 9 2 ∷ [];
  claimed = 7 ∷ 8 ∷ [];
}

three_pushes-full : run_all three_pushes (start 2) ≡ some full
unfolding run_all start
three_pushes-full = refl

full-Reach : Reach (start 2) full
full-Reach = run_all-Reach three_pushes (start 2) full three_pushes-full

full-refused : advance false (push_looks 9 2) full.queue ≡ some (refused, full.queue)
unfolding advance
full-refused = refl

-- Two calls of `try_pop` behind two of `try_push`, and a third that finds nothing.
abbrev pops : List (Move ℕ)
pops =
    begin_push 7
    ∷ (alone 0 ++ (begin_push 8 ∷ (alone 1 ++ (begin_pop ∷ (alone 2 ++ (begin_pop ∷ alone 3))))))

abbrev drained : System ℕ
drained = record {
  queue = record {
    slots = record { sequence = 2; value = none } ∷ record { sequence = 3; value = none } ∷ [];
    mask = 1;
    enqueue_pos = 2;
    dequeue_pos = 2;
  };
  calls = pushed 0 ∷ pushed 1 ∷ popped 0 (some 7) ∷ popped 1 (some 8) ∷ [];
  claimed = 7 ∷ 8 ∷ [];
}

pops-drained : run_all pops (start 2) ≡ some drained
unfolding run_all start
pops-drained = refl

drained-Reach : Reach (start 2) drained
drained-Reach = run_all-Reach pops (start 2) drained pops-drained

abbrev looking : System ℕ
looking = record drained {
  calls = pushed 0 ∷ pushed 1 ∷ popped 0 (some 7) ∷ popped 1 (some 8) ∷ pop_looks 2 ∷ [];
}

pops-looking : run_all (pops ++ (begin_pop ∷ run false 4 ∷ [])) (start 2) ≡ some looking
unfolding run_all start
pops-looking = refl

looking-Reach : Reach (start 2) looking
looking-Reach =
    run_all-Reach (pops ++ (begin_pop ∷ run false 4 ∷ [])) (start 2) looking pops-looking

looking-found_empty : advance false (pop_looks 2) looking.queue ≡ some (found_empty, looking.queue)
unfolding advance
looking-found_empty = refl

-- With one slot, the sequence that a producer publishes is the one that the next producer waits for:
-- the second element overwrites the first, which was not delivered.
abbrev overwritten : System ℕ
overwritten = record {
  queue = record {
    slots = record { sequence = 2; value = some 8 } ∷ [];
    mask = 0;
    enqueue_pos = 2;
    dequeue_pos = 0;
  };
  calls = pushed 0 ∷ pushed 1 ∷ [];
  claimed = 7 ∷ 8 ∷ [];
}

single_slot-overwritten :
    run_all (begin_push 7 ∷ (alone 0 ++ (begin_push 8 ∷ alone 1))) (start 1) ≡ some overwritten
unfolding run_all start
single_slot-overwritten = refl

-- ... and a `try_pop` goes round for ever.
single_slot-pop_loads :
    run_all
      (run false 2 ∷ run false 2 ∷ [])
      (record overwritten { calls = overwritten.calls ++ (pop_loads ∷ []) })
    ≡ some (record overwritten { calls = overwritten.calls ++ (pop_loads ∷ []) })
unfolding run_all
single_slot-pop_loads = refl

single_slot-created : create {A = ℕ} 1 ≡ some (start 1).queue
unfolding create rounded_capacity bit_ceil start
single_slot-created = refl

popped_once_example :
    ((x : ℕ) × (some 7 ≡ some x) × (get_elem? drained.claimed 0 ≡ some x))
    × (◌≢◌ {A = ℕ} 0 1 ⊎ ◌≡◌ {A = ℕ} 2 3)
popped_once_example =
    popped_once 1 (omega arith) drained-Reach (omega arith) 2 3 0 1 (some 7) (some 8) refl refl

full-HasReturned : (i : ℕ) (c : Call ℕ) → get_elem? drained.calls i ≡ some c → HasReturned c
full-HasReturned zero c h = subst HasReturned (some-injective (pushed 0) c h) tt
full-HasReturned (suc zero) c h = subst HasReturned (some-injective (pushed 1) c h) tt
full-HasReturned (suc (suc zero)) c h =
    subst HasReturned (some-injective (popped 0 (some 7)) c h) tt
full-HasReturned (suc (suc (suc zero))) c h =
    subst HasReturned (some-injective (popped 1 (some 8)) c h) tt
full-HasReturned (suc (suc (suc (suc i)))) c h = absurd (none-ne-some c h)

contents_at_rest_example :
    ((i : ℕ) × (1 < 2)
      × (get_elem? drained.calls i ≡ some (popped 1 (get_elem? drained.claimed 1))))
    ⊎ ((2 ≤ 1) × Holds 2 drained.queue.slots 1 2 (get_elem? drained.claimed 1))
contents_at_rest_example =
    contents_at_rest 1 (omega arith) drained-Reach (omega arith) full-HasReturned 1 (omega arith)

refused_full_example :
    (2 ≡ 0 + 2 ^ 1)
    ⊎ ((j : ℕ) × (c : Call ℕ) × (p : ℕ) × (get_elem? full.calls j ≡ some c)
        × IsPopping p c
        × (p + 2 ^ 1 ≡ 2))
refused_full_example =
    refused_full 1 (omega arith) full-Reach (omega arith) false 2 9 2 full.queue refl full-refused

nothing_there_example :
    ◌≡◌ {A = ℕ} 2 2
    ⊎ ((j : ℕ) × (c : Call ℕ) × (get_elem? looking.calls j ≡ some c) × IsPushing 2 c)
nothing_there_example =
    nothing_there 1 (omega arith) looking-Reach (omega arith) false 4 2 looking.queue refl
      looking-found_empty
