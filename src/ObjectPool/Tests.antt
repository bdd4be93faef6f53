-- ===== src/ObjectPool/Tests.antt =====
-- Calls on a pool of two slots.
use egl_utils_cpp.Prelude.{
  ℕ, ◌+◌, ◌<◌, ◌≡◌, ◌≢◌, ◌↔◌, refl, true, false, none, List, [], ◌∷◌, arith,
}
use egl_utils_cpp.ObjectPool.{
  create, slots_from, try_acquire, release, release_slot, available, in_use,
}
use egl_utils_cpp.ObjectPool.World.{
  start, Call, acquire, move_construct, move_assign, destroy, call, call_all,
}
use egl_utils_cpp.ObjectPool.Counts.{engaged_count}
use egl_utils_cpp.ObjectPool.Exclusive.{handles_exclusive, pool_counts}

-- Slot 1 moves to a new handle, slot 0 is taken, given back and taken again.
abbrev calls : List Call
calls = acquire ∷ move_construct 0 ∷ acquire ∷ acquire ∷ destroy 2 ∷ acquire ∷ []

lent_slots :
    (call_all calls (start 2)).handles
    ≡ record { engaged = false; index = 1 }
      ∷ record { engaged = true; index = 1 }
      ∷ record { engaged = false; index = 0 }
      ∷ record { engaged = true; index = 0 }
      ∷ []
unfolding call_all call create slots_from try_acquire release release_slot
lent_slots = refl

handles_exclusive_example : (◌≢◌ {A = ℕ} 1 0) × (1 < 2) × (0 < 2)
unfolding call_all call create slots_from try_acquire release release_slot
handles_exclusive_example = handles_exclusive 2 calls 1 3 (omega arith) refl refl refl refl

pool_counts_example :
    let w = call_all calls (start 2) in
    (in_use w.pool ≡ engaged_count w.handles)
    × (available w.pool + engaged_count w.handles ≡ 2)
    × (((try_acquire w.pool).0 ≡ none) ↔ (engaged_count w.handles ≡ 2))
pool_counts_example = pool_counts 2 calls (omega arith)

assign_releases :
    (call_all (acquire ∷ acquire ∷ move_assign 0 1 ∷ []) (start 2)).pool.free_slots ≡ 1 ∷ 1 ∷ []
unfolding call_all call create slots_from try_acquire release release_slot
assign_releases = refl
