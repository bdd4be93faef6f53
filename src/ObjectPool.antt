-- ===== src/ObjectPool.antt =====
-- src/main/cpp/it/d4np/util/object_pool.hpp: `ObjectPool<T>` and its `Handle`. The pool lends slots
-- and never looks at the objects in them, so the storage is its size.
pub mod World
pub mod Counts
pub mod Ownership
pub mod Exclusive
mod Tests
use egl_utils_cpp.Prelude.{
  ℕ, zero, suc, ◌+◌, ◌-◌, Bool, true, false, Option, none, some, List, [], ◌∷◌, get_elem?, set,
  ◌==◌, if◌then◌else◌, sub_size,
}

-- `engaged` is `pool_ != nullptr`.
pub record Handle : Type 0 where
  pub engaged : Bool
  pub index : ℕ

pub record ObjectPool : Type 0 where
  pub capacity : ℕ
  pub free_slots : List ℕ
  pub free_count : ℕ

-- The slots `from`, `from + 1`, …: `init_free_list` writes `i` into slot `i`.
pub slots_from : ℕ → ℕ → List ℕ
slots_from from zero = []
slots_from from (suc n) = from ∷ slots_from (from + 1) n

pub create : ℕ → ObjectPool
create capacity = record {
  capacity = capacity;
  free_slots = slots_from 0 capacity;
  free_count = capacity;
}

-- A slot read outside the vector has no handle; the invariant rules it out.
handle_at : Option ℕ → Option Handle
handle_at none = none
handle_at (some index) = some (record { engaged = true; index = index })

pub try_acquire : ObjectPool → Option Handle × ObjectPool
unfolding handle_at
try_acquire p = if p.free_count == 0 then (none, p) else (
  handle_at (get_elem? p.free_slots (p.free_count - 1)),
  record p { free_count = p.free_count - 1 },
)

abbrev pub available : ObjectPool → ℕ
available p = p.free_count

abbrev pub in_use : ObjectPool → ℕ
in_use p = sub_size p.capacity p.free_count

-- `++free_count_` stays at most the capacity, so that it cannot wrap.
pub release : ObjectPool → ℕ → ObjectPool
release p index = record p {
  free_slots = set p.free_slots p.free_count index;
  free_count = p.free_count + 1;
}

-- `release_slot`: the pool and the handle afterwards.
pub release_slot : ObjectPool → Handle → ObjectPool × Handle
unfolding release
release_slot p h = if h.engaged then (release p h.index, record h { engaged = false }) else (p, h)

-- `std::exchange(other.pool_, nullptr)`: the other handle afterwards.
abbrev pub disengaged : Handle → Handle
disengaged h = record h { engaged = false }
