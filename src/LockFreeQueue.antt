-- ===== src/LockFreeQueue.antt =====
-- src/main/cpp/it/d4np/util/lock_free_queue.hpp: `LockFreeQueue`. A call of `try_push` or `try_pop` is cut
-- at its accesses to what the threads share: each load, compare-and-exchange, payload access and store
-- is one step, and a `Call` is where the thread stands between two of them. A call that has returned
-- keeps its ticket, which no code reads.
pub mod System
mod Capacity
mod Index
mod Slots
mod Calls
mod Frames
mod Owners
mod Holders
mod Tickets
mod Inv
mod Keeps
mod Accesses
mod Writes
mod Steps
mod Reached
mod Fifo
mod Returns
mod Tests
use Prim.Native.Nat.{bit_and}
use egl_utils_cpp.Prelude.{
  ℕ, zero, suc, ◌+◌, ◌-◌, ◌*◌, ◌^◌, Bool, true, false, not, ◌&&◌, ◌||◌, Option, none, some, List,
  [], ◌∷◌, length, get_elem?, set, ◌==◌, ltb, leb, if◌then◌else◌, add_size, sub_size,
}

pub record Slot (A : Type 0) : Type 0 where
  pub sequence : ℕ
  pub value : Option A

pub record LockFreeQueue (A : Type 0) : Type 0 where
  pub slots : List (Slot A)
  pub mask : ℕ
  pub enqueue_pos : ℕ
  pub dequeue_pos : ℕ

-- `std::bit_ceil`: the least power of two that is not less, of which there are 64.
unfoldable pub bit_ceil_from : ℕ → ℕ → ℕ → ℕ
bit_ceil_from zero power n = power
bit_ceil_from (suc fuel) power n = elim (leb n power) [
  | true ↦ power
  | false ↦ bit_ceil_from fuel (2 * power) n
]

unfoldable pub bit_ceil : ℕ → ℕ
unfolding bit_ceil_from
bit_ceil n = bit_ceil_from 63 1 n

-- Absent where it throws `std::invalid_argument`.
unfoldable pub rounded_capacity : ℕ → Option ℕ
rounded_capacity min_capacity =
    if min_capacity == 0 || ltb (2 ^ 63) min_capacity then none else some (bit_ceil min_capacity)

-- The slots from `i` on, of which there are `n`.
unfoldable pub fresh_slots : {A : Type 0} → ℕ → ℕ → List (Slot A)
fresh_slots i zero = []
fresh_slots i (suc n) = record { sequence = i; value = none } ∷ fresh_slots (suc i) n

-- The constructor, for a capacity that `rounded_capacity` gave.
unfoldable pub fresh : {A : Type 0} → ℕ → LockFreeQueue A
unfolding fresh_slots
fresh size = record {
  slots = fresh_slots 0 size;
  mask = sub_size size 1;
  enqueue_pos = 0;
  dequeue_pos = 0;
}

unfoldable pub create : {A : Type 0} → ℕ → Option (LockFreeQueue A)
create min_capacity = elim (rounded_capacity min_capacity) [
  | none ↦ none
  | some size ↦ some (fresh size)
]

-- `static_cast<std::ptrdiff_t>(seq - pos)`, by its sign.
pub data Gap : Type 0 where
  vanishing negative positive : Gap

unfoldable pub gap : ℕ → ℕ → Gap
gap seq pos =
    if sub_size seq pos == 0
    then vanishing
    else if ltb (sub_size seq pos) (2 ^ 63)
    then positive
    else negative

pub data Call (A : Type 0) : Type 0 where
  -- `try_push(value)`, in front of the load of `enqueue_pos_`
  push_loads : A → Call A
  -- in front of the load of the sequence of the slot of `pos`
  push_looks : A → ℕ → Call A
  -- in front of the compare-and-exchange
  push_claims : A → ℕ → Call A
  push_writes : A → ℕ → Call A
  push_publishes : ℕ → Call A
  -- returned true, or false
  pushed : ℕ → Call A
  refused : Call A
  -- `try_pop()`, in the same places
  pop_loads : Call A
  pop_looks : ℕ → Call A
  pop_claims : ℕ → Call A
  pop_takes : ℕ → Call A
  pop_releases : ℕ → Option A → Call A
  -- returned the element, or `std::nullopt`
  popped : ℕ → Option A → Call A
  found_empty : Call A

module _ {A : Type 0} where
  abbrev pub capacity : LockFreeQueue A → ℕ
  capacity q = add_size q.mask 1

  -- `slots_[pos & mask_]`
  unfoldable pub slot_at : LockFreeQueue A → ℕ → Option (Slot A)
  slot_at q pos = get_elem? q.slots (bit_and pos q.mask)

  unfoldable pub store_slot : LockFreeQueue A → ℕ → Slot A → LockFreeQueue A
  store_slot q pos slot = record q { slots = set q.slots (bit_and pos q.mask) slot }

  -- A compare-and-exchange may fail for no reason; it loads the counter where it fails.
  unfoldable pub claim_push : Bool → A → ℕ → LockFreeQueue A → Call A × LockFreeQueue A
  claim_push spurious value pos q =
      if not spurious && q.enqueue_pos == pos
      then (push_writes value pos, record q { enqueue_pos = add_size pos 1 })
      else (push_looks value q.enqueue_pos, q)

  unfoldable pub claim_pop : Bool → ℕ → LockFreeQueue A → Call A × LockFreeQueue A
  claim_pop spurious pos q =
      if not spurious && q.dequeue_pos == pos
      then (pop_takes pos, record q { dequeue_pos = add_size pos 1 })
      else (pop_looks q.dequeue_pos, q)

  unfoldable pub push_by : A → ℕ → Gap → Call A
  push_by value pos vanishing = push_claims value pos
  push_by value pos negative = refused
  push_by value pos positive = push_loads value

  unfoldable pub pop_by : ℕ → Gap → Call A
  pop_by pos vanishing = pop_claims pos
  pop_by pos negative = found_empty
  pop_by pos positive = pop_loads

  -- The accesses to a slot.
  unfoldable pub on_slot : Call A → LockFreeQueue A → Slot A → Call A × LockFreeQueue A
  unfolding gap push_by pop_by store_slot
  on_slot (push_looks value pos) q slot = (push_by value pos (gap slot.sequence pos), q)
  on_slot (push_writes value pos) q slot =
      (push_publishes pos, store_slot q pos (record slot { value = some value }))
  on_slot (push_publishes pos) q slot =
      (pushed pos, store_slot q pos (record slot { sequence = add_size pos 1 }))
  on_slot (pop_looks pos) q slot = (pop_by pos (gap slot.sequence (add_size pos 1)), q)
  on_slot (pop_takes pos) q slot =
      (pop_releases pos slot.value, store_slot q pos (record slot { value = none }))
  on_slot (pop_releases pos result) q slot = (
    popped pos result,
    store_slot q pos (record slot { sequence = add_size (add_size pos q.mask) 1 }),
  )
  on_slot c q slot = (c, q)

  unfoldable pub at_slot : Call A → ℕ → LockFreeQueue A → Option (Call A × LockFreeQueue A)
  unfolding slot_at on_slot
  at_slot c pos q = elim (slot_at q pos) [ none ↦ none | some slot ↦ some (on_slot c q slot) ]

  -- One step of a call; absent where it is at a slot that the vector does not have.
  unfoldable pub advance : Bool → Call A → LockFreeQueue A → Option (Call A × LockFreeQueue A)
  unfolding claim_push claim_pop at_slot
  advance spurious (push_loads value) q = some (push_looks value q.enqueue_pos, q)
  advance spurious (push_looks value pos) q = at_slot (push_looks value pos) pos q
  advance spurious (push_claims value pos) q = some (claim_push spurious value pos q)
  advance spurious (push_writes value pos) q = at_slot (push_writes value pos) pos q
  advance spurious (push_publishes pos) q = at_slot (push_publishes pos) pos q
  advance spurious pop_loads q = some (pop_looks q.dequeue_pos, q)
  advance spurious (pop_looks pos) q = at_slot (pop_looks pos) pos q
  advance spurious (pop_claims pos) q = some (claim_pop spurious pos q)
  advance spurious (pop_takes pos) q = at_slot (pop_takes pos) pos q
  advance spurious (pop_releases pos result) q = at_slot (pop_releases pos result) pos q
  advance spurious c q = some (c, q)
