-- ===== src/LockFreeQueue/Calls.antt =====
-- lock_free_queue.hpp: what holds of a call between two of its steps, and which changes of the
-- queue keep it.
use egl_utils_cpp.Prelude.{
  ℕ, suc, ◌+◌, ◌%◌, ◌≤◌, ◌<◌, ◌≡◌, ◌≢◌, Option, none, some, List, length, get_elem?,
}
use egl_utils_cpp.LockFreeQueue.{
  Slot, Call, push_loads, push_looks, push_claims, push_writes, push_publishes, pushed, refused,
  pop_loads, pop_looks, pop_claims, pop_takes, pop_releases, popped, found_empty,
}

-- The ticket that a call has claimed.
abbrev pub push_ticket : {A : Type 0} → Call A → Option ℕ
push_ticket (push_writes value pos) = some pos
push_ticket (push_publishes pos) = some pos
push_ticket (pushed pos) = some pos
push_ticket _ = none

abbrev pub pop_ticket : {A : Type 0} → Call A → Option ℕ
pop_ticket (pop_takes pos) = some pos
pop_ticket (pop_releases pos result) = some pos
pop_ticket (popped pos result) = some pos
pop_ticket _ = none

module _ {A : Type 0} (n : ℕ) where
  -- The slot of ticket `pos` has this sequence and value.
  abbrev pub Holds : List (Slot A) → ℕ → ℕ → Option A → Type 0
  Holds slots pos s v = get_elem? slots (pos % n) ≡ some (record { sequence = s; value = v })

  abbrev pub Above : List (Slot A) → ℕ → ℕ → Type 0
  Above slots pos bound = (x : Slot A) → get_elem? slots (pos % n) ≡ some x → bound ≤ x.sequence

  -- Where the values of `claimed` have tickets and `d` tickets of consumers are claimed.
  abbrev pub CallState : ℕ → List A → List (Slot A) → Call A → Type 0
  CallState d claimed slots (push_loads value) = Unit {0}
  CallState d claimed slots (push_looks value pos) = pos ≤ length claimed
  CallState d claimed slots (push_claims value pos) =
      (pos ≤ length claimed) × (length claimed ≤ pos → (v : Option A) × Holds slots pos pos v)
  CallState d claimed slots (push_writes value pos) =
      (pos < length claimed) × (get_elem? claimed pos ≡ some value) × Holds slots pos pos none
  CallState d claimed slots (push_publishes pos) =
      (pos < length claimed) × Holds slots pos pos (get_elem? claimed pos)
  CallState d claimed slots (pushed pos) = (pos < length claimed) × Above slots pos (suc pos)
  CallState d claimed slots refused = Unit {0}
  CallState d claimed slots pop_loads = Unit {0}
  CallState d claimed slots (pop_looks pos) = pos ≤ d
  CallState d claimed slots (pop_claims pos) =
      (pos ≤ d) × (d ≤ pos → (v : Option A) × Holds slots pos (suc pos) v)
  CallState d claimed slots (pop_takes pos) =
      (pos < d) × (pos < length claimed) × Holds slots pos (suc pos) (get_elem? claimed pos)
  CallState d claimed slots (pop_releases pos result) =
      (pos < d)
      × (pos < length claimed)
      × (result ≡ get_elem? claimed pos)
      × Holds slots pos (suc pos) none
  CallState d claimed slots (popped pos result) =
      (pos < d)
      × (pos < length claimed)
      × (result ≡ get_elem? claimed pos)
      × Above slots pos (pos + n)
  CallState d claimed slots found_empty = Unit {0}

  -- The call relies on no slot at index `i`.
  abbrev pub Spares : ℕ → ℕ → List A → Call A → Type 0
  Spares i d claimed (push_claims value pos) = length claimed ≤ pos → i ≢ pos % n
  Spares i d claimed (push_writes value pos) = i ≢ pos % n
  Spares i d claimed (push_publishes pos) = i ≢ pos % n
  Spares i d claimed (pop_claims pos) = d ≤ pos → i ≢ pos % n
  Spares i d claimed (pop_takes pos) = i ≢ pos % n
  Spares i d claimed (pop_releases pos result) = i ≢ pos % n
  Spares i d claimed _ = Unit {0}
