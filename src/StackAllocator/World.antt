-- ===== src/StackAllocator/World.antt =====
-- The allocator with the blocks that its clients hold, the newest first.
use egl_utils_cpp.Prelude.{ℕ, ◌+◌, ◌≤◌, ◌<◌, none, some, List, [], ◌∷◌, leb, if◌then◌else◌}
use egl_utils_cpp.StackAllocator.{StackAllocator, allocate, reset, rewind}

pub record Block : Type 0 where
  pub start : ℕ
  pub bytes : ℕ
  pub alignment : ℕ

pub record World : Type 0 where
  pub allocator : StackAllocator
  pub held : List Block

-- What a client may do: allocate, unwind to a mark, or reclaim all.
pub data Action : Type 0 where
  allocating : ℕ → ℕ → Action
  rewinding : ℕ → Action
  resetting : Action

-- The blocks that end at or below an address: those behind it become invalid.
abbrev pub keep_below : ℕ → List Block → List Block
keep_below end [] = []
keep_below end (b ∷ bs) =
    let rest = keep_below end bs in if leb (b.start + b.bytes) end then b ∷ bs else rest

-- An action, and what becomes of the blocks; an allocation that throws changes nothing.
unfoldable pub act : Action → World → World
unfolding allocate
act (allocating bytes alignment) w = elim (allocate w.allocator bytes alignment) [
  | none ↦ w
  | some (place, s) ↦ record {
    allocator = s;
    held = record { start = place; bytes = bytes; alignment = alignment } ∷ w.held;
  }
]
act (rewinding marker) w = record {
  allocator = rewind w.allocator marker;
  held = keep_below (w.allocator.base + marker) w.held;
}
act resetting w = record { allocator = reset w.allocator; held = [] }

-- A client keeps the rules: alignments are powers of two, of which only that they are not zero is
-- used, and a mark is not above the offset.
abbrev pub IsAllowed : Action → World → Type 0
IsAllowed (allocating bytes alignment) w = 0 < alignment
IsAllowed (rewinding marker) w = marker ≤ w.allocator.offset
IsAllowed resetting w = Unit {0}

unfoldable pub act_all : List Action → World → World
unfolding act
act_all [] w = w
act_all (x ∷ xs) w = act_all xs (act x w)

abbrev pub AreAllowed : List Action → World → Type 0
AreAllowed [] w = Unit {0}
AreAllowed (x ∷ xs) w = IsAllowed x w × AreAllowed xs (act x w)
