-- ===== src/StackAllocator/Tests.antt =====
-- A buffer of 64 bytes at the address 1000.
use egl_utils_cpp.Prelude.{
  ℕ, ◌+◌, ◌%◌, ◌^◌, ◌≤◌, ◌≡◌, refl, none, some, List, [], ◌∷◌, get_elem?, arith,
}
use egl_utils_cpp.StackAllocator.{StackAllocator, create, allocate, allocate_uninitialized}
use egl_utils_cpp.StackAllocator.Fit.{IsRoom, taken, allocate_lowest}
use egl_utils_cpp.StackAllocator.World.{
  Block, World, Action, allocating, rewinding, act, act_all, AreAllowed,
}
use egl_utils_cpp.StackAllocator.Safety.{held_disjoint}

abbrev buffer : StackAllocator
buffer = record (create 1000 64) { offset = 3 }

abbrev block : ℕ → ℕ → ℕ → Block
block start bytes alignment = record { start = start; bytes = bytes; alignment = alignment }

room : IsRoom buffer 8 8 1016
room = record { aligned = refl; free = omega arith; ends = omega arith }

allocate_lowest_example :
    (place : ℕ) × (allocate buffer 8 8 ≡ some (place, taken buffer place 8))
    × IsRoom buffer 8 8 place
    × (place ≤ 1016)
allocate_lowest_example = allocate_lowest buffer 8 8 1016 (omega arith) (omega arith) room

full : allocate buffer 62 1 ≡ none
unfolding allocate
full = refl

two_of_four : allocate_uninitialized buffer 4 4 2 ≡ some (1004, taken buffer 1004 8)
unfolding allocate_uninitialized
two_of_four = refl

-- 2^61 objects of 8 bytes: the product is 0.
wrapped : allocate_uninitialized buffer 8 8 (2 ^ 61) ≡ some (1008, taken buffer 1008 0)
unfolding allocate_uninitialized
wrapped = refl

abbrev actions : List Action
actions = allocating 3 1 ∷ allocating 40 8 ∷ rewinding 3 ∷ allocating 8 8 ∷ []

abbrev start : World
start = record { allocator = create 1000 64; held = [] }

newer_held : get_elem? (act_all actions start).held 0 ≡ some (block 1008 8 8)
unfolding act_all
newer_held = refl

older_held : get_elem? (act_all actions start).held 1 ≡ some (block 1000 3 1)
unfolding act_all
older_held = refl

allowed : AreAllowed actions start
unfolding act
allowed = (omega arith, (omega arith, (omega arith, (omega arith, tt))))

held_disjoint_example :
    (1000 ≤ 1000) × (1000 + 3 ≤ 1008) × (1008 + 8 ≤ 1000 + 64) × (1008 % 8 ≡ 0) × (1000 % 1 ≡ 0)
held_disjoint_example =
    held_disjoint 1000 64 actions 0 1 {newer = block 1008 8 8} {older = block 1000 3 1} allowed
      newer_held older_held (omega arith)
