-- ===== src/StackAllocator/Safety.antt =====
-- The blocks that are held never overlap.
use egl_utils_cpp.Prelude.{
  ℕ, zero, suc, ◌+◌, ◌%◌, ◌≤◌, ◌<◌, ◌≡◌, refl, ap, subst, some, List, [], ◌∷◌, get_elem?, leb,
  leb→le, Bool-cases, Option-cases, inl, inr, arith,
}
use egl_utils_cpp.StackAllocator.{allocate, create}
use egl_utils_cpp.StackAllocator.Fit.{IsRoom, taken, allocate-IsRoom}
use egl_utils_cpp.StackAllocator.World.{
  Block, World, Action, allocating, rewinding, resetting, keep_below, act, act_all, IsAllowed,
  AreAllowed,
}

-- The blocks lie below `top`, each below the one before it, and not below `base`.
abbrev AreStacked : ℕ → ℕ → List Block → Type 0
AreStacked base top [] = base ≤ top
AreStacked base top (b ∷ bs) =
    (b.start + b.bytes ≤ top) × (b.start % b.alignment ≡ 0) × AreStacked base b.start bs

record IsGood (base capacity : ℕ) (w : World) : Type 0 where
  at : w.allocator.base ≡ base
  size : w.allocator.capacity ≡ capacity
  bound : w.allocator.offset ≤ capacity
  stacked : AreStacked base (base + w.allocator.offset) w.held

AreStacked-base_le : (base top : ℕ) (bs : List Block) → AreStacked base top bs → base ≤ top
AreStacked-base_le base top [] h = h
AreStacked-base_le base top (b ∷ bs) (ends, aligned, h) =
    let low = AreStacked-base_le base b.start bs h in omega arith

raise_top :
    (base top top' : ℕ) (bs : List Block)
    → top ≤ top'
    → AreStacked base top bs
    → AreStacked base top' bs
raise_top base top top' [] up h = omega arith
raise_top base top top' (b ∷ bs) up (ends, aligned, h) = (omega arith, aligned, h)

keep_below-AreStacked :
    (base top end : ℕ) (bs : List Block)
    → base ≤ end
    → AreStacked base top bs
    → AreStacked base end (keep_below end bs)
keep_below-AreStacked base top end [] low h = low
keep_below-AreStacked base top end (b ∷ bs) low (ends, aligned, h) =
    elim (Bool-cases (leb (b.start + b.bytes) end)) [
      | inl e ↦ rw e (leb→le (b.start + b.bytes) end e, aligned, h)
      | inr e ↦ rw e (keep_below-AreStacked base b.start end bs low h)
    ]

block_added :
    (base capacity : ℕ) (w : World) (bytes alignment place : ℕ)
    → IsGood base capacity w
    → IsRoom w.allocator bytes alignment place
    → IsGood base capacity (record {
      allocator = taken w.allocator place bytes;
      held = record { start = place; bytes = bytes; alignment = alignment } ∷ w.held;
    })
block_added base capacity w bytes alignment place g room =
    let at = g.at in
    let size = g.size in
    let free = room.free in
    let ends = room.ends in
    let lower : AreStacked base place w.held =
      raise_top base (base + w.allocator.offset) place w.held (omega arith) g.stacked in
    record {
      at = at;
      size = size;
      bound = omega arith;
      stacked = (omega arith, room.aligned, lower);
    }

act-IsGood :
    (base capacity : ℕ) (x : Action) (w : World)
    → IsAllowed x w
    → IsGood base capacity w
    → IsGood base capacity (act x w)
unfolding act
act-IsGood base capacity (allocating bytes alignment) w ok g =
    elim (Option-cases (allocate w.allocator bytes alignment)) [
      | inl e ↦ rw (act, e) g
      | inr ((place, s), e) ↦
          let fits = g.bound in
          let (room, after) = allocate-IsRoom w.allocator bytes alignment (rw g.size fits) ok e in
          rw (act, e, after) (block_added base capacity w bytes alignment place g room)
    ]
act-IsGood base capacity (rewinding marker) w ok g = record {
  at = g.at;
  size = g.size;
  bound = omega (arith, g.bound);
  stacked =
      let at = g.at in
      let e : w.allocator.base + marker ≡ base + marker = omega arith in
      let kept =
        keep_below-AreStacked base (base + w.allocator.offset) (w.allocator.base + marker) w.held
          (omega arith) g.stacked in
      subst (λ top. AreStacked base top (keep_below (w.allocator.base + marker) w.held)) e kept;
}
act-IsGood base capacity resetting w ok g = record {
  at = g.at;
  size = g.size;
  bound = omega arith;
  stacked = omega arith;
}

act_all-IsGood :
    (base capacity : ℕ) (xs : List Action) (w : World)
    → AreAllowed xs w
    → IsGood base capacity w
    → IsGood base capacity (act_all xs w)
unfolding act_all
act_all-IsGood base capacity [] w ok g = g
act_all-IsGood base capacity (x ∷ xs) w (first, ok) g =
    act_all-IsGood base capacity xs (act x w) ok (act-IsGood base capacity x w first g)

-- A held block lies in the buffer and is aligned.
block_inside :
    (base top i : ℕ) (bs : List Block) {b : Block}
    → AreStacked base top bs
    → get_elem? bs i ≡ some b
    → (base ≤ b.start) × (b.start + b.bytes ≤ top) × (b.start % b.alignment ≡ 0)
block_inside base top i [] h at = absurd (let e = at in cc)
block_inside base top zero (b ∷ bs) {b = c} (ends, aligned, h) at =
    let same : b ≡ c = cc in rw (← same) (AreStacked-base_le base b.start bs h, ends, aligned)
block_inside base top (suc i) (b ∷ bs) (ends, aligned, h) at =
    let (low, high, even) = block_inside base b.start i bs h at in (low, omega arith, even)

older_below :
    (base top i j : ℕ) (bs : List Block) {b c : Block}
    → AreStacked base top bs
    → get_elem? bs i ≡ some b
    → get_elem? bs j ≡ some c
    → i < j
    → c.start + c.bytes ≤ b.start
older_below base top i j [] h at at' lt = absurd (let e = at in cc)
older_below base top i zero (x ∷ bs) h at at' lt = absurd (omega arith)
older_below base top zero (suc j) (x ∷ bs) {b = b} (ends, aligned, h) at at' lt =
    let same : x ≡ b = cc in
    let start : x.start ≡ b.start = ap (λ y. y.start) same in
    let (low, high, even) = block_inside base x.start j bs h at' in omega arith
older_below base top (suc i) (suc j) (x ∷ bs) (ends, aligned, h) at at' lt =
    older_below base x.start i j bs h at at' (omega arith)

-- After any sequence of allocations with alignments that are not zero, rewinds to marks not above the
-- offset, and resets, from an empty allocator: the newer of two blocks that are still held lies
-- behind the older one, and both lie in the buffer and are aligned.
pub held_disjoint :
    (base capacity : ℕ) (xs : List Action) (i j : ℕ) {newer older : Block}
    → AreAllowed xs (record { allocator = create base capacity; held = [] })
    → get_elem? (act_all xs (record { allocator = create base capacity; held = [] })).held i
      ≡ some newer
    → get_elem? (act_all xs (record { allocator = create base capacity; held = [] })).held j
      ≡ some older
    → i < j
    → (base ≤ older.start)
      × (older.start + older.bytes ≤ newer.start)
      × (newer.start + newer.bytes ≤ base + capacity)
      × (newer.start % newer.alignment ≡ 0)
      × (older.start % older.alignment ≡ 0)
held_disjoint base capacity xs i j ok at at' lt =
    let w = act_all xs (record { allocator = create base capacity; held = [] }) in
    let start : IsGood base capacity (record { allocator = create base capacity; held = [] }) =
      record { at = refl; size = refl; bound = omega arith; stacked = omega arith } in
    let good =
      act_all-IsGood base capacity xs (record { allocator = create base capacity; held = [] }) ok
        start in
    let top = base + w.allocator.offset in
    let bound = good.bound in
    let (low, high, even) = block_inside base top i w.held good.stacked at in
    let (low', high', even') = block_inside base top j w.held good.stacked at' in
    (low', older_below base top i j w.held good.stacked at at' lt, omega arith, even, even')
