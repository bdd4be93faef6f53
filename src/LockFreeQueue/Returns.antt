-- ===== src/LockFreeQueue/Returns.antt =====
-- lock_free_queue.hpp: when `try_push` returns false and `try_pop` returns `std::nullopt`.
use egl_utils_cpp.Prelude.{
  ℕ, suc, ◌+◌, ◌%◌, ◌^◌, ◌≤◌, ◌<◌, ◌≡◌, refl, sym, ◌∙◌, ap, ◌⊎◌, inl, inr, Bool, Option, some,
  some-injective, List, length, get_elem?, add_size, arith, lt_cases,
}
use egl_utils_cpp.LockFreeQueue.{
  LockFreeQueue, Gap, vanishing, negative, positive, gap, Call, push_looks, refused, pop_looks,
  found_empty, push_by, pop_by, on_slot, advance,
}
use egl_utils_cpp.LockFreeQueue.System.{System, start, Reach}
use egl_utils_cpp.LockFreeQueue.Index.{lap_apart, gap_negative}
use egl_utils_cpp.LockFreeQueue.Slots.{SlotState, vacant, full}
use egl_utils_cpp.LockFreeQueue.Holders.{
  IsPushing, IsPopping, push_holder_passed, pop_holder_passed,
}
use egl_utils_cpp.LockFreeQueue.Keeps.{there_is, sequence_bound, at_slot-on_slot}
use egl_utils_cpp.LockFreeQueue.Reached.{Reach-Inv}

module _ {A : Type 0} where
  push_by-refused : (a : A) (pos : ℕ) (g : Gap) → push_by a pos g ≡ refused → g ≡ negative
  unfolding push_by
  push_by-refused a pos vanishing e = cc
  push_by-refused a pos negative e = refl
  push_by-refused a pos positive e = cc

pop_by-found_empty :
    (A : Type 0) (pos : ℕ) (g : Gap) → pop_by {A = A} pos g ≡ found_empty → g ≡ negative
unfolding pop_by
pop_by-found_empty A pos vanishing e = cc
pop_by-found_empty A pos negative e = refl
pop_by-found_empty A pos positive e = cc

-- A slot behind the ticket of a producer is full, and all others are, or its consumer is at it.
behind_push :
    {A : Type 0} (n d : ℕ) (claimed : List A) (pos t : ℕ) (w : Option A)
    → 2 ≤ n
    → pos ≤ length claimed
    → length claimed ≤ d + n
    → t < pos
    → SlotState n d claimed (pos % n) t w
    → (length claimed ≡ d + n)
      ⊎ ((q : ℕ) × (q < d) × (t ≡ suc q) × (q + n ≡ length claimed) × (q % n ≡ pos % n))
behind_push n d claimed pos t w two low room past (vacant at_i behind within lap empty) =
    inl (omega (arith, lap_apart n t pos at_i past))
behind_push n d claimed pos t w two low room past (full {p = q} at_i written lap value) =
    let apart = lap_apart n q pos at_i (omega arith) in
    elim (lt_cases q d) [
      | inl taken ↦ inr (q, taken, refl, omega arith, at_i)
      | inr waiting ↦ inl (omega arith)
    ]

-- A slot that is not filled for the ticket of a consumer is vacant, with no producer or one at it.
behind_pop :
    {A : Type 0} (n d : ℕ) (claimed : List A) (pos t : ℕ) (w : Option A)
    → 2 ≤ n
    → pos ≤ d
    → d ≤ length claimed
    → t < suc pos
    → SlotState n d claimed (pos % n) t w
    → (length claimed ≡ d) ⊎ ((t ≡ d) × (pos ≡ d) × (d < length claimed))
behind_pop n d claimed pos t w two low room past (vacant at_i behind within lap empty) =
    elim (lt_cases d (length claimed)) [
      | inl more ↦ inr (omega arith, omega arith, more)
      | inr none_left ↦ inl (omega arith)
    ]
behind_pop n d claimed pos t w two low room past (full {p = q} at_i written lap value) =
    inl (omega (arith, lap_apart n q pos at_i (omega arith)))

module _ {A : Type 0} (k : ℕ) (two : 2 ≤ 2 ^ k) {s : System A} (r : Reach (start (2 ^ k)) s)
    (room : length s.claimed + 2 ^ k < 2 ^ 63) where
  -- In any state that any interleaving of calls reaches on a new queue of capacity 2^k, which is 2 at
  -- least, while the tickets claimed by producers and the slots together are fewer than 2^63: where
  -- try_push returns false, 2^k tickets are claimed by producers and not by consumers, or the slot of the
  -- next ticket still belongs to a try_pop that has not published its vacancy.
  pub refused_full :
      (spurious : Bool) (i : ℕ) (a : A) (pos : ℕ) (q : LockFreeQueue A)
      → get_elem? s.calls i ≡ some (push_looks a pos)
      → advance spurious (push_looks a pos) s.queue ≡ some (refused, q)
      → (length s.claimed ≡ s.queue.dequeue_pos + 2 ^ k)
        ⊎ ((j : ℕ) × (c : Call A) × (p : ℕ) × (get_elem? s.calls j ≡ some c)
            × IsPopping p c
            × (p + 2 ^ k ≡ length s.claimed))
  unfolding advance on_slot
  refused_full spurious i a pos q at e =
      let v = Reach-Inv k two r room in
      let low = v.rules.calls_ok i (push_looks a pos) at in
      let (x, h) = there_is k two s v room i pos in
      let bound = sequence_bound k two s v room i (pos % 2 ^ k) x h in
      let same : push_by a pos (gap x.sequence pos) ≡ refused =
        ap (λ p. p.0)
          (some-injective _ _
            (sym (at_slot-on_slot k two s v room i (push_looks a pos) pos x h) ∙ e)) in
      let past = gap_negative x.sequence pos bound (omega arith) (push_by-refused a pos _ same) in
      elim (behind_push (2 ^ k) s.queue.dequeue_pos s.claimed pos x.sequence x.value two low
        v.rules.within past (v.rules.slots_ok (pos % 2 ^ k) x h)) [
          | inl all ↦ inl all
          | inr (p, taken, is, lap, there) ↦
              let (j, c, at_j, has) = v.rules.held.pop_held p taken in
              elim (pop_holder_passed (2 ^ k) s.queue.dequeue_pos s.claimed s.queue.slots c x has
                (v.rules.calls_ok j c at_j) (ap (get_elem? s.queue.slots) there ∙ h)) [
                  | inl popping ↦ inr (j, c, p, at_j, popping, lap)
                  | inr (_, far) ↦ absurd (omega arith)
                ]
        ]

  -- In any state that any interleaving of calls reaches on a new queue of capacity 2^k, which is 2 at
  -- least, while the tickets claimed by producers and the slots together are fewer than 2^63: where
  -- try_pop returns std::nullopt, consumers have claimed every ticket that producers have, or the slot of
  -- the next ticket still belongs to a try_push that has not published its element.
  pub nothing_there :
      (spurious : Bool) (i pos : ℕ) (q : LockFreeQueue A)
      → get_elem? s.calls i ≡ some (pop_looks pos)
      → advance spurious (pop_looks pos) s.queue ≡ some (found_empty, q)
      → (length s.claimed ≡ s.queue.dequeue_pos)
        ⊎ ((j : ℕ) × (c : Call A) × (get_elem? s.calls j ≡ some c)
            × IsPushing s.queue.dequeue_pos c)
  unfolding advance on_slot
  nothing_there spurious i pos q at e =
      let v = Reach-Inv k two r room in
      let d = s.queue.dequeue_pos in
      let low = v.rules.calls_ok i (pop_looks pos) at in
      let (x, h) = there_is k two s v room i pos in
      let bound = sequence_bound k two s v room i (pos % 2 ^ k) x h in
      let next : add_size pos 1 ≡ suc pos = omega (arith, v.rules.behind) in
      let same : pop_by pos (gap x.sequence (add_size pos 1)) ≡ found_empty =
        ap (λ p. p.0)
          (some-injective _ _
            (sym (at_slot-on_slot k two s v room i (pop_looks pos) pos x h) ∙ e)) in
      let past =
        gap_negative x.sequence (add_size pos 1) bound (omega (arith, v.rules.behind))
          (pop_by-found_empty A pos _ same) in
      elim (behind_pop (2 ^ k) d s.claimed pos x.sequence x.value two low v.rules.behind
        (omega (arith, past, next)) (v.rules.slots_ok (pos % 2 ^ k) x h)) [
          | inl none_left ↦ inl none_left
          | inr (is, here, more) ↦
              let (j, c, at_j, has) = v.rules.held.push_held d more in
              elim (push_holder_passed (2 ^ k) d s.claimed s.queue.slots c x has
                (v.rules.calls_ok j c at_j)
                (ap (λ m. get_elem? s.queue.slots (m % 2 ^ k)) (sym here) ∙ h)) [
                  | inl pushing ↦ inr (j, c, at_j, pushing)
                  | inr far ↦ absurd (omega arith)
                ]
        ]
