-- ===== src/LockFreeQueue/Writes.antt =====
-- lock_free_queue.hpp: the steps of `try_push` and `try_pop` that write to a slot.
use native.Mathlib.Nat.{add-mod_right}
use egl_utils_cpp.Prelude.{
  ℕ, suc, ◌+◌, ◌%◌, ◌^◌, ◌≤◌, ◌<◌, ◌≡◌, ◌≢◌, refl, sym, ◌∙◌, ap, subst, Option, none, some,
  some-injective, length, get_elem?, get_elem?-set_self, get_elem?-in_range, set, add_size, arith,
}
use egl_utils_cpp.LockFreeQueue.{
  Slot, Call, push_writes, push_publishes, pushed, pop_takes, pop_releases, popped, on_slot,
  at_slot,
}
use egl_utils_cpp.LockFreeQueue.System.{System, claims}
use egl_utils_cpp.LockFreeQueue.Slots.{SlotState, vacant, full, vacant_at, full_at}
use egl_utils_cpp.LockFreeQueue.Calls.{push_ticket, pop_ticket, Holds, Spares}
use egl_utils_cpp.LockFreeQueue.Owners.{producer-Spares, consumer-Spares}
use egl_utils_cpp.LockFreeQueue.Keeps.{Inv, Keeps, write-Inv}
use egl_utils_cpp.LockFreeQueue.Accesses.{at_slot-Keeps}

module _ {A : Type 0} (k : ℕ) (two : 2 ≤ 2 ^ k) (s : System A) (v : Inv k s)
    (room : length s.claimed + 2 ^ k < 2 ^ 63) (i : ℕ) where
  abbrev n : ℕ
  n = 2 ^ k

  abbrev d : ℕ
  d = s.queue.dequeue_pos

  abbrev IsAt : Call A → Type 0
  IsAt c = get_elem? s.calls i ≡ some c

  -- No other call relies on the slot of a ticket that this call has claimed.
  spared_push :
      (c : Call A) (pos : ℕ) (w : Option A)
      → IsAt c
      → push_ticket c ≡ some pos
      → pos < length s.claimed
      → Holds n s.queue.slots pos pos w
      → (j : ℕ) (e : Call A) → i ≢ j
      → get_elem? s.calls j ≡ some e
      → Spares n (pos % n) d s.claimed e
  spared_push c pos w at has low held j e away h =
      producer-Spares n d s.claimed s.queue.slots two pos w held low e
        (λ has_e. away (v.rules.held.push_unique i j c e pos at h has has_e))
        (v.rules.calls_ok j e h)

  spared_pop :
      (c : Call A) (pos : ℕ) (w : Option A)
      → IsAt c
      → pop_ticket c ≡ some pos
      → pos < d
      → Holds n s.queue.slots pos (suc pos) w
      → (j : ℕ) (e : Call A) → i ≢ j
      → get_elem? s.calls j ≡ some e
      → Spares n (pos % n) d s.claimed e
  spared_pop c pos w at has low held j e away h =
      consumer-Spares n d s.claimed s.queue.slots two pos w held low e
        (λ has_e. away (v.rules.held.pop_unique i j c e pos at h has has_e))
        (v.rules.calls_ok j e h)

  -- The slot just written.
  written_at :
      (pos : ℕ) (x y : Slot A)
      → get_elem? s.queue.slots (pos % n) ≡ some x
      → get_elem? (set s.queue.slots (pos % n) y) (pos % n) ≡ some y
  written_at pos x y h =
      get_elem?-set_self s.queue.slots (pos % n) y (get_elem?-in_range s.queue.slots (pos % n) x h)

  pub push_writes-Keeps :
      (a : A) (pos : ℕ)
      → IsAt (push_writes a pos)
      → Keeps k s i (push_writes a pos) (at_slot (push_writes a pos) pos s.queue)
  unfolding on_slot claims
  push_writes-Keeps a pos at =
      let (low, value, h) = v.rules.calls_ok i (push_writes a pos) at in
      let x : Slot A = record { sequence = pos; value = none } in
      let y : Slot A = record { sequence = pos; value = some a } in
      let (behind, within, lap, _) = vacant_at two refl (v.rules.slots_ok (pos % n) x h) in
      at_slot-Keeps k two s v room i (push_writes a pos) pos x h (
        write-Inv k two s v room i (push_writes a pos) at (push_publishes pos) pos x y refl h
          (omega arith) (vacant refl behind within lap (λ l. absurd (omega arith)))
          (spared_push (push_writes a pos) pos none at refl low h)
          (
            low,
            written_at pos x y h
                ∙ ap (λ w. some (record { sequence = pos; value = w })) (sym value),
          )
          refl refl)

  pub push_publishes-Keeps :
      (pos : ℕ)
      → IsAt (push_publishes pos)
      → Keeps k s i (push_publishes pos) (at_slot (push_publishes pos) pos s.queue)
  unfolding on_slot claims
  push_publishes-Keeps pos at =
      let (low, h) = v.rules.calls_ok i (push_publishes pos) at in
      let x : Slot A = record { sequence = pos; value = get_elem? s.claimed pos } in
      let y : Slot A = record { sequence = add_size pos 1; value = get_elem? s.claimed pos } in
      let next : add_size pos 1 ≡ suc pos = omega arith in
      let (behind, within, lap, _) = vacant_at two refl (v.rules.slots_ok (pos % n) x h) in
      at_slot-Keeps k two s v room i (push_publishes pos) pos x h (
        write-Inv k two s v room i (push_publishes pos) at (pushed pos) pos x y refl h
          (omega (arith, next))
          (subst (λ t. SlotState n d s.claimed (pos % n) t (get_elem? s.claimed pos)) (sym next)
            (full refl low lap (λ l. refl)))
          (spared_push (push_publishes pos) pos _ at refl low h)
          (
            low,
            λ z e.
                let same : z.sequence ≡ add_size pos 1 =
                  ap (λ w. w.sequence) (some-injective z y (sym e ∙ written_at pos x y h)) in
                omega (arith, next),
          )
          refl refl)

  pub pop_takes-Keeps :
      (pos : ℕ)
      → IsAt (pop_takes pos)
      → Keeps k s i (pop_takes pos) (at_slot (pop_takes pos) pos s.queue)
  unfolding on_slot claims
  pop_takes-Keeps pos at =
      let (low, written, h) = v.rules.calls_ok i (pop_takes pos) at in
      let x : Slot A = record { sequence = suc pos; value = get_elem? s.claimed pos } in
      let y : Slot A = record { sequence = suc pos; value = none } in
      let (_, lap, _) = full_at two refl (v.rules.slots_ok (pos % n) x h) in
      at_slot-Keeps k two s v room i (pop_takes pos) pos x h (
        write-Inv k two s v room i (pop_takes pos) at (pop_releases pos (get_elem? s.claimed pos))
          pos x y refl h (omega arith) (full refl written lap (λ l. absurd (omega arith)))
          (spared_pop (pop_takes pos) pos _ at refl low h)
          (low, written, refl, written_at pos x y h) refl refl)

  pub pop_releases-Keeps :
      (pos : ℕ) (r : Option A)
      → IsAt (pop_releases pos r)
      → Keeps k s i (pop_releases pos r) (at_slot (pop_releases pos r) pos s.queue)
  unfolding on_slot claims
  pop_releases-Keeps pos r at =
      let (low, written, result, h) = v.rules.calls_ok i (pop_releases pos r) at in
      let x : Slot A = record { sequence = suc pos; value = none } in
      let t = add_size (add_size pos s.queue.mask) 1 in
      let y : Slot A = record { sequence = t; value = none } in
      let next : t ≡ pos + n = omega (arith, v.masked, v.rules.behind) in
      let (_, lap, _) = full_at two refl (v.rules.slots_ok (pos % n) x h) in
      at_slot-Keeps k two s v room i (pop_releases pos r) pos x h (
        write-Inv k two s v room i (pop_releases pos r) at (popped pos r) pos x y refl h
          (omega (arith, next))
          (subst (λ t. SlotState n d s.claimed (pos % n) t none) (sym next)
            (vacant (add-mod_right pos n) (omega (arith, v.rules.behind)) (omega arith)
              (omega arith) (λ l. refl)))
          (spared_pop (pop_releases pos r) pos none at refl low h)
          (
            low,
            written,
            result,
            λ z e.
                let same : z.sequence ≡ t =
                  ap (λ w. w.sequence) (some-injective z y (sym e ∙ written_at pos x y h)) in
                omega (arith, next),
          )
          refl refl)
