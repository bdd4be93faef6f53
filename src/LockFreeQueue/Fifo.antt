-- ===== src/LockFreeQueue/Fifo.antt =====
-- lock_free_queue.hpp: what calls that have returned tell of the values claimed, and what the queue
-- holds when none is under way.
use egl_utils_cpp.Prelude.{
  ℕ, suc, ◌+◌, ◌%◌, ◌^◌, ◌≤◌, ◌<◌, ◌≡◌, ◌≢◌, refl, sym, ◌∙◌, ap, ◌⊎◌, inl, inr, Option, some, List,
  length, get_elem?, get_elem?-eq-some, arith, lt_cases, ap₂, true, false, Bool, Bool-cases, ◌==◌,
  ==_iff,
}
use egl_utils_cpp.LockFreeQueue.{Call, popped}
use egl_utils_cpp.LockFreeQueue.System.{System, start, Reach, run, step}
use egl_utils_cpp.LockFreeQueue.Index.{lap_apart}
use egl_utils_cpp.LockFreeQueue.Slots.{SlotState, vacant, full}
use egl_utils_cpp.LockFreeQueue.Calls.{Holds}
use egl_utils_cpp.LockFreeQueue.Holders.{
  HasReturned, IsPushing-HasReturned, IsPopping-HasReturned, push_holder_passed, pop_holder_passed,
}
use egl_utils_cpp.LockFreeQueue.Keeps.{there_is}
use egl_utils_cpp.LockFreeQueue.Reached.{Reach-Inv, run-Leads}

-- A slot in the window of the tickets that are not delivered.
waiting_slot :
    {A : Type 0} (n d : ℕ) (claimed : List A) (p t : ℕ) (w : Option A)
    → d ≤ p
    → p < length claimed
    → length claimed ≤ d + n
    → p < t
    → SlotState n d claimed (p % n) t w
    → (t ≡ suc p) × (w ≡ get_elem? claimed p)
waiting_slot n d claimed p t w low high room past (vacant at_i behind within lap empty) =
    absurd (omega (arith, lap_apart n p t (sym at_i) past))
waiting_slot n d claimed p t w low high room past (full {p = q} at_i written lap value) =
    elim (lt_cases p q) [
      | inl lt ↦ absurd (omega (arith, lap_apart n p q (sym at_i) lt))
      | inr le ↦
          let same : q ≡ p = omega arith in
          (ap suc same, value (omega arith) ∙ ap (get_elem? claimed) same)
    ]

module _ {A : Type 0} (k : ℕ) (two : 2 ≤ 2 ^ k) {s : System A} (r : Reach (start (2 ^ k)) s)
    (room : length s.claimed + 2 ^ k < 2 ^ 63) where
  -- In any state that any interleaving of calls reaches on a new queue of capacity 2^k, which is 2 at
  -- least, while the tickets claimed by producers and the slots together are fewer than 2^63: a try_pop
  -- that has returned an element returned the value of the producer that claimed its ticket, and two
  -- different calls that have did so for different tickets.
  pub popped_once :
      (i j p q : ℕ) (a b : Option A)
      → get_elem? s.calls i ≡ some (popped p a)
      → get_elem? s.calls j ≡ some (popped q b)
      → ((x : A) × (a ≡ some x) × (get_elem? s.claimed p ≡ some x)) × ((p ≢ q) ⊎ (i ≡ j))
  popped_once i j p q a b at_i at_j =
      let v = Reach-Inv k two r room in
      let (_, low, result, _) = v.rules.calls_ok i (popped p a) at_i in
      let (x, e) = get_elem?-eq-some s.claimed p low in
      (
        (x, result ∙ e, e),
        elim (Bool-cases (p == q)) [
          | inl same ↦ inr (
              v.rules.held.pop_unique i j (popped p a) (popped q b) p at_i at_j refl
                (ap some (sym ((==_iff p q).0 same))))
          | inr differ ↦
              inl λ same. let both : true ≡ false = sym ((==_iff p q).1 same) ∙ differ in cc
        ],
      )

  -- In any state that is reached on a new queue of capacity 2^k, which is 2 at least, while the tickets
  -- claimed by producers and the slots together are fewer than 2^63, every call that there is can make a
  -- step: it never reads or writes a slot outside the ring.
  pub step_total :
      (spurious : Bool) (i : ℕ)
      → i < length s.calls
      → (t : System A) × (step (run spurious i) s ≡ some t)
  step_total spurious i h =
      let (c, at) = get_elem?-eq-some s.calls i h in
      let (t, e, _) = run-Leads k two s spurious i c at (Reach-Inv k two r room) room in (t, e)

  -- In any state that any interleaving of calls reaches on a new queue of capacity 2^k, which is 2 at
  -- least, while the tickets claimed by producers and the slots together are fewer than 2^63, once all
  -- calls have returned nothing is lost: the value of each ticket of a producer has been returned by a
  -- try_pop, where consumers have claimed the ticket; otherwise it waits in the slot of its ticket,
  -- published for the consumer to come.
  pub contents_at_rest :
      ((i : ℕ) (c : Call A) → get_elem? s.calls i ≡ some c → HasReturned c)
      → (p : ℕ) → p < length s.claimed
      → ((i : ℕ) × (p < s.queue.dequeue_pos)
          × (get_elem? s.calls i ≡ some (popped p (get_elem? s.claimed p))))
        ⊎ ((s.queue.dequeue_pos ≤ p)
            × Holds (2 ^ k) s.queue.slots p (suc p) (get_elem? s.claimed p))
  contents_at_rest rest p low =
      let v = Reach-Inv k two r room in
      let (x, at) = there_is k two s v room 0 p in
      elim (lt_cases p s.queue.dequeue_pos) [
        | inl taken ↦
            let (i, c, at_i, has) = v.rules.held.pop_held p taken in
            elim (pop_holder_passed (2 ^ k) s.queue.dequeue_pos s.claimed s.queue.slots c x has
              (v.rules.calls_ok i c at_i) at) [
                | inl h ↦ absurd (IsPopping-HasReturned h (rest i c at_i))
                | inr (e, _) ↦ inl (i, taken, at_i ∙ ap some e)
              ]
        | inr waiting ↦
            let (i, c, at_i, has) = v.rules.held.push_held p low in
            elim (push_holder_passed (2 ^ k) s.queue.dequeue_pos s.claimed s.queue.slots c x has
              (v.rules.calls_ok i c at_i) at) [
                | inl h ↦ absurd (IsPushing-HasReturned h (rest i c at_i))
                | inr past ↦
                    let (e, w) =
                      waiting_slot (2 ^ k) s.queue.dequeue_pos s.claimed p x.sequence x.value
                        waiting low v.rules.within past (v.rules.slots_ok (p % 2 ^ k) x at) in
                    inr (waiting, at ∙ ap₂ (λ m u. some (record { sequence = m; value = u })) e w)
              ]
      ]
