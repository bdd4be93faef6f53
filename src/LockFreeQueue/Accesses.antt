-- ===== src/LockFreeQueue/Accesses.antt =====
-- lock_free_queue.hpp: the steps of `try_push` and `try_pop` that read the sequence of a slot.
use egl_utils_cpp.Prelude.{
  ℕ, suc, ◌+◌, ◌%◌, ◌^◌, ◌≤◌, ◌<◌, ◌≡◌, refl, sym, ◌∙◌, ap, subst, none, some, List, length,
  get_elem?, add_size, arith,
}
use egl_utils_cpp.LockFreeQueue.{
  Slot, Gap, vanishing, negative, positive, gap, Call, push_looks, pop_looks, push_by, pop_by,
  on_slot, at_slot,
}
use egl_utils_cpp.LockFreeQueue.System.{System, claims}
use egl_utils_cpp.LockFreeQueue.Index.{gap_vanishing}
use egl_utils_cpp.LockFreeQueue.Calls.{push_ticket, pop_ticket, Holds, CallState}
use egl_utils_cpp.LockFreeQueue.Keeps.{
  Inv, Keeps, at_slot-on_slot, there_is, sequence_bound, quiet-Inv,
}

pop_by-ticket :
    (A : Type 0) (pos : ℕ) (g : Gap)
    → (push_ticket {A = A} (pop_by pos g) ≡ none) × (pop_ticket {A = A} (pop_by pos g) ≡ none)
unfolding pop_by
pop_by-ticket A pos vanishing = (refl, refl)
pop_by-ticket A pos negative = (refl, refl)
pop_by-ticket A pos positive = (refl, refl)

module _ {A : Type 0} where
  -- What the gap leads to claims nothing yet.
  push_by-ticket :
      (a : A) (pos : ℕ) (g : Gap)
      → (push_ticket (push_by a pos g) ≡ none) × (pop_ticket (push_by a pos g) ≡ none)
  unfolding push_by
  push_by-ticket a pos vanishing = (refl, refl)
  push_by-ticket a pos negative = (refl, refl)
  push_by-ticket a pos positive = (refl, refl)

  held_by :
      (n : ℕ) (slots : List (Slot A)) (pos s : ℕ) (x : Slot A)
      → get_elem? slots (pos % n) ≡ some x
      → x.sequence ≡ s
      → Holds n slots pos s x.value
  held_by n slots pos s x h e = h ∙ ap (λ t. some (record { sequence = t; value = x.value })) e

  push_by-CallState :
      (n d : ℕ) (claimed : List A) (slots : List (Slot A)) (a : A) (pos : ℕ) (x : Slot A) (g : Gap)
      → get_elem? slots (pos % n) ≡ some x
      → pos ≤ length claimed
      → (g ≡ vanishing → x.sequence ≡ pos)
      → CallState n d claimed slots (push_by a pos g)
  unfolding push_by
  push_by-CallState n d claimed slots a pos x vanishing h low e =
      (low, λ _. (x.value, held_by n slots pos pos x h (e refl)))
  push_by-CallState n d claimed slots a pos x negative h low e = tt
  push_by-CallState n d claimed slots a pos x positive h low e = tt

  pop_by-CallState :
      (n d : ℕ) (claimed : List A) (slots : List (Slot A)) (pos : ℕ) (x : Slot A) (g : Gap)
      → get_elem? slots (pos % n) ≡ some x
      → pos ≤ d
      → (g ≡ vanishing → x.sequence ≡ suc pos)
      → CallState n d claimed slots (pop_by pos g)
  unfolding pop_by
  pop_by-CallState n d claimed slots pos x vanishing h low e =
      (low, λ _. (x.value, held_by n slots pos (suc pos) x h (e refl)))
  pop_by-CallState n d claimed slots pos x negative h low e = tt
  pop_by-CallState n d claimed slots pos x positive h low e = tt

module _ {A : Type 0} (k : ℕ) (two : 2 ≤ 2 ^ k) (s : System A) (v : Inv k s)
    (room : length s.claimed + 2 ^ k < 2 ^ 63) (i : ℕ) where
  abbrev n : ℕ
  n = 2 ^ k

  abbrev d : ℕ
  d = s.queue.dequeue_pos

  abbrev IsAt : Call A → Type 0
  IsAt c = get_elem? s.calls i ≡ some c

  -- A step at a slot that is known.
  pub at_slot-Keeps :
      (c : Call A) (pos : ℕ) (x : Slot A)
      → get_elem? s.queue.slots (pos % n) ≡ some x
      → Keeps k s i c (some (on_slot c s.queue x))
      → Keeps k s i c (at_slot c pos s.queue)
  at_slot-Keeps c pos x h = subst (Keeps k s i c) (sym (at_slot-on_slot k two s v room i c pos x h))

  pub push_looks-Keeps :
      (a : A) (pos : ℕ)
      → IsAt (push_looks a pos)
      → Keeps k s i (push_looks a pos) (at_slot (push_looks a pos) pos s.queue)
  unfolding on_slot claims
  push_looks-Keeps a pos at =
      let low = v.rules.calls_ok i (push_looks a pos) at in
      let (x, h) = there_is k two s v room i pos in
      let (push, pop) = push_by-ticket a pos (gap x.sequence pos) in
      at_slot-Keeps (push_looks a pos) pos x h (
        quiet-Inv k two s v room i (push_looks a pos) at (push_by a pos (gap x.sequence pos)) refl
          (push_by-CallState n d s.claimed s.queue.slots a pos x _ h low (
            gap_vanishing x.sequence pos
              (omega (arith, sequence_bound k two s v room i (pos % n) x h)) (omega arith)))
          push pop)

  pub pop_looks-Keeps :
      (pos : ℕ)
      → IsAt (pop_looks pos)
      → Keeps k s i (pop_looks pos) (at_slot (pop_looks pos) pos s.queue)
  unfolding on_slot claims
  pop_looks-Keeps pos at =
      let low = v.rules.calls_ok i (pop_looks pos) at in
      let (x, h) = there_is k two s v room i pos in
      let next : add_size pos 1 ≡ suc pos = omega (arith, v.rules.behind) in
      let g = gap x.sequence (add_size pos 1) in
      let (push, pop) = pop_by-ticket A pos g in
      at_slot-Keeps (pop_looks pos) pos x h (
        quiet-Inv k two s v room i (pop_looks pos) at (pop_by pos g) refl
          (pop_by-CallState n d s.claimed s.queue.slots pos x g h low (λ e.
            gap_vanishing x.sequence (add_size pos 1)
              (omega (arith, sequence_bound k two s v room i (pos % n) x h)) (omega arith) e
            ∙ next))
          push pop)
