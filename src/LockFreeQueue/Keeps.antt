-- ===== src/LockFreeQueue/Keeps.antt =====
-- lock_free_queue.hpp: the invariant with the queue, and the two kinds of step that claim no
-- ticket.
use Prim.Native.Nat.{bit_and}
use native.Mathlib.Nat.{mod-lt}
use egl_utils_cpp.Prelude.{
  ℕ, ◌+◌, ◌-◌, ◌%◌, ◌^◌, ◌≤◌, ◌<◌, ◌≡◌, ◌≢◌, sym, ◌∙◌, ap, subst, Option, none, some, List, [],
  ◌++◌, append-nil, length, length-set, get_elem?, get_elem?-eq-some, set, arith,
}
use egl_utils_cpp.LockFreeQueue.{Slot, LockFreeQueue, Call, slot_at, store_slot, on_slot, at_slot}
use egl_utils_cpp.LockFreeQueue.System.{System, claims}
use egl_utils_cpp.LockFreeQueue.Index.{bit_and-mask}
use egl_utils_cpp.LockFreeQueue.Slots.{SlotState, vacant, full}
use egl_utils_cpp.LockFreeQueue.Calls.{push_ticket, pop_ticket, CallState, Spares}
use egl_utils_cpp.LockFreeQueue.Inv.{Rules, quiet-Rules, write-Rules}

-- A queue of capacity `2 ^ k`.
pub record Inv {A : Type 0} (k : ℕ) (s : System A) : Type 0 where
  pub masked : s.queue.mask ≡ 2 ^ k - 1
  pub sized : length s.queue.slots ≡ 2 ^ k
  pub enqueued : s.queue.enqueue_pos ≡ length s.claimed
  pub rules : Rules (2 ^ k) s.queue.dequeue_pos s.queue.slots s.calls s.claimed

-- What the step of the call at index `i` leads to.
abbrev pub Keeps :
    {A : Type 0} → ℕ → System A → ℕ → Call A → Option (Call A × LockFreeQueue A) → Type 0
Keeps k s i c none = ⊥
Keeps k s i c (some (after, q)) =
    Inv k (record { queue = q; calls = set s.calls i after; claimed = s.claimed ++ claims c after })

state_bound :
    {A : Type 0} (n d : ℕ) (claimed : List A) (i t : ℕ) (w : Option A)
    → SlotState n d claimed i t w
    → d ≤ length claimed
    → length claimed + n < 2 ^ 63
    → t < 2 ^ 63
state_bound n d claimed i t w (vacant at_i behind within lap empty) b r = omega arith
state_bound n d claimed i t w (full at_i written lap value) b r = omega arith

module _ {A : Type 0} (k : ℕ) (two : 2 ≤ 2 ^ k) (s : System A) (v : Inv k s)
    (room : length s.claimed + 2 ^ k < 2 ^ 63) (i : ℕ) where
  abbrev n : ℕ
  n = 2 ^ k

  pub slot_at-index : (pos : ℕ) → slot_at s.queue pos ≡ get_elem? s.queue.slots (pos % n)
  unfolding slot_at
  slot_at-index pos =
      ap (get_elem? s.queue.slots) (ap (λ m. bit_and pos m) v.masked ∙ bit_and-mask pos k)

  store_slot-index :
      (pos : ℕ) (y : Slot A)
      → store_slot s.queue pos y ≡ record s.queue { slots = set s.queue.slots (pos % n) y }
  unfolding store_slot
  store_slot-index pos y =
      ap (λ j. record s.queue { slots = set s.queue.slots j y })
        (ap (λ m. bit_and pos m) v.masked ∙ bit_and-mask pos k)

  pub at_slot-on_slot :
      (c : Call A) (pos : ℕ) (x : Slot A)
      → get_elem? s.queue.slots (pos % n) ≡ some x
      → at_slot c pos s.queue ≡ some (on_slot c s.queue x)
  unfolding at_slot
  at_slot-on_slot c pos x h =
      ap (λ o. elim o [ none ↦ none | some slot ↦ some (on_slot c s.queue slot) ])
        (slot_at-index pos ∙ h)

  pub there_is : (pos : ℕ) → (x : Slot A) × (get_elem? s.queue.slots (pos % n) ≡ some x)
  there_is pos =
      get_elem?-eq-some s.queue.slots (pos % n)
        (omega (arith, mod-lt pos {m = 2 ^ k} (omega arith), v.sized))

  -- No sequence is large.
  pub sequence_bound :
      (j : ℕ) (x : Slot A) → get_elem? s.queue.slots j ≡ some x → x.sequence < 2 ^ 63
  sequence_bound j x h =
      state_bound n s.queue.dequeue_pos s.claimed j x.sequence x.value (v.rules.slots_ok j x h)
        v.rules.behind room

  module _ (before : Call A) (at : get_elem? s.calls i ≡ some before) where
    -- A step that leaves the queue as it is.
    pub quiet-Inv :
        (after : Call A)
        → claims before after ≡ []
        → CallState n s.queue.dequeue_pos s.claimed s.queue.slots after
        → push_ticket after ≡ push_ticket before
        → pop_ticket after ≡ pop_ticket before
        → Keeps k s i before (some (after, s.queue))
    quiet-Inv after none_claimed ok push pop =
        subst (λ l. Inv k (record { queue = s.queue; calls = set s.calls i after; claimed = l }))
          (sym (append-nil s.claimed) ∙ ap (λ l. s.claimed ++ l) (sym none_claimed))
          (record {
            masked = v.masked;
            sized = v.sized;
            enqueued = v.enqueued;
            rules = quiet-Rules v.rules i before after at ok push pop;
          })

    -- A step that writes the slot of a ticket.
    pub write-Inv :
        (after : Call A) (pos : ℕ) (x y : Slot A)
        → claims before after ≡ []
        → get_elem? s.queue.slots (pos % n) ≡ some x
        → x.sequence ≤ y.sequence
        → SlotState n s.queue.dequeue_pos s.claimed (pos % n) y.sequence y.value
        → ((j : ℕ) (e : Call A)
            → i ≢ j
            → get_elem? s.calls j ≡ some e
            → Spares n (pos % n) s.queue.dequeue_pos s.claimed e)
        → CallState n s.queue.dequeue_pos s.claimed (set s.queue.slots (pos % n) y) after
        → push_ticket after ≡ push_ticket before
        → pop_ticket after ≡ pop_ticket before
        → Keeps k s i before (some (after, store_slot s.queue pos y))
    write-Inv after pos x y none_claimed there up slot_ok spared ok push pop =
        subst (λ q. Keeps k s i before (some (after, q))) (sym (store_slot-index pos y))
          (subst
            (λ l. Inv k (record {
              queue = record s.queue { slots = set s.queue.slots (pos % n) y };
              calls = set s.calls i after;
              claimed = l;
            }))
            (sym (append-nil s.claimed) ∙ ap (λ l. s.claimed ++ l) (sym none_claimed))
            (record {
              masked = v.masked;
              sized = length-set s.queue.slots (pos % n) y ∙ v.sized;
              enqueued = v.enqueued;
              rules =
                  write-Rules v.rules i before after at (pos % n) x y there up slot_ok spared ok
                    push pop;
            }))
