-- ===== src/LockFreeQueue/Inv.antt =====
-- lock_free_queue.hpp: the invariant of a queue with its calls, and the four kinds of change that
-- keep it.
use egl_utils_cpp.Prelude.{
  ℕ, suc, ◌+◌, ◌%◌, ◌≤◌, ◌≡◌, ◌≢◌, refl, sym, ◌∙◌, ap, subst, Option, none, some, some-injective,
  List, [], ◌∷◌, ◌++◌, length, length-append, get_elem?, get_elem?-append_right, set,
  get_elem?-set_inv, inl, inr, arith,
}
use egl_utils_cpp.LockFreeQueue.{Slot, Call, push_writes, pop_takes}
use egl_utils_cpp.LockFreeQueue.Slots.{
  SlotState, claim_push-SlotState, claim_pop-SlotState, vacant_at, full_at,
}
use egl_utils_cpp.LockFreeQueue.Calls.{push_ticket, pop_ticket, Holds, CallState, Spares}
use egl_utils_cpp.LockFreeQueue.Frames.{
  claim_push-CallState, claim_pop-CallState, write-CallState, push_ticket_bound, pop_ticket_bound,
}
use egl_utils_cpp.LockFreeQueue.Tickets.{
  All, set-All, append-All, IsUnique, AreHeld, set_same-IsUnique, set_new-IsUnique, set-AreHeld,
  set_next-AreHeld, append-IsUnique, append-AreHeld,
}

-- `n` is the capacity.
abbrev pub AllSlots : {A : Type 0} → ℕ → ℕ → List A → List (Slot A) → Type 0
AllSlots {A} n d claimed slots =
    (i : ℕ) (x : Slot A) → get_elem? slots i ≡ some x → SlotState n d claimed i x.sequence x.value

same_slot :
    {A : Type 0} (n : ℕ) (slots : List (Slot A)) (pos s : ℕ) (w : Option A)
    → Holds n slots pos s w
    → (j : ℕ) (x : Slot A) → j ≡ pos % n
    → get_elem? slots j ≡ some x
    → x.sequence ≡ s
same_slot n slots pos s w held j x e h =
    ap (λ y. y.sequence) (some-injective _ _ (sym h ∙ ap (get_elem? slots) e ∙ held))

-- The tickets of producers below `e` and those of consumers below `d` have one holder each.
pub record Held {A : Type 0} (e d : ℕ) (calls : List (Call A)) : Type 0 where
  pub push_unique : IsUnique push_ticket calls
  pub push_held : AreHeld push_ticket e calls
  pub pop_unique : IsUnique pop_ticket calls
  pub pop_held : AreHeld pop_ticket d calls

pub record Rules {A : Type 0} (n d : ℕ) (slots : List (Slot A)) (calls : List (Call A))
    (claimed : List A) : Type 0 where
  pub behind : d ≤ length claimed
  pub within : length claimed ≤ d + n
  pub slots_ok : AllSlots n d claimed slots
  pub calls_ok : All (CallState n d claimed slots) calls
  pub held : Held (length claimed) d calls

same-Held :
    {A : Type 0} {e d : ℕ} {calls : List (Call A)} (i : ℕ) (before after : Call A)
    → get_elem? calls i ≡ some before
    → push_ticket after ≡ push_ticket before
    → pop_ticket after ≡ pop_ticket before
    → Held e d calls
    → Held e d (set calls i after)
same-Held {e} {d} {calls} i before after at push pop h = record {
  push_unique = set_same-IsUnique push_ticket calls i before after at push h.push_unique;
  push_held = set-AreHeld push_ticket calls i before after at e (λ p s. push ∙ s) h.push_held;
  pop_unique = set_same-IsUnique pop_ticket calls i before after at pop h.pop_unique;
  pop_held = set-AreHeld pop_ticket calls i before after at d (λ p s. pop ∙ s) h.pop_held;
}

module _ {A : Type 0} {n d : ℕ} {slots : List (Slot A)} {calls : List (Call A)} {claimed : List A}
    (v : Rules n d slots calls claimed) where
  pub begin-Rules :
      (c : Call A)
      → CallState n d claimed slots c
      → push_ticket c ≡ none
      → pop_ticket c ≡ none
      → Rules n d slots (calls ++ (c ∷ [])) claimed
  begin-Rules c ok no_push no_pop = record {
    behind = v.behind;
    within = v.within;
    slots_ok = v.slots_ok;
    calls_ok = append-All calls c ok v.calls_ok;
    held = record {
      push_unique = append-IsUnique push_ticket calls c no_push v.held.push_unique;
      push_held = append-AreHeld push_ticket calls c (length claimed) v.held.push_held;
      pop_unique = append-IsUnique pop_ticket calls c no_pop v.held.pop_unique;
      pop_held = append-AreHeld pop_ticket calls c d v.held.pop_held;
    };
  }

  module _ (i : ℕ) (before after : Call A) (at : get_elem? calls i ≡ some before) where
    -- The call goes on, and the queue stays.
    pub quiet-Rules :
        CallState n d claimed slots after
        → push_ticket after ≡ push_ticket before
        → pop_ticket after ≡ pop_ticket before
        → Rules n d slots (set calls i after) claimed
    quiet-Rules ok same_push same_pop = record {
      behind = v.behind;
      within = v.within;
      slots_ok = v.slots_ok;
      calls_ok = set-All calls i after (λ j e away h k. k) ok v.calls_ok;
      held = same-Held i before after at same_push same_pop v.held;
    }

    -- The call goes on, and changes the slot at an index, on which no other call relies.
    pub write-Rules :
        (k : ℕ) (x y : Slot A)
        → get_elem? slots k ≡ some x
        → x.sequence ≤ y.sequence
        → SlotState n d claimed k y.sequence y.value
        → ((j : ℕ) (e : Call A) → i ≢ j → get_elem? calls j ≡ some e → Spares n k d claimed e)
        → CallState n d claimed (set slots k y) after
        → push_ticket after ≡ push_ticket before
        → pop_ticket after ≡ pop_ticket before
        → Rules n d (set slots k y) (set calls i after) claimed
    write-Rules k x y there up slot_ok spared ok same_push same_pop = record {
      behind = v.behind;
      within = v.within;
      slots_ok = λ j z h. elim (get_elem?-set_inv slots k j y z h) [
        | inl (e, same) ↦
            subst (λ w. SlotState n d claimed j w.sequence w.value) (sym same)
              (subst (λ m. SlotState n d claimed m y.sequence y.value) e slot_ok)
        | inr (away, old) ↦ v.slots_ok j z old
      ];
      calls_ok =
          set-All calls i after
            (λ j e away h ok.
              write-CallState n d claimed slots k x y there up e (spared j e away h) ok)
            ok v.calls_ok;
      held = same-Held i before after at same_push same_pop v.held;
    }

  module _ (two : 2 ≤ n) (i : ℕ) (before : Call A) (at : get_elem? calls i ≡ some before)
      (no_push : push_ticket before ≡ none) (no_pop : pop_ticket before ≡ none) where
    -- The call claims the next ticket of a producer, for which its slot is vacant.
    pub claim_push-Rules :
        (a : A) (w : Option A)
        → Holds n slots (length claimed) (length claimed) w
        → Rules n d slots (set calls i (push_writes a (length claimed))) (claimed ++ (a ∷ []))
    claim_push-Rules a w held =
        let after = push_writes a (length claimed) in
        let (_, within, _, empty) = vacant_at two refl (v.slots_ok _ _ held) in
        let longer = length-append claimed (a ∷ []) in
        let now_held =
          set_next-AreHeld push_ticket calls i before after at (length claimed) no_push refl
            v.held.push_held in
        record {
          behind = omega (arith, v.behind, longer);
          within = omega (arith, longer, within);
          slots_ok = λ j x h.
              claim_push-SlotState two a
                (λ e. same_slot n slots (length claimed) (length claimed) w held j x e h)
                (v.slots_ok j x h);
          calls_ok =
              set-All calls i after (λ j e away h ok. claim_push-CallState n d claimed slots a e ok)
                (
                  omega (arith, longer),
                  get_elem?-append_right claimed (a ∷ []) (length claimed) 0 (omega arith),
                  held
                      ∙ ap (λ u. some (record { sequence = length claimed; value = u }))
                          (empty (omega arith)),
                )
                v.calls_ok;
          held = record {
            push_unique =
                set_new-IsUnique push_ticket calls i before after at (length claimed) refl
                  (λ j e h has.
                    omega (arith, push_ticket_bound n d claimed slots e _ has (v.calls_ok j e h)))
                  v.held.push_unique;
            push_held =
                subst (λ b. AreHeld push_ticket b (set calls i after)) (omega (arith, longer))
                  now_held;
            pop_unique =
                set_same-IsUnique pop_ticket calls i before after at (sym no_pop) v.held.pop_unique;
            pop_held =
                set-AreHeld pop_ticket calls i before after at d (λ p s. sym no_pop ∙ s)
                  v.held.pop_held;
          };
        }

    -- The call claims the next ticket of a consumer, for which its slot is full.
    pub claim_pop-Rules :
        (w : Option A)
        → Holds n slots d (suc d) w
        → Rules n (suc d) slots (set calls i (pop_takes d)) claimed
    claim_pop-Rules w held =
        let after : Call A = pop_takes d in
        let (written, lap, value) = full_at two refl (v.slots_ok _ _ held) in
        record {
          behind = written;
          within = omega (arith, v.within);
          slots_ok = λ j x h.
              claim_pop-SlotState two (λ e. same_slot n slots d (suc d) w held j x e h)
                (v.slots_ok j x h);
          calls_ok =
              set-All calls i after (λ j e away h ok. claim_pop-CallState n d claimed slots e ok)
                (
                  omega arith,
                  written,
                  held
                      ∙ ap (λ u. some (record { sequence = suc d; value = u }))
                          (value (omega arith)),
                )
                v.calls_ok;
          held = record {
            push_unique =
                set_same-IsUnique push_ticket calls i before after at (sym no_push)
                  v.held.push_unique;
            push_held =
                set-AreHeld push_ticket calls i before after at (length claimed)
                  (λ p s. sym no_push ∙ s) v.held.push_held;
            pop_unique =
                set_new-IsUnique pop_ticket calls i before after at d refl
                  (λ j e h has.
                    omega (arith, pop_ticket_bound n d claimed slots e _ has (v.calls_ok j e h)))
                  v.held.pop_unique;
            pop_held =
                set_next-AreHeld pop_ticket calls i before after at d no_pop refl v.held.pop_held;
          };
        }
