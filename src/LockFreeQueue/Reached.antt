-- ===== src/LockFreeQueue/Reached.antt =====
-- lock_free_queue.hpp: the invariant along the steps of the system.
use native.Mathlib.Nat.{mod-eq_of_lt}
use egl_utils_cpp.Prelude.{
  ℕ, zero, suc, ◌+◌, ◌%◌, ◌^◌, ◌≤◌, ◌<◌, ◌≡◌, refl, sym, ◌∙◌, ap, subst, inl, inr, Bool, Option,
  none, some, some-injective, none-ne-some, Option-cases, [], ◌∷◌, ◌++◌, length, length-append,
  get_elem?, arith,
}
use egl_utils_cpp.LockFreeQueue.{
  Slot, LockFreeQueue, Call, push_loads, pop_loads, fresh, fresh_slots, advance,
}
use egl_utils_cpp.LockFreeQueue.System.{
  System, start, Move, begin_push, begin_pop, run, claims, moved, step, Reach, here, next,
}
use egl_utils_cpp.LockFreeQueue.Slots.{SlotState, vacant}
use egl_utils_cpp.LockFreeQueue.Calls.{push_ticket, pop_ticket, CallState}
use egl_utils_cpp.LockFreeQueue.Inv.{begin-Rules}
use egl_utils_cpp.LockFreeQueue.Keeps.{Inv, Keeps}
use egl_utils_cpp.LockFreeQueue.Steps.{advance-Keeps}

length-fresh_slots : (A : Type 0) (m lo : ℕ) → length (fresh_slots {A = A} lo m) ≡ m
unfolding fresh_slots
length-fresh_slots A zero lo = refl
length-fresh_slots A (suc m) lo = ap suc (length-fresh_slots A m (suc lo))

module _ {A : Type 0} where
  -- The slots of the constructor.
  fresh_slots-SlotState :
      (m lo i : ℕ) (x : Slot A)
      → get_elem? (fresh_slots lo m) i ≡ some x
      → (i < m) × (x ≡ record { sequence = lo + i; value = none })
  unfolding fresh_slots
  fresh_slots-SlotState zero lo i x h = absurd (none-ne-some x h)
  fresh_slots-SlotState (suc m) lo zero x h = (
    omega arith,
    sym (some-injective _ x h) ∙ ap (λ t. record { sequence = t; value = none }) (omega arith),
  )
  fresh_slots-SlotState (suc m) lo (suc i) x h =
      let (low, e) = fresh_slots-SlotState m (suc lo) i x h in
      (omega arith, e ∙ ap (λ t. record { sequence = t; value = none }) (omega arith))

  start-Inv : (k : ℕ) → 2 ^ k ≤ 2 ^ 63 → 2 ≤ 2 ^ k → Inv {A = A} k (start (2 ^ k))
  unfolding start fresh
  start-Inv k small two = record {
    masked = omega arith;
    sized = length-fresh_slots A (2 ^ k) 0;
    enqueued = refl;
    rules = record {
      behind = omega arith;
      within = omega arith;
      slots_ok = λ i x h.
          let (low, e) = fresh_slots-SlotState (2 ^ k) 0 i x h in
          subst (λ y. SlotState (2 ^ k) 0 [] i y.sequence y.value) (sym e)
            (vacant (ap (λ t. t % 2 ^ k) (omega arith) ∙ mod-eq_of_lt low) (omega arith)
              (omega arith) (omega arith) (λ _. refl));
      calls_ok = λ i c h. absurd (none-ne-some c h);
      held = record {
        push_unique = λ i j c e p h. absurd (none-ne-some c h);
        push_held = λ p h. absurd (omega arith);
        pop_unique = λ i j c e p h. absurd (none-ne-some c h);
        pop_held = λ p h. absurd (omega arith);
      };
    };
  }

  -- What one step of the system leads to.
  abbrev Leads : ℕ → Option (System A) → Type 0
  Leads k none = Unit {0}
  Leads k (some t) = Inv k t

  -- The values claimed stay.
  abbrev Grows : System A → Option (System A) → Type 0
  Grows s none = Unit {0}
  Grows s (some t) = length s.claimed ≤ length t.claimed

  moved-Grows :
      (s : System A) (i : ℕ) (c : Call A) (r : Option (Call A × LockFreeQueue A))
      → Grows s (moved s i c r)
  unfolding moved
  moved-Grows s i c none = tt
  moved-Grows s i c (some (after, q)) = omega (arith, length-append s.claimed (claims c after))

  step-Grows : (m : Move A) (s : System A) → Grows s (step m s)
  unfolding step
  step-Grows (begin_push a) s = omega arith
  step-Grows begin_pop s = omega arith
  step-Grows (run spurious i) s =
      elim (get_elem? s.calls i)
        as (λ o.
          Grows s (elim o [ none ↦ none | some c ↦ moved s i c (advance spurious c s.queue) ])) [
            | none ↦ tt
            | some c ↦ moved-Grows s i c (advance spurious c s.queue)
          ]

  begin-Inv :
      (k : ℕ) (s : System A) (c : Call A)
      → CallState (2 ^ k) s.queue.dequeue_pos s.claimed s.queue.slots c
      → push_ticket c ≡ none
      → pop_ticket c ≡ none
      → Inv k s
      → Inv k (record s { calls = s.calls ++ (c ∷ []) })
  begin-Inv k s c ok no_push no_pop v = record {
    masked = v.masked;
    sized = v.sized;
    enqueued = v.enqueued;
    rules = begin-Rules v.rules c ok no_push no_pop;
  }

  moved-Leads :
      (k : ℕ) (s : System A) (i : ℕ) (c : Call A) (r : Option (Call A × LockFreeQueue A))
      → Keeps k s i c r
      → (t : System A) × (moved s i c r ≡ some t) × Inv k t
  unfolding moved
  moved-Leads k s i c none h = absurd h
  moved-Leads k s i c (some (after, q)) h = (_, refl, h)

  module _ (k : ℕ) (two : 2 ≤ 2 ^ k) where
    pub run-Leads :
        (s : System A) (spurious : Bool) (i : ℕ) (c : Call A)
        → get_elem? s.calls i ≡ some c
        → Inv k s
        → length s.claimed + 2 ^ k < 2 ^ 63
        → (t : System A) × (step (run spurious i) s ≡ some t) × Inv k t
    unfolding step
    run-Leads s spurious i c at v room =
        let (t, e, u) = moved-Leads k s i c _ (advance-Keeps k two s v room i spurious c at) in
        (
          t,
          ap (λ o. elim o [ none ↦ none | some b ↦ moved s i b (advance spurious b s.queue) ]) at
              ∙ e,
          u,
        )

    step-Leads :
        (m : Move A) (s : System A)
        → Inv k s
        → length s.claimed + 2 ^ k < 2 ^ 63
        → Leads k (step m s)
    unfolding step
    step-Leads (begin_push a) s v room = begin-Inv k s (push_loads a) tt refl refl v
    step-Leads begin_pop s v room = begin-Inv k s pop_loads tt refl refl v
    step-Leads (run spurious i) s v room = elim (Option-cases (get_elem? s.calls i)) [
      | inl e ↦
          subst (Leads k)
            (sym (
              ap (λ o. elim o [ none ↦ none | some b ↦ moved s i b (advance spurious b s.queue) ])
                e))
            tt
      | inr (c, e) ↦ let (t, f, u) = run-Leads s spurious i c e v room in subst (Leads k) (sym f) u
    ]

    -- From a new queue, while fewer than 2^63 tickets of producers and slots are counted.
    pub Reach-Inv :
        {s : System A} → Reach (start (2 ^ k)) s → length s.claimed + 2 ^ k < 2 ^ 63 → Inv k s
    Reach-Inv here room = start-Inv k (omega arith) two
    Reach-Inv (next {t} {u} m r e) room =
        let grown : length t.claimed ≤ length u.claimed = subst (Grows t) e (step-Grows m t) in
        let low : length t.claimed + 2 ^ k < 2 ^ 63 = omega (arith, grown) in
        subst (Leads k) e (step-Leads m t (Reach-Inv r low) low)
