-- ===== src/LockFreeQueue/Frames.antt =====
-- lock_free_queue.hpp: what a step of one call leaves true of the others.
use egl_utils_cpp.Prelude.{
  ℕ, suc, ◌+◌, ◌%◌, ◌≤◌, ◌<◌, ◌≡◌, ◌≢◌, sym, ◌∙◌, ap, Option, none, some, some-injective,
  none-ne-some, List, [], ◌∷◌, ◌++◌, length, length-append, get_elem?, get_elem?-append_left,
  get_elem?-set_ne, get_elem?-set_inv, set, inl, inr, arith,
}
use egl_utils_cpp.LockFreeQueue.{
  Slot, Call, push_loads, push_looks, push_claims, push_writes, push_publishes, pushed, refused,
  pop_loads, pop_looks, pop_claims, pop_takes, pop_releases, popped, found_empty,
}
use egl_utils_cpp.LockFreeQueue.Calls.{push_ticket, pop_ticket, Holds, Above, CallState, Spares}

module _ {A : Type 0} (n d : ℕ) (claimed : List A) (slots : List (Slot A)) where
  module _ (a : A) where
    kept : (p : ℕ) → p < length claimed → get_elem? claimed p ≡ get_elem? (claimed ++ (a ∷ [])) p
    kept p h = sym (get_elem?-append_left claimed (a ∷ []) p h)

    longer : length (claimed ++ (a ∷ [])) ≡ suc (length claimed)
    longer = omega (arith, length-append claimed (a ∷ []))

    pub claim_push-CallState :
        (c : Call A) → CallState n d claimed slots c → CallState n d (claimed ++ (a ∷ [])) slots c
    claim_push-CallState (push_loads value) h = tt
    claim_push-CallState (push_looks value pos) h = omega (arith, longer)
    claim_push-CallState (push_claims value pos) (h, look) =
        (omega (arith, longer), λ l. look (omega (arith, longer)))
    claim_push-CallState (push_writes value pos) (h, e, s) =
        (omega (arith, longer), sym (kept pos h) ∙ e, s)
    claim_push-CallState (push_publishes pos) (h, s) = (
      omega (arith, longer),
      s ∙ ap (λ v. some (record { sequence = pos; value = v })) (kept pos h),
    )
    claim_push-CallState (pushed pos) (h, s) = (omega (arith, longer), s)
    claim_push-CallState refused h = tt
    claim_push-CallState pop_loads h = tt
    claim_push-CallState (pop_looks pos) h = h
    claim_push-CallState (pop_claims pos) h = h
    claim_push-CallState (pop_takes pos) (h, l, s) = (
      h,
      omega (arith, longer),
      s ∙ ap (λ v. some (record { sequence = suc pos; value = v })) (kept pos l),
    )
    claim_push-CallState (pop_releases pos result) (h, l, e, s) =
        (h, omega (arith, longer), e ∙ kept pos l, s)
    claim_push-CallState (popped pos result) (h, l, e, s) =
        (h, omega (arith, longer), e ∙ kept pos l, s)
    claim_push-CallState found_empty h = tt

  pub claim_pop-CallState :
      (c : Call A) → CallState n d claimed slots c → CallState n (suc d) claimed slots c
  claim_pop-CallState (pop_looks pos) h = omega arith
  claim_pop-CallState (pop_claims pos) (h, look) = (omega arith, λ l. look (omega arith))
  claim_pop-CallState (pop_takes pos) (h, l, s) = (omega arith, l, s)
  claim_pop-CallState (pop_releases pos result) (h, l, e, s) = (omega arith, l, e, s)
  claim_pop-CallState (popped pos result) (h, l, e, s) = (omega arith, l, e, s)
  claim_pop-CallState (push_loads value) h = tt
  claim_pop-CallState (push_looks value pos) h = h
  claim_pop-CallState (push_claims value pos) h = h
  claim_pop-CallState (push_writes value pos) h = h
  claim_pop-CallState (push_publishes pos) h = h
  claim_pop-CallState (pushed pos) h = h
  claim_pop-CallState refused h = tt
  claim_pop-CallState pop_loads h = tt
  claim_pop-CallState found_empty h = tt

  -- Only tickets that the counters have passed are held.
  pub push_ticket_bound :
      (c : Call A) (p : ℕ)
      → push_ticket c ≡ some p
      → CallState n d claimed slots c
      → p < length claimed
  push_ticket_bound (push_writes value pos) p e (h, _, _) = omega (arith, some-injective pos p e)
  push_ticket_bound (push_publishes pos) p e (h, _) = omega (arith, some-injective pos p e)
  push_ticket_bound (pushed pos) p e (h, _) = omega (arith, some-injective pos p e)
  push_ticket_bound (push_loads value) p e h = absurd (none-ne-some p e)
  push_ticket_bound (push_looks value pos) p e h = absurd (none-ne-some p e)
  push_ticket_bound (push_claims value pos) p e h = absurd (none-ne-some p e)
  push_ticket_bound refused p e h = absurd (none-ne-some p e)
  push_ticket_bound pop_loads p e h = absurd (none-ne-some p e)
  push_ticket_bound (pop_looks pos) p e h = absurd (none-ne-some p e)
  push_ticket_bound (pop_claims pos) p e h = absurd (none-ne-some p e)
  push_ticket_bound (pop_takes pos) p e h = absurd (none-ne-some p e)
  push_ticket_bound (pop_releases pos result) p e h = absurd (none-ne-some p e)
  push_ticket_bound (popped pos result) p e h = absurd (none-ne-some p e)
  push_ticket_bound found_empty p e h = absurd (none-ne-some p e)

  pub pop_ticket_bound :
      (c : Call A) (p : ℕ) → pop_ticket c ≡ some p → CallState n d claimed slots c → p < d
  pop_ticket_bound (pop_takes pos) p e (h, _, _) = omega (arith, some-injective pos p e)
  pop_ticket_bound (pop_releases pos result) p e (h, _, _, _) =
      omega (arith, some-injective pos p e)
  pop_ticket_bound (popped pos result) p e (h, _, _, _) = omega (arith, some-injective pos p e)
  pop_ticket_bound (push_loads value) p e h = absurd (none-ne-some p e)
  pop_ticket_bound (push_looks value pos) p e h = absurd (none-ne-some p e)
  pop_ticket_bound (push_claims value pos) p e h = absurd (none-ne-some p e)
  pop_ticket_bound (push_writes value pos) p e h = absurd (none-ne-some p e)
  pop_ticket_bound (push_publishes pos) p e h = absurd (none-ne-some p e)
  pop_ticket_bound (pushed pos) p e h = absurd (none-ne-some p e)
  pop_ticket_bound refused p e h = absurd (none-ne-some p e)
  pop_ticket_bound pop_loads p e h = absurd (none-ne-some p e)
  pop_ticket_bound (pop_looks pos) p e h = absurd (none-ne-some p e)
  pop_ticket_bound (pop_claims pos) p e h = absurd (none-ne-some p e)
  pop_ticket_bound found_empty p e h = absurd (none-ne-some p e)

  -- A slot is written whose sequence does not go back.
  module _ (i : ℕ) (x y : Slot A) (at : get_elem? slots i ≡ some x)
      (up : x.sequence ≤ y.sequence) where
    still-Holds :
        (pos s : ℕ) (v : Option A)
        → i ≢ pos % n
        → Holds n slots pos s v
        → Holds n (set slots i y) pos s v
    still-Holds pos s v ne h = get_elem?-set_ne slots y ne ∙ h

    still-Above : (pos bound : ℕ) → Above n slots pos bound → Above n (set slots i y) pos bound
    still-Above pos bound h z e = elim (get_elem?-set_inv slots i (pos % n) y z e) [
      | inl (here, new) ↦
          let low = h x (ap (get_elem? slots) (sym here) ∙ at) in
          let same : z.sequence ≡ y.sequence = ap (λ w. w.sequence) new in omega arith
      | inr (away, old) ↦ h z old
    ]

    pub write-CallState :
        (c : Call A)
        → Spares n i d claimed c
        → CallState n d claimed slots c
        → CallState n d claimed (set slots i y) c
    write-CallState (push_loads value) ne h = tt
    write-CallState (push_looks value pos) ne h = h
    write-CallState (push_claims value pos) ne (h, look) =
        (h, λ l. let (v, s) = look l in (v, still-Holds pos pos v (ne l) s))
    write-CallState (push_writes value pos) ne (h, e, s) = (h, e, still-Holds pos pos none ne s)
    write-CallState (push_publishes pos) ne (h, s) = (h, still-Holds pos pos _ ne s)
    write-CallState (pushed pos) ne (h, s) = (h, still-Above pos (suc pos) s)
    write-CallState refused ne h = tt
    write-CallState pop_loads ne h = tt
    write-CallState (pop_looks pos) ne h = h
    write-CallState (pop_claims pos) ne (h, look) =
        (h, λ l. let (v, s) = look l in (v, still-Holds pos (suc pos) v (ne l) s))
    write-CallState (pop_takes pos) ne (h, l, s) = (h, l, still-Holds pos (suc pos) _ ne s)
    write-CallState (pop_releases pos result) ne (h, l, e, s) =
        (h, l, e, still-Holds pos (suc pos) none ne s)
    write-CallState (popped pos result) ne (h, l, e, s) = (h, l, e, still-Above pos (pos + n) s)
    write-CallState found_empty ne h = tt
