-- ===== src/LockFreeQueue/Holders.antt =====
-- lock_free_queue.hpp: where a call that holds a ticket may stand.
use egl_utils_cpp.Prelude.{
  ℕ, ◌+◌, ◌%◌, ◌≤◌, ◌<◌, ◌≡◌, ◌∙◌, ap, subst, ◌⊎◌, inl, inr, Option, some, some-injective,
  none-ne-some, List, get_elem?,
}
use egl_utils_cpp.LockFreeQueue.{
  Slot, Call, push_loads, push_looks, push_claims, push_writes, push_publishes, pushed, refused,
  pop_loads, pop_looks, pop_claims, pop_takes, pop_releases, popped, found_empty,
}
use egl_utils_cpp.LockFreeQueue.Calls.{push_ticket, pop_ticket, CallState}

-- The call has claimed a ticket, and not yet published the element, or the vacancy.
pub data IsPushing {A : Type 0} (p : ℕ) : Call A → Type 0 where
  writes : {a : A} → IsPushing p (push_writes a p)
  publishes : IsPushing p (push_publishes p)

pub data IsPopping {A : Type 0} (p : ℕ) : Call A → Type 0 where
  takes : IsPopping p (pop_takes p)
  releases : {result : Option A} → IsPopping p (pop_releases p result)

abbrev pub HasReturned : {A : Type 0} → Call A → Type 0
HasReturned (pushed pos) = Unit {0}
HasReturned refused = Unit {0}
HasReturned (popped pos result) = Unit {0}
HasReturned found_empty = Unit {0}
HasReturned _ = ⊥

module _ {A : Type 0} where
  pub IsPushing-HasReturned : {c : Call A} {p : ℕ} → IsPushing p c → ¬ HasReturned c
  IsPushing-HasReturned writes h = h
  IsPushing-HasReturned publishes h = h

  pub IsPopping-HasReturned : {c : Call A} {p : ℕ} → IsPopping p c → ¬ HasReturned c
  IsPopping-HasReturned takes h = h
  IsPopping-HasReturned releases h = h

  push_holder : (c : Call A) (p : ℕ) → push_ticket c ≡ some p → IsPushing p c ⊎ (c ≡ pushed p)
  push_holder (push_writes a q) p e =
      subst (λ m. IsPushing m (push_writes a q) ⊎ (push_writes a q ≡ pushed m))
        (some-injective q p e) (inl writes)
  push_holder (push_publishes q) p e =
      let c : Call A = push_publishes q in
      subst (λ m. IsPushing m c ⊎ (c ≡ pushed m)) (some-injective q p e) (inl publishes)
  push_holder (pushed q) p e = inr (ap pushed (some-injective q p e))
  push_holder (push_loads a) p e = absurd (none-ne-some p e)
  push_holder (push_looks a q) p e = absurd (none-ne-some p e)
  push_holder (push_claims a q) p e = absurd (none-ne-some p e)
  push_holder (refused) p e = absurd (none-ne-some p e)
  push_holder (pop_loads) p e = absurd (none-ne-some p e)
  push_holder (pop_looks q) p e = absurd (none-ne-some p e)
  push_holder (pop_claims q) p e = absurd (none-ne-some p e)
  push_holder (pop_takes q) p e = absurd (none-ne-some p e)
  push_holder (pop_releases q r) p e = absurd (none-ne-some p e)
  push_holder (popped q r) p e = absurd (none-ne-some p e)
  push_holder (found_empty) p e = absurd (none-ne-some p e)

  pop_holder :
      (c : Call A) (p : ℕ)
      → pop_ticket c ≡ some p
      → IsPopping p c ⊎ ((r : Option A) × (c ≡ popped p r))
  pop_holder (pop_takes q) p e =
      let c : Call A = pop_takes q in
      subst (λ m. IsPopping m c ⊎ ((r : Option A) × (c ≡ popped m r))) (some-injective q p e)
        (inl takes)
  pop_holder (pop_releases q r) p e =
      subst
        (λ m. IsPopping m (pop_releases q r) ⊎ ((t : Option A) × (pop_releases q r ≡ popped m t)))
        (some-injective q p e) (inl releases)
  pop_holder (popped q r) p e = inr (r, ap (λ m. popped m r) (some-injective q p e))
  pop_holder (push_loads a) p e = absurd (none-ne-some p e)
  pop_holder (push_looks a q) p e = absurd (none-ne-some p e)
  pop_holder (push_claims a q) p e = absurd (none-ne-some p e)
  pop_holder (push_writes a q) p e = absurd (none-ne-some p e)
  pop_holder (push_publishes q) p e = absurd (none-ne-some p e)
  pop_holder (pushed q) p e = absurd (none-ne-some p e)
  pop_holder (refused) p e = absurd (none-ne-some p e)
  pop_holder (pop_loads) p e = absurd (none-ne-some p e)
  pop_holder (pop_looks q) p e = absurd (none-ne-some p e)
  pop_holder (pop_claims q) p e = absurd (none-ne-some p e)
  pop_holder (found_empty) p e = absurd (none-ne-some p e)

  -- A producer that has returned has left its slot behind its ticket, and a consumer a lap behind.
  pub push_holder_passed :
      (n d : ℕ) (claimed : List A) (slots : List (Slot A)) {p : ℕ} (c : Call A) (x : Slot A)
      → push_ticket c ≡ some p
      → CallState n d claimed slots c
      → get_elem? slots (p % n) ≡ some x
      → IsPushing p c ⊎ (p < x.sequence)
  push_holder_passed n d claimed slots {p} c x has ok at = elim (push_holder c p has) [
    | inl h ↦ inl h
    | inr e ↦
        let (_, above) : CallState n d claimed slots (pushed p) =
          subst (CallState n d claimed slots) e ok in
        inr (above x at)
  ]

  pub pop_holder_passed :
      (n d : ℕ) (claimed : List A) (slots : List (Slot A)) {p : ℕ} (c : Call A) (x : Slot A)
      → pop_ticket c ≡ some p
      → CallState n d claimed slots c
      → get_elem? slots (p % n) ≡ some x
      → IsPopping p c ⊎ ((c ≡ popped p (get_elem? claimed p)) × (p + n ≤ x.sequence))
  pop_holder_passed n d claimed slots {p} c x has ok at = elim (pop_holder c p has) [
    | inl h ↦ inl h
    | inr (r, e) ↦
        let (_, _, result, above) : CallState n d claimed slots (popped p r) =
          subst (CallState n d claimed slots) e ok in
        inr (e ∙ ap (popped p) result, above x at)
  ]
