-- ===== src/LockFreeQueue/Owners.antt =====
-- lock_free_queue.hpp: which calls may rely on the slot of a claimed ticket.
use egl_utils_cpp.Prelude.{
  ℕ, suc, ◌%◌, ◌≤◌, ◌<◌, ◌≡◌, ◌≢◌, sym, ◌∙◌, ap, Option, some, some-injective, List, length,
  get_elem?, arith,
}
use egl_utils_cpp.LockFreeQueue.{
  Slot, Call, push_loads, push_looks, push_claims, push_writes, push_publishes, pushed, refused,
  pop_loads, pop_looks, pop_claims, pop_takes, pop_releases, popped, found_empty,
}
use egl_utils_cpp.LockFreeQueue.Index.{residue_suc}
use egl_utils_cpp.LockFreeQueue.Calls.{push_ticket, pop_ticket, Holds, CallState, Spares}

module _ {A : Type 0} (n d : ℕ) (claimed : List A) (slots : List (Slot A)) where
  module _ (two : 2 ≤ n) (pos : ℕ) where
    same_sequence :
        (p s t : ℕ) (v w : Option A)
        → pos % n ≡ p % n
        → Holds n slots pos s v
        → Holds n slots p t w
        → s ≡ t
    same_sequence p s t v w e h k =
        ap (λ x. x.sequence) (some-injective _ _ (sym h ∙ ap (get_elem? slots) e ∙ k))

    not_before : (p : ℕ) → pos % n ≡ p % n → pos ≢ suc p
    not_before p e h = residue_suc n p two (ap (λ m. m % n) (sym h) ∙ e)

    not_after : (p : ℕ) → pos % n ≡ p % n → suc pos ≢ p
    not_after p e h = residue_suc n pos two (ap (λ m. m % n) h ∙ sym e)

    pub producer-Spares :
        (v : Option A)
        → Holds n slots pos pos v
        → pos < length claimed
        → (c : Call A) → push_ticket c ≢ some pos
        → CallState n d claimed slots c
        → Spares n (pos % n) d claimed c
    producer-Spares v held low (push_claims value p) ne (h, look) =
        λ l e. let (w, s) = look l in omega (arith, same_sequence p pos p v w e held s)
    producer-Spares v held low (push_writes value p) ne (h, _, s) =
        λ e. ne (ap some (sym (same_sequence p pos p v _ e held s)))
    producer-Spares v held low (push_publishes p) ne (h, s) =
        λ e. ne (ap some (sym (same_sequence p pos p v _ e held s)))
    producer-Spares v held low (pop_claims p) ne (h, look) =
        λ l e. let (w, s) = look l in not_before p e (same_sequence p pos (suc p) v w e held s)
    producer-Spares v held low (pop_takes p) ne (_, _, s) =
        λ e. not_before p e (same_sequence p pos (suc p) v _ e held s)
    producer-Spares v held low (pop_releases p result) ne (_, _, _, s) =
        λ e. not_before p e (same_sequence p pos (suc p) v _ e held s)
    producer-Spares v held low (push_loads value) ne h = tt
    producer-Spares v held low (push_looks value p) ne h = tt
    producer-Spares v held low (pushed p) ne h = tt
    producer-Spares v held low refused ne h = tt
    producer-Spares v held low pop_loads ne h = tt
    producer-Spares v held low (pop_looks p) ne h = tt
    producer-Spares v held low (popped p result) ne h = tt
    producer-Spares v held low found_empty ne h = tt

    pub consumer-Spares :
        (v : Option A)
        → Holds n slots pos (suc pos) v
        → pos < d
        → (c : Call A) → pop_ticket c ≢ some pos
        → CallState n d claimed slots c
        → Spares n (pos % n) d claimed c
    consumer-Spares v held low (push_claims value p) ne (h, look) =
        λ l e. let (w, s) = look l in not_after p e (same_sequence p (suc pos) p v w e held s)
    consumer-Spares v held low (push_writes value p) ne (h, _, s) =
        λ e. not_after p e (same_sequence p (suc pos) p v _ e held s)
    consumer-Spares v held low (push_publishes p) ne (h, s) =
        λ e. not_after p e (same_sequence p (suc pos) p v _ e held s)
    consumer-Spares v held low (pop_claims p) ne (h, look) =
        λ l e. let (w, s) = look l in omega (arith, same_sequence p (suc pos) (suc p) v w e held s)
    consumer-Spares v held low (pop_takes p) ne (_, _, s) =
        λ e. ne (ap some (omega (arith, same_sequence p (suc pos) (suc p) v _ e held s)))
    consumer-Spares v held low (pop_releases p result) ne (_, _, _, s) =
        λ e. ne (ap some (omega (arith, same_sequence p (suc pos) (suc p) v _ e held s)))
    consumer-Spares v held low (push_loads value) ne h = tt
    consumer-Spares v held low (push_looks value p) ne h = tt
    consumer-Spares v held low (pushed p) ne h = tt
    consumer-Spares v held low refused ne h = tt
    consumer-Spares v held low pop_loads ne h = tt
    consumer-Spares v held low (pop_looks p) ne h = tt
    consumer-Spares v held low (popped p result) ne h = tt
    consumer-Spares v held low found_empty ne h = tt
