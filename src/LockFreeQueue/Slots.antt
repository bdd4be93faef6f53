-- ===== src/LockFreeQueue/Slots.antt =====
-- lock_free_queue.hpp: what a slot may hold, where `claimed` has the values of the tickets of
-- producers so far and `d` tickets of consumers are claimed.
use egl_utils_cpp.Prelude.{
  ℕ, suc, ◌+◌, ◌%◌, ◌≤◌, ◌<◌, ◌≡◌, ◌≢◌, sym, ◌∙◌, ap, Option, none, List, [], ◌∷◌, ◌++◌, length,
  length-append, get_elem?, get_elem?-append_left, inl, inr, arith, lt_cases,
}
use native.Mathlib.Nat.{add-mod_right}
use egl_utils_cpp.LockFreeQueue.Index.{residue_suc}

-- At index `i`, by its sequence and value: vacant for a ticket, which a producer may have claimed already;
-- or full for a ticket, which a consumer may have claimed already.
pub data SlotState {A : Type 0} (n d : ℕ) (claimed : List A) (i : ℕ) : ℕ → Option A → Type 0 where
  vacant :
      {s : ℕ} {v : Option A}
      → s % n ≡ i
      → d ≤ s
      → s < d + n
      → length claimed ≤ s + n
      → (length claimed ≤ s → v ≡ none)
      → SlotState n d claimed i s v
  full :
      {p : ℕ} {v : Option A}
      → p % n ≡ i
      → p < length claimed
      → length claimed ≤ p + n
      → (d ≤ p → v ≡ get_elem? claimed p)
      → SlotState n d claimed i (suc p) v

ne→lt : {a b : ℕ} → a ≤ b → a ≢ b → a < b
ne→lt {a} {b} h n = elim (lt_cases a b) [ inl l ↦ l | inr l ↦ absurd (n (omega arith)) ]

-- A lap on, the index is the same.
next_lap : (n s m : ℕ) {i : ℕ} → s % n ≡ i → m ≡ s + n → i ≡ m % n
next_lap n s m at_i e = sym at_i ∙ sym (add-mod_right s n) ∙ ap (λ m. m % n) (sym e)

module _ {A : Type 0} {n : ℕ} (two : 2 ≤ n) {d : ℕ} {claimed : List A} where
  -- The sequence tells which, since the ring has two slots at least.
  pub vacant_at :
      {i s : ℕ} {v : Option A}
      → s % n ≡ i
      → SlotState n d claimed i s v
      → (d ≤ s) × (s < d + n) × (length claimed ≤ s + n) × (length claimed ≤ s → v ≡ none)
  vacant_at e (vacant at_i behind within lap empty) = (behind, within, lap, empty)
  vacant_at e (full {p} at_i written lap value) = absurd (residue_suc n p two (e ∙ sym at_i))

  pub full_at :
      {i p : ℕ} {v : Option A}
      → p % n ≡ i
      → SlotState n d claimed i (suc p) v
      → (p < length claimed) × (length claimed ≤ p + n) × (d ≤ p → v ≡ get_elem? claimed p)
  full_at {p} e (vacant at_i behind within lap empty) = absurd (residue_suc n p two (at_i ∙ sym e))
  full_at e (full at_i written lap value) = (written, lap, value)

  -- A producer claims the next ticket, whose slot is vacant for it.
  pub claim_push-SlotState :
      (a : A) {i s : ℕ} {v : Option A}
      → (i ≡ length claimed % n → s ≡ length claimed)
      → SlotState n d claimed i s v
      → SlotState n d (claimed ++ (a ∷ [])) i s v
  claim_push-SlotState a {i} next (vacant {s} at_i behind within lap empty) =
      let more = length-append claimed (a ∷ []) in
      let before : length claimed ≢ s + n = λ e. omega (arith, next (next_lap n _ _ at_i e)) in
      vacant at_i behind within (omega (arith, ne→lt lap before)) (λ h. empty (omega arith))
  claim_push-SlotState a {i} next (full {p} at_i written lap value) =
      let more = length-append claimed (a ∷ []) in
      let before : length claimed ≢ p + n = λ e. omega (arith, next (next_lap n _ _ at_i e)) in
      full at_i (omega arith) (omega (arith, ne→lt lap before))
        (λ h. value h ∙ sym (get_elem?-append_left claimed (a ∷ []) p written))

  -- A consumer claims the next ticket, whose slot is full for it.
  pub claim_pop-SlotState :
      {i s : ℕ} {v : Option A}
      → (i ≡ d % n → s ≡ suc d)
      → SlotState n d claimed i s v
      → SlotState n (suc d) claimed i s v
  claim_pop-SlotState next (vacant {s} at_i behind within lap empty) =
      vacant at_i (ne→lt behind (λ e. omega (arith, next (sym at_i ∙ ap (λ m. m % n) (sym e)))))
        (omega arith) lap empty
  claim_pop-SlotState next (full at_i written lap value) =
      full at_i written lap (λ h. value (omega arith))
