-- ===== src/LockFreeQueue/Tickets.antt =====
-- lock_free_queue.hpp: lists of calls, where `f` gives the ticket that a call holds: what a write
-- to the list keeps.
use egl_utils_cpp.Prelude.{
  ℕ, suc, ◌<◌, ◌≡◌, ◌≢◌, sym, ◌∙◌, ap, subst, true, false, Option, none, some, some-injective,
  none-ne-some, List, [], ◌∷◌, ◌++◌, get_elem?, get_elem?-append_inv, get_elem?-append_left,
  get_elem?-set_inv, get_elem?-set_self, get_elem?-set_ne, get_elem?-in_range, set, inl, inr, arith,
  lt_cases, ◌==◌, ==_iff, Bool-cases,
}

module _ {C : Type 0} where
  abbrev pub All : (C → Type 0) → List C → Type 0
  All P calls = (i : ℕ) (c : C) → get_elem? calls i ≡ some c → P c

  pub set-All :
      {P Q : C → Type 0} (calls : List C) (i : ℕ) (after : C)
      → ((j : ℕ) (e : C) → i ≢ j → get_elem? calls j ≡ some e → P e → Q e)
      → Q after
      → All P calls
      → All Q (set calls i after)
  set-All {Q = Q} calls i after others this all j e h =
      elim (get_elem?-set_inv calls i j after e h) [
        | inl (_, same) ↦ subst Q (sym same) this
        | inr (away, old) ↦ others j e away old (all j e old)
      ]

  pub append-All :
      {P : C → Type 0} (calls : List C) (c : C) → P c → All P calls → All P (calls ++ (c ∷ []))
  append-All {P} calls c this all j e h = elim (get_elem?-append_inv calls c j e h) [
    | inl old ↦ all j e old
    | inr same ↦ subst P (sym same) this
  ]

module _ {C : Type 0} (f : C → Option ℕ) where
  -- No ticket has two holders; and each ticket below a bound has one.
  abbrev pub IsUnique : List C → Type 0
  IsUnique calls =
      (i j : ℕ) (c e : C) (p : ℕ)
      → get_elem? calls i ≡ some c
      → get_elem? calls j ≡ some e
      → f c ≡ some p
      → f e ≡ some p
      → i ≡ j

  abbrev pub AreHeld : ℕ → List C → Type 0
  AreHeld bound calls =
      (p : ℕ) → p < bound → (i : ℕ) × (c : C) × (get_elem? calls i ≡ some c) × (f c ≡ some p)

  module _ (calls : List C) (i : ℕ) (before after : C) (at : get_elem? calls i ≡ some before) where
    pub set_same-IsUnique : f after ≡ f before → IsUnique calls → IsUnique (set calls i after)
    set_same-IsUnique same unique j k c e p hj hk fc fe =
        elim (get_elem?-set_inv calls i j after c hj) [
          | inl (ij, cj) ↦ elim (get_elem?-set_inv calls i k after e hk) [
            | inl (ik, ck) ↦ sym ij ∙ ik
            | inr (_, old) ↦
                sym ij ∙ unique i k before e p at old (sym same ∙ sym (ap f cj) ∙ fc) fe
          ]
          | inr (_, old_j) ↦ elim (get_elem?-set_inv calls i k after e hk) [
            | inl (ik, ck) ↦ unique j i c before p old_j at fc (sym same ∙ sym (ap f ck) ∙ fe) ∙ ik
            | inr (_, old_k) ↦ unique j k c e p old_j old_k fc fe
          ]
        ]

    pub set_new-IsUnique :
        (new : ℕ)
        → f after ≡ some new
        → ((j : ℕ) (e : C) → get_elem? calls j ≡ some e → f e ≢ some new)
        → IsUnique calls
        → IsUnique (set calls i after)
    set_new-IsUnique new has none_has unique j k c e p hj hk fc fe =
        elim (get_elem?-set_inv calls i j after c hj) [
          | inl (ij, cj) ↦ elim (get_elem?-set_inv calls i k after e hk) [
            | inl (ik, ck) ↦ sym ij ∙ ik
            | inr (_, old) ↦ absurd (none_has k e old (fe ∙ sym fc ∙ ap f cj ∙ has))
          ]
          | inr (_, old_j) ↦ elim (get_elem?-set_inv calls i k after e hk) [
            | inl (ik, ck) ↦ absurd (none_has j c old_j (fc ∙ sym fe ∙ ap f ck ∙ has))
            | inr (_, old_k) ↦ unique j k c e p old_j old_k fc fe
          ]
        ]

    pub set-AreHeld :
        (bound : ℕ)
        → ((p : ℕ) → f before ≡ some p → f after ≡ some p)
        → AreHeld bound calls
        → AreHeld bound (set calls i after)
    set-AreHeld bound keep held p h =
        let (j, c, there, has) = held p h in
        elim (Bool-cases (i == j)) [
          | inl e ↦
              let ij = (==_iff i j).0 e in
              let same = some-injective before c (sym at ∙ ap (get_elem? calls) ij ∙ there) in
              (
                i,
                after,
                get_elem?-set_self calls i after (get_elem?-in_range calls i before at),
                keep p (ap f same ∙ has),
              )
          | inr n ↦
              let away : i ≢ j = λ e. let both : true ≡ false = sym ((==_iff i j).1 e) ∙ n in cc in
              (j, c, get_elem?-set_ne calls after away ∙ there, has)
        ]

    -- The call takes the next ticket.
    pub set_next-AreHeld :
        (bound : ℕ)
        → f before ≡ none
        → f after ≡ some bound
        → AreHeld bound calls
        → AreHeld (suc bound) (set calls i after)
    set_next-AreHeld bound had has held p h = elim (lt_cases p bound) [
      | inl l ↦ set-AreHeld bound (λ q e. absurd (none-ne-some q (sym had ∙ e))) held p l
      | inr l ↦ (
        i,
        after,
        get_elem?-set_self calls i after (get_elem?-in_range calls i before at),
        has ∙ ap some (omega arith),
      )
    ]

  pub append-IsUnique :
      (calls : List C) (c : C) → f c ≡ none → IsUnique calls → IsUnique (calls ++ (c ∷ []))
  append-IsUnique calls c has unique i j a b p hi hj fa fb =
      elim (get_elem?-append_inv calls c i a hi) [
        | inl old_i ↦ elim (get_elem?-append_inv calls c j b hj) [
          | inl old_j ↦ unique i j a b p old_i old_j fa fb
          | inr same ↦ absurd (none-ne-some p (sym has ∙ sym (ap f same) ∙ fb))
        ]
        | inr same ↦ absurd (none-ne-some p (sym has ∙ sym (ap f same) ∙ fa))
      ]

  pub append-AreHeld :
      (calls : List C) (c : C) (bound : ℕ) → AreHeld bound calls → AreHeld bound (calls ++ (c ∷ []))
  append-AreHeld calls c bound held p h =
      let (i, a, at, has) = held p h in
      (i, a, get_elem?-append_left calls (c ∷ []) i (get_elem?-in_range calls i a at) ∙ at, has)
