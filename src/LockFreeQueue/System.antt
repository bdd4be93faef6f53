-- ===== src/LockFreeQueue/System.antt =====
-- lock_free_queue.hpp: a queue with all calls that threads have made on it, in any interleaving of
-- their steps. Every access is taken to be sequentially consistent.
use egl_utils_cpp.Prelude.{
  ℕ, ◌≡◌, sym, ◌∙◌, ap, subst, some-injective, none-ne-some, Option-cases, inl, inr, Bool, Option,
  none, some, List, [], ◌∷◌, ◌++◌, get_elem?, set,
}
use egl_utils_cpp.LockFreeQueue.{
  LockFreeQueue, Call, push_loads, push_claims, push_writes, pop_loads, fresh, advance,
}

pub data Move (A : Type 0) : Type 0 where
  begin_push : A → Move A
  begin_pop : Move A
  -- the call at an index makes a step, whose compare-and-exchange may fail for no reason
  run : Bool → ℕ → Move A

-- `claimed` has the values of the tickets that producers have claimed, in their order.
pub record System (A : Type 0) : Type 0 where
  pub queue : LockFreeQueue A
  pub calls : List (Call A)
  pub claimed : List A

module _ {A : Type 0} where
  unfoldable pub start : ℕ → System A
  unfolding fresh
  start size = record { queue = fresh size; calls = []; claimed = [] }

  -- What a step of a call claims.
  unfoldable pub claims : Call A → Call A → List A
  claims (push_claims value pos) (push_writes v p) = v ∷ []
  claims _ _ = []

  unfoldable pub moved :
      System A → ℕ → Call A → Option (Call A × LockFreeQueue A) → Option (System A)
  unfolding claims
  moved s i c none = none
  moved s i c (some (after, q)) =
      some record { queue = q; calls = set s.calls i after; claimed = s.claimed ++ claims c after }

  unfoldable pub step : Move A → System A → Option (System A)
  unfolding advance moved
  step (begin_push value) s = some (record s { calls = s.calls ++ (push_loads value ∷ []) })
  step begin_pop s = some (record s { calls = s.calls ++ (pop_loads ∷ []) })
  step (run spurious i) s = elim (get_elem? s.calls i) [
    | none ↦ none
    | some c ↦ moved s i c (advance spurious c s.queue)
  ]

  pub data Reach (s : System A) : System A → Type 0 where
    here : Reach s s
    next : {t u : System A} (m : Move A) → Reach s t → step m t ≡ some u → Reach s u

  unfoldable pub run_all : List (Move A) → System A → Option (System A)
  unfolding step
  run_all [] s = some s
  run_all (m ∷ moves) s = elim (step m s) [ none ↦ none | some t ↦ run_all moves t ]

  Reach-next : {s t u : System A} (m : Move A) → step m s ≡ some t → Reach t u → Reach s u
  Reach-next m e here = next m here e
  Reach-next m e (next m' r f) = next m' (Reach-next m e r) f

  pub run_all-Reach :
      (moves : List (Move A)) (s t : System A) → run_all moves s ≡ some t → Reach s t
  unfolding run_all
  run_all-Reach [] s t e = subst (Reach s) (some-injective s t e) here
  run_all-Reach (m ∷ moves) s t e = elim (Option-cases (step m s)) [
    | inl gone ↦ absurd (
        none-ne-some t (sym (ap (λ o. elim o [ none ↦ none | some u ↦ run_all moves u ]) gone) ∙ e))
    | inr (u, went) ↦ Reach-next m went (
        run_all-Reach moves u t
          (sym (ap (λ o. elim o [ none ↦ none | some w ↦ run_all moves w ]) went) ∙ e))
  ]
