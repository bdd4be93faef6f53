-- ===== src/LockFreeQueue/Steps.antt =====
-- lock_free_queue.hpp: each step of `try_push` and `try_pop`, by where the call stands.
use egl_utils_cpp.Prelude.{
  ℕ, suc, ◌+◌, ◌^◌, ◌≤◌, ◌<◌, ◌≡◌, refl, sym, ◌∙◌, ap, subst, Bool, true, not, ◌&&◌, if◌then◌else◌,
  length-append, ◌==◌, Bool-cases, some, [], ◌∷◌, ◌++◌, append-nil, length, get_elem?, set,
  add_size, inl, inr, arith,
}
use egl_utils_cpp.LockFreeQueue.{
  LockFreeQueue, Call, push_loads, push_looks, push_claims, push_writes, push_publishes, pushed,
  refused, pop_loads, pop_looks, pop_claims, pop_takes, pop_releases, popped, found_empty,
  claim_push, claim_pop, advance,
}
use egl_utils_cpp.LockFreeQueue.System.{System, claims}
use egl_utils_cpp.LockFreeQueue.Calls.{Holds}
use egl_utils_cpp.LockFreeQueue.Inv.{Rules, claim_push-Rules, claim_pop-Rules}
use egl_utils_cpp.LockFreeQueue.Keeps.{Inv, Keeps, quiet-Inv}
use egl_utils_cpp.LockFreeQueue.Accesses.{push_looks-Keeps, pop_looks-Keeps}
use egl_utils_cpp.LockFreeQueue.Writes.{
  push_writes-Keeps, push_publishes-Keeps, pop_takes-Keeps, pop_releases-Keeps,
}

won_at : (spurious : Bool) (actual pos : ℕ) → not spurious && actual == pos ≡ true → actual ≡ pos
won_at spurious actual pos e = ground arith

module _ {A : Type 0} (k : ℕ) (two : 2 ≤ 2 ^ k) (s : System A) (v : Inv k s)
    (room : length s.claimed + 2 ^ k < 2 ^ 63) (i : ℕ) where
  abbrev n : ℕ
  n = 2 ^ k

  abbrev d : ℕ
  d = s.queue.dequeue_pos

  abbrev IsAt : Call A → Type 0
  IsAt c = get_elem? s.calls i ≡ some c

  -- A compare-and-exchange that loses leaves the queue as it is.
  push_claims-Keeps :
      (spurious : Bool) (a : A) (pos : ℕ)
      → IsAt (push_claims a pos)
      → Keeps k s i (push_claims a pos) (some (claim_push spurious a pos s.queue))
  unfolding claim_push claims
  push_claims-Keeps spurious a pos at =
      let (low, look) = v.rules.calls_ok i (push_claims a pos) at in
      let won : Call A × LockFreeQueue A =
        (push_writes a pos, record s.queue { enqueue_pos = add_size pos 1 }) in
      let lost : Call A × LockFreeQueue A = (push_looks a s.queue.enqueue_pos, s.queue) in
      elim (Bool-cases (not spurious && s.queue.enqueue_pos == pos)) [
        | inl e ↦
            let same : length s.claimed ≡ pos =
              sym v.enqueued ∙ won_at spurious s.queue.enqueue_pos pos e in
            let (w, h) = look (omega arith) in
            subst (λ r. Keeps k s i (push_claims a pos) (some r))
              (sym (ap (λ b. if b then won else lost) e))
              (record {
                masked = v.masked;
                sized = v.sized;
                enqueued = omega (arith, length-append s.claimed (a ∷ []));
                rules =
                    subst
                      (λ p.
                        Rules n d s.queue.slots (set s.calls i (push_writes a p))
                          (s.claimed ++ (a ∷ [])))
                      same
                      (claim_push-Rules v.rules two i (push_claims a pos) at refl refl a w
                        (subst (λ p. Holds n s.queue.slots p p w) (sym same) h));
              })
        | inr e ↦
            subst (λ r. Keeps k s i (push_claims a pos) (some r))
              (sym (ap (λ b. if b then won else lost) e))
              (quiet-Inv k two s v room i (push_claims a pos) at (push_looks a s.queue.enqueue_pos)
                refl (omega (arith, v.enqueued)) refl refl)
      ]

  pop_claims-Keeps :
      (spurious : Bool) (pos : ℕ)
      → IsAt (pop_claims pos)
      → Keeps k s i (pop_claims pos) (some (claim_pop spurious pos s.queue))
  unfolding claim_pop claims
  pop_claims-Keeps spurious pos at =
      let (low, look) = v.rules.calls_ok i (pop_claims pos) at in
      let won : Call A × LockFreeQueue A =
        (pop_takes pos, record s.queue { dequeue_pos = add_size pos 1 }) in
      let lost : Call A × LockFreeQueue A = (pop_looks d, s.queue) in
      elim (Bool-cases (not spurious && s.queue.dequeue_pos == pos)) [
        | inl e ↦
            let same : d ≡ pos = won_at spurious d pos e in
            let next : suc d ≡ add_size pos 1 = omega (arith, v.rules.behind) in
            let (w, h) = look (omega arith) in
            let kept =
              claim_pop-Rules v.rules two i (pop_claims pos) at refl refl w
                (subst (λ p. Holds n s.queue.slots p (suc p) w) (sym same) h) in
            subst (λ r. Keeps k s i (pop_claims pos) (some r))
              (sym (ap (λ b. if b then won else lost) e))
              (subst
                (λ l. Inv k (record {
                  queue = record s.queue { dequeue_pos = add_size pos 1 };
                  calls = set s.calls i (pop_takes pos);
                  claimed = l;
                }))
                (sym (append-nil s.claimed))
                (record {
                  masked = v.masked;
                  sized = v.sized;
                  enqueued = v.enqueued;
                  rules =
                      subst (λ m. Rules n m s.queue.slots (set s.calls i (pop_takes pos)) s.claimed)
                        next
                        (subst
                          (λ p.
                            Rules n (suc d) s.queue.slots (set s.calls i (pop_takes p)) s.claimed)
                          same kept);
                }))
        | inr e ↦
            subst (λ r. Keeps k s i (pop_claims pos) (some r))
              (sym (ap (λ b. if b then won else lost) e))
              (quiet-Inv k two s v room i (pop_claims pos) at (pop_looks d) refl (omega arith) refl
                refl)
      ]

  -- Every step finds its slot, and keeps the invariant.
  pub advance-Keeps :
      (spurious : Bool) (c : Call A) → IsAt c → Keeps k s i c (advance spurious c s.queue)
  unfolding advance claims
  advance-Keeps spurious (push_loads a) at =
      quiet-Inv k two s v room i (push_loads a) at (push_looks a s.queue.enqueue_pos) refl
        (omega (arith, v.enqueued)) refl refl
  advance-Keeps spurious (push_looks a pos) at = push_looks-Keeps k two s v room i a pos at
  advance-Keeps spurious (push_claims a pos) at = push_claims-Keeps spurious a pos at
  advance-Keeps spurious (push_writes a pos) at = push_writes-Keeps k two s v room i a pos at
  advance-Keeps spurious (push_publishes pos) at = push_publishes-Keeps k two s v room i pos at
  advance-Keeps spurious pop_loads at =
      quiet-Inv k two s v room i pop_loads at (pop_looks d) refl (omega arith) refl refl
  advance-Keeps spurious (pop_looks pos) at = pop_looks-Keeps k two s v room i pos at
  advance-Keeps spurious (pop_claims pos) at = pop_claims-Keeps spurious pos at
  advance-Keeps spurious (pop_takes pos) at = pop_takes-Keeps k two s v room i pos at
  advance-Keeps spurious (pop_releases pos r) at = pop_releases-Keeps k two s v room i pos r at
  advance-Keeps spurious (pushed pos) at =
      quiet-Inv k two s v room i (pushed pos) at (pushed pos) refl
        (v.rules.calls_ok i (pushed pos) at) refl refl
  advance-Keeps spurious refused at =
      quiet-Inv k two s v room i refused at refused refl tt refl refl
  advance-Keeps spurious (popped pos r) at =
      quiet-Inv k two s v room i (popped pos r) at (popped pos r) refl
        (v.rules.calls_ok i (popped pos r) at) refl refl
  advance-Keeps spurious found_empty at =
      quiet-Inv k two s v room i found_empty at found_empty refl tt refl refl
