-- ===== src/ObjectPool/Exclusive.antt =====
-- What the clients of a pool may rely on, whatever calls they have made.
use egl_utils_cpp.Prelude.{
  ℕ, zero, suc, ◌+◌, ◌-◌, ◌≤◌, ◌<◌, ◌≡◌, ◌≢◌, ◌↔◌, refl, ap, ◌∙◌, true, none, some, List, [], ◌∷◌,
  get_elem?, get_elem?-eq-some, arith, ◌==◌, max_size, Bool-cases, inl, inr,
}
use egl_utils_cpp.ObjectPool.{Handle, create, try_acquire, release_slot, available, in_use}
use egl_utils_cpp.ObjectPool.World.{World, start, Call, acquire, call, call_all}
use egl_utils_cpp.ObjectPool.Counts.{owned, lent, engaged_count}
use egl_utils_cpp.ObjectPool.Ownership.{IsValid, call_all-IsValid, start-IsValid}

lent-one :
    (i : ℕ) (l : List Handle) (k : ℕ) (h : Handle) → get_elem? l k ≡ some h → owned i h ≤ lent i l
lent-one i [] k h e = cc
lent-one i (x ∷ l) zero h e = ground arith
lent-one i (x ∷ l) (suc k) h e = omega (arith, lent-one i l k h e)

lent-two :
    (i : ℕ) (l : List Handle) (j k : ℕ) (g h : Handle)
    → j ≢ k
    → get_elem? l j ≡ some g
    → get_elem? l k ≡ some h
    → owned i g + owned i h ≤ lent i l
lent-two i [] j k g h ne a b = cc
lent-two i (x ∷ l) zero zero g h ne a b = absurd (ne refl)
lent-two i (x ∷ l) zero (suc k) g h ne a b = ground (arith, lent-one i l k h b)
lent-two i (x ∷ l) (suc j) zero g h ne a b = ground (arith, lent-one i l j g a)
lent-two i (x ∷ l) (suc j) (suc k) g h ne a b =
    omega (arith, lent-two i l j k g h (λ e. ne (ap suc e)) a b)

capacity-call : (c : Call) (w : World) → (call c w).pool.capacity ≡ w.pool.capacity
unfolding call try_acquire release_slot
capacity-call acquire w = ground arith
capacity-call _ w = ground arith

capacity-call_all : (cs : List Call) (w : World) → (call_all cs w).pool.capacity ≡ w.pool.capacity
unfolding call_all
capacity-call_all [] w = refl
capacity-call_all (c ∷ cs) w = capacity-call_all cs (call c w) ∙ capacity-call c w

capacity-start : (capacity : ℕ) → (start capacity).pool.capacity ≡ capacity
unfolding create
capacity-start capacity = refl

try_acquire-none :
    {w : World} → IsValid w → ((try_acquire w.pool).0 ≡ none) ↔ (w.pool.free_count ≡ 0)
unfolding try_acquire
try_acquire-none {w} v = elim (Bool-cases (w.pool.free_count == 0)) [
  | inl gone ↦ rw gone (ground arith)
  | inr some_left ↦
      let (x, e) =
        get_elem?-eq-some w.pool.free_slots (w.pool.free_count - 1)
          (ground (arith, v.size, v.counted)) in
      rw (some_left, e) (ground arith)
]

-- After any calls, two handles that both own a slot own different slots, each inside the pool.
pub handles_exclusive :
    (capacity : ℕ) (cs : List Call) (j k : ℕ) {g h : Handle}
    → j ≢ k
    → get_elem? (call_all cs (start capacity)).handles j ≡ some g
    → get_elem? (call_all cs (start capacity)).handles k ≡ some h
    → g.engaged ≡ true
    → h.engaged ≡ true
    → (g.index ≢ h.index) × (g.index < capacity) × (h.index < capacity)
handles_exclusive capacity cs j k {g} {h} ne a b on on' =
    let w = call_all cs (start capacity) in
    let v = call_all-IsValid cs (start-IsValid capacity) in
    let kept = capacity-call_all cs (start capacity) ∙ capacity-start capacity in
    let two = lent-two g.index w.handles j k g h ne a b in
    let one = lent-one h.index w.handles k h b in
    (
      λ e. ground (arith, two, v.once g.index),
      ground (arith, two, v.once g.index, kept),
      ground (arith, one, v.once h.index, kept),
    )

-- After any calls on a pool of at most `max_size` objects, `in_use` is the number of handles that
-- own a slot, `available` is the capacity less that number, and `try_acquire` fails exactly if
-- every slot is owned.
pub pool_counts :
    (capacity : ℕ) (cs : List Call)
    → capacity ≤ max_size
    → let w = call_all cs (start capacity) in
      (in_use w.pool ≡ engaged_count w.handles)
      × (available w.pool + engaged_count w.handles ≡ capacity)
      × (((try_acquire w.pool).0 ≡ none) ↔ (engaged_count w.handles ≡ capacity))
pool_counts capacity cs small =
    let w = call_all cs (start capacity) in
    let v = call_all-IsValid cs (start-IsValid capacity) in
    let kept = capacity-call_all cs (start capacity) ∙ capacity-start capacity in
    let fails = try_acquire-none v in
    (
      omega (arith, v.counted, kept),
      omega (arith, v.counted, kept),
      (
        λ e. (let z = fails.0 e in omega (arith, v.counted, kept, z)),
        λ e. fails.1 (omega (arith, v.counted, kept)),
      ),
    )
